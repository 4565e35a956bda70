-- ===== src/Session/Dispatch.antt =====
-- market_data/itch/Session.cpp: the threads of a session, in any order of their steps. A step goes
-- from one lock to the next; which thread makes it is open.
pub mod Queue
pub mod Once
pub mod Left
use system_k_dev.Base.{
  ◌≡◌, Bool, true, false, Option, none, some, List, [], ◌∷◌, ◌++◌, ℕ, if◌then◌else◌, replicate,
}
use system_k_dev.Packet.{TextOps, PacketBase}
use system_k_dev.Message.{Message}
use system_k_dev.Message.Client.{ClientMessage}
use system_k_dev.Base.Int.{ℤ}
use system_k_dev.Socket.{Attempt, Connecting}
use system_k_dev.Session.Log.{Environment}
use system_k_dev.Session.{
  Session, start, stop, is_connected, dispatch_server_message, send_message, close_socket,
  dispatch_thread_pool_size,
}
use system_k_dev.Session.Workers.{take_message, server_round, client_round}

-- A thread of the dispatch pool: before its lock, with a message that it has taken, or ended.
pub data Worker (F : Type 0) : Type 0 where
  waiting : Worker F
  busy : Message F → Worker F
  ended : Worker F

-- The thread that reads from the server: at the test of its loop, in `ReceiveMessage`, or ended.
pub data Server : Type 0 where
  testing receiving over : Server

-- `arrived` is what `DispatchServerMessage` has been called with, `taken` what the pool has taken
-- from the queue, and `handled` what it has finished with, each in order.
pub record System (F : Type 0) : Type 0 where
  pub session : Session F
  pub server : Server
  pub pool : List (Worker F)
  pub arrived : List (Message F)
  pub taken : List (Message F)
  pub handled : List (Message F)

-- All threads of the pool have ended.
abbrev pub AllEnded : {F : Type 0} → List (Worker F) → Type 0
AllEnded [] = Unit {0}
AllEnded (waiting ∷ ws) = ⊥
AllEnded (busy m ∷ ws) = ⊥
AllEnded (ended ∷ ws) = AllEnded ws

-- `Stop` is two steps: it asks for the end, and returns when the threads have ended. `Start` is
-- called when it has, as main.cpp does in its loop, and makes the threads again where it connects; the
-- queue is not cleared.
pub data Step {F : Type 0} (x : System F) : System F → Type 0 where
  server_test :
      x.server ≡ testing → x.session.shutdown ≡ false → Step x (record x { server = receiving })
  server_ends : x.server ≡ testing → x.session.shutdown ≡ true → Step x (record x { server = over })
  server_receives :
      (e : Environment) (m : Message F)
      → x.server ≡ receiving
      → Step x (record x {
        server = testing;
        session = dispatch_server_message e m x.session;
        arrived = x.arrived ++ (m ∷ []);
      })
  server_waits :
      (e : Environment) (closed : Bool) (last_seen seen : ℕ) (go_on : Bool) (s : Session F)
      → x.server ≡ receiving
      → server_round e none last_seen (if closed then close_socket e x.session else x.session)
        ≡ (go_on, seen, s)
      → Step x (record x { server = if go_on then testing else over; session = s })
  takes :
      (before after : List (Worker F)) (m : Message F) (s : Session F)
      → x.pool ≡ before ++ (waiting ∷ after)
      → take_message x.session ≡ some (m, s)
      → Step x
          (record x { session = s; pool = before ++ (busy m ∷ after); taken = x.taken ++ (m ∷ []) })
  finishes :
      (before after : List (Worker F)) (m : Message F)
      → x.pool ≡ before ++ (busy m ∷ after)
      → Step x (record x { pool = before ++ (waiting ∷ after); handled = x.handled ++ (m ∷ []) })
  worker_ends :
      (before after : List (Worker F))
      → x.pool ≡ before ++ (waiting ∷ after)
      → take_message x.session ≡ none
      → x.session.shutdown ≡ true
      → Step x (record x { pool = before ++ (ended ∷ after) })
  heartbeats :
      (e : Environment) (attempts : List Attempt) (heartbeat : PacketBase) (s : Session F)
      → client_round e attempts heartbeat x.session ≡ some s
      → Step x (record x { session = s })
  calls :
      (t : TextOps F) (e : Environment) (attempts rest : List Attempt) (m : ClientMessage)
      (sent : Bool) (s : Session F)
      → send_message t e attempts m x.session ≡ some (sent, s, rest)
      → Step x (record x { session = s })
  stop_requested : Step x (record x { session = record x.session { shutdown = true } })
  stops :
      x.server ≡ over
      → AllEnded x.pool
      → x.session.shutdown ≡ true
      → Step x (record x { session = stop x.session })
  starts :
      (e : Environment) (host : List ℕ) (port : ℤ) (addresses : Option (List Connecting))
      → x.server ≡ over
      → AllEnded x.pool
      → is_connected x.session ≡ false
      → is_connected (start e host port addresses x.session) ≡ true
      → Step x (record x {
        session = start e host port addresses x.session;
        server = testing;
        pool = replicate dispatch_thread_pool_size waiting;
      })
  start_fails :
      (e : Environment) (host : List ℕ) (port : ℤ) (addresses : Option (List Connecting))
      → x.server ≡ over
      → AllEnded x.pool
      → is_connected x.session ≡ false
      → is_connected (start e host port addresses x.session) ≡ false
      → Step x (record x { session = start e host port addresses x.session })

pub data Reach {F : Type 0} (x : System F) : System F → Type 0 where
  here : Reach x x
  next : {y z : System F} → Reach x y → Step y z → Reach x z

-- What the pool holds at the moment.
abbrev pub in_flight : {F : Type 0} → List (Worker F) → List (Message F)
in_flight [] = []
in_flight (waiting ∷ ws) = in_flight ws
in_flight (busy m ∷ ws) = m ∷ in_flight ws
in_flight (ended ∷ ws) = in_flight ws

-- The threads as `Start` makes them.
unfoldable pub started : {F : Type 0} → Session F → System F
started s = record {
  session = s;
  server = testing;
  pool = replicate dispatch_thread_pool_size waiting;
  arrived = [];
  taken = [];
  handled = [];
}
