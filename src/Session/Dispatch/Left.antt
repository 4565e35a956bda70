-- ===== src/Session/Dispatch/Left.antt =====
-- market_data/itch/Session.cpp: a message that comes after the threads of the pool have
-- ended, and stays in the queue when `Stop` returns.
use mathlib.Core.List.{append_assoc, append-nil}
use system_k_dev.Base.{
  ℕ, zero, suc, ◌≡◌, refl, sym, ◌∙◌, ap, subst, Bool, true, false, none, List, [], ◌∷◌, ◌++◌, arith,
  replicate,
}
use system_k_dev.Message.{Message, server_heartbeat, end_of_session}
use system_k_dev.Session.{
  log_message, enqueue, close_socket, stop, Session, dispatch_server_message,
  dispatch_thread_pool_size,
}
use system_k_dev.Session.Log.{Environment}
use system_k_dev.Session.Workers.{take_message}
use system_k_dev.Session.Dispatch.Queue.{deliverable, dispatch_server_message-queue}
use system_k_dev.Session.Dispatch.{
  System, Reach, Worker, waiting, busy, ended, receiving, server_test, server_ends, server_receives,
  worker_ends, stop_requested, here, next, started, testing, over, AllEnded, stops,
}

module _ {F : Type 0} where
  Reach-trans : {x y z : System F} → Reach x y → Reach y z → Reach x z
  Reach-trans r here = r
  Reach-trans r (next q st) = next (Reach-trans r q) st

  AllEnded-append : (b : List (Worker F)) → AllEnded b → AllEnded (b ++ (ended ∷ []))
  AllEnded-append [] h = h
  AllEnded-append (waiting ∷ b) h = absurd h
  AllEnded-append (busy m ∷ b) h = absurd h
  AllEnded-append (ended ∷ b) h = AllEnded-append b h

  -- With nothing to take and a stop requested, the whole pool ends.
  pool_ends :
      (k : ℕ) (b : List (Worker F)) (x : System F)
      → x.pool ≡ b ++ replicate k waiting
      → AllEnded b
      → take_message x.session ≡ none
      → x.session.shutdown ≡ true
      → (w : List (Worker F)) × Reach x (record x { pool = w }) × AllEnded w
  pool_ends zero b x p h empty stop = (x.pool, here, subst AllEnded (sym (p ∙ append-nil b)) h)
  pool_ends (suc k) b x p h empty stop =
      let x' = record x { pool = b ++ (ended ∷ replicate k waiting) } in
      let (w, r, all) =
        pool_ends k (b ++ (ended ∷ [])) x' (sym (append_assoc b (ended ∷ []) (replicate k waiting)))
          (AllEnded-append b h) empty stop in
      (w, Reach-trans (next here (worker_ends b (replicate k waiting) p empty stop)) r, all)

  log_message-shutdown :
      (e : Environment) (b : Bool) (s : Session F) → (log_message e b s).shutdown ≡ s.shutdown
  unfolding log_message
  log_message-shutdown e true s = refl
  log_message-shutdown e false s = refl

  dispatch_server_message-shutdown :
      (e : Environment) (m : Message F) (s : Session F)
      → (dispatch_server_message e m s).shutdown ≡ s.shutdown
  unfolding dispatch_server_message enqueue close_socket
  dispatch_server_message-shutdown e server_heartbeat s = log_message-shutdown e false s
  dispatch_server_message-shutdown e end_of_session s =
      closing (log_message e false s) ∙ log_message-shutdown e false s
    where
      closing : (r : Session F) → (close_socket e r).shutdown ≡ r.shutdown
      closing r = ground arith
  dispatch_server_message-shutdown e m s = log_message-shutdown e false s

  -- From a session that has started with an empty queue, for every message that is not a
  -- heartbeat: there is an order of steps in which the message arrives when the pool has ended
  -- already, after a call of `Stop` has asked for it, and `Stop` returns: all threads have ended, the
  -- socket is gone, nothing has been handled, and the message is alone in the queue.
  pub message_left :
      (s : Session F) (e : Environment) (m : Message F)
      → s.dispatch_queue ≡ []
      → s.shutdown ≡ false
      → deliverable (m ∷ []) ≡ m ∷ []
      → (y : System F) × Reach (started s) y
        × (y.server ≡ over)
        × AllEnded y.pool
        × (y.session.socket ≡ none)
        × (y.handled ≡ [])
        × (y.session.dispatch_queue ≡ m ∷ [])
  unfolding started take_message stop
  message_left s e m empty running plain =
      let x1 = record (started s) { server = receiving } in
      let x2 = record x1 { session = record s { shutdown = true } } in
      let (w, r, all) = pool_ends dispatch_thread_pool_size [] x2 refl tt (nothing empty) refl in
      let stopping = dispatch_server_message-shutdown e m x2.session in
      let x3 = record x2 { pool = w } in
      let x4 = record x3 {
        server = testing;
        session = dispatch_server_message e m x2.session;
        arrived = m ∷ [];
      } in
      let x5 = record x4 { server = over } in
      (
        record x5 { session = stop x5.session },
        next
            (next
              (next (Reach-trans (next (next here (server_test refl running)) stop_requested) r)
                (server_receives e m refl))
              (server_ends refl stopping))
            (stops refl all stopping),
        refl,
        all,
        refl,
        refl,
        dispatch_server_message-queue e m x2.session
            ∙ ap (λ q. q ++ deliverable (m ∷ [])) empty
            ∙ plain,
      )
    where
      nothing : s.dispatch_queue ≡ [] → take_message (record s { shutdown = true }) ≡ none
      nothing q = ground (arith, q)
