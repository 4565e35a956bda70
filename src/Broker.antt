-- ===== src/Broker.antt =====
-- order_entry/order-fix/msg_processor.cpp: the broker between the strategies and the interface to a
-- venue, with the caches of msg_cache.h. The hash map, its file and zeromq are parameters: a
-- socket is the frames that have come to it, or that were sent on it.
pub mod Turns
pub mod Maps
pub mod Spec
pub mod Frames
pub mod Refine
pub mod Restart
pub mod Short
pub mod Assoc
mod Tests
use system_k_dev.Base.{
  ℕ, zero, suc, ◌+◌, Bool, true, false, not, ◌&&◌, ◌||◌, Option, none, some, List, [], ◌∷◌, ◌++◌,
  ◌==◌, ltb, if◌then◌else◌, length, take, replicate,
}
use system_k_dev.Base.Int.{ℤ, pos, negsuc}
use system_k_dev.Route.{Bytes, Route, uuid_len, new_route, add_node, get_node, bytes_eq}
use system_k_dev.Route.Cache.{StrategyEntry, write_strategy, read_strategy, le_bytes, of_le_bytes}
use Turns.{Turn, done, waits, fails, ◌>>=◌}
use Maps.{MapOps}

-- A frame, and the ZMQ_RCVMORE after it.
abbrev pub Frame : Type 0
Frame = Bytes × Bool

abbrev pub order_new : ℕ
order_new = 1

abbrev pub order_cancel : ℕ
order_cancel = 2

abbrev pub order_replace : ℕ
order_replace = 3

abbrev pub strategy_helo : ℕ
strategy_helo = 240

abbrev pub strategy_helo_ack : ℕ
strategy_helo_ack = 241

abbrev pub heartbeat : ℕ
heartbeat = 160

abbrev pub heartbeat_ack : ℕ
heartbeat_ack = 161

-- The sizes of msg_t and of venue_id_t.
abbrev pub size_of_type : ℕ
size_of_type = 4

-- The character that the deleted keys of the caches are made of.
abbrev pub deleted_strategy : ℕ
deleted_strategy = 50

abbrev pub deleted_order : ℕ
deleted_order = 49

pub record OrderInfo : Type 0 where
  pub oid : Bytes
  pub sid : Bytes
  pub status : ℕ

-- `strategy_msgs` and `inproc` are the frames that have come to the two sockets and were not
-- received, `sent` those sent to the strategies, `dispatched` the calls of the interface.
-- `strategy_file` is the file of the strategy cache, where there is one.
pub record Broker (M N : Type 0) : Type 0 where
  pub venue_id : ℕ
  pub scache : M
  pub ocache : N
  pub strategy_file : Option Bytes
  pub strategy_msgs : List Frame
  pub inproc : List Frame
  pub sent : List Frame
  pub dispatched : List (ℕ × Bytes)

-- An id that is `set` from a frame: one of another length leaves it zero.
unfoldable pub set_id : Bytes → Bytes
set_id frame = if length frame == uuid_len then frame else replicate uuid_len 0

-- The uint32_t that is read from a frame.
unfoldable pub type_of : Bytes → ℕ
type_of frame = of_le_bytes (take size_of_type frame)

abbrev pub recv : List Frame → Turn (Frame × List Frame)
recv [] = waits
recv (f ∷ fs) = done (f, fs)

-- The frames up to the end of the message, dropped.
unfoldable pub drain : (more : Bool) → List Frame → Turn (List Frame)
drain false fs = done fs
drain true [] = waits
drain true ((frame, more) ∷ fs) = drain more fs

-- The route of one hop back to the sender, where `addNode` returns 0.
unfoldable pub return_route : (header : Bytes) → Turn Route
return_route header = elim (add_node (some header) new_route) [
  | none ↦ fails
  | some (pos zero, r) ↦ done r
  | some (pos (suc n), r) ↦ fails
  | some (negsuc n, r) ↦ fails
]

-- The addresses of a route from `i` on, `n` of them, as frames.
unfoldable pub send_nodes : (i n : ℕ) → Route → Turn (List Frame)
send_nodes i zero r = done []
send_nodes i (suc n) r = do
  rest ← send_nodes (suc i) n r
  elim (get_node i r) [
    | none ↦ fails
    | some (pos zero, addr) ↦ done ((addr, true) ∷ rest)
    | some (pos (suc k), addr) ↦ fails
    | some (negsuc k, addr) ↦ fails
  ]

-- The frames of a message, and those behind it.
unfoldable pub forward : List Frame → Turn (List Frame × List Frame)
forward [] = waits
forward ((frame, false) ∷ fs) = done ((frame, false) ∷ [], fs)
forward ((frame, true) ∷ fs) = do (out, rest) ← forward fs; done ((frame, true) ∷ out, rest)

-- What comes to pass at a call of poll: a signal, an error, or new frames. `opens` is for the
-- file that the round may write, `unset_status` for the order that it may make.
pub data Poll : Type 0 where
  interrupted : Poll
  error : ℕ → Poll
  ready : (opens : Bool) (unset_status : ℕ) (strategy_msgs inproc : List Frame) → Poll
  stopped : Poll

abbrev pub is_ready : List Frame → Bool
is_ready [] = false
is_ready (f ∷ fs) = true

module _ {M N : Type 0} (maps : MapOps M Route) (orders : MapOps N OrderInfo) where
  -- The serialisers take pairs.
  abbrev pub write_pair : Bytes × Route → Bytes
  write_pair p = write_strategy (record { sid = p.0; route = p.1 })

  abbrev pub read_pair : Bytes → Option ((Bytes × Route) × Bytes)
  read_pair file = elim (read_strategy file) [
    | none ↦ none
    | some (e, rest) ↦ some ((e.sid, e.route), rest)
  ]

  -- `file` is what the file of the strategy cache has, if it is there.
  unfoldable pub new_broker : (venue_id : ℕ) (file : Option Bytes) → Broker M N
  new_broker venue_id file = record {
    venue_id = venue_id;
    scache = maps.new (replicate uuid_len 0) (replicate uuid_len deleted_strategy);
    ocache = orders.new (replicate uuid_len 0) (replicate uuid_len deleted_order);
    strategy_file = file;
    strategy_msgs = [];
    inproc = [];
    sent = [];
    dispatched = [];
  }

  unfoldable pub get_route : (sid : Bytes) → M → Route
  get_route sid m = elim (maps.find sid m) [ none ↦ new_route | some r ↦ r ]

  -- `opens`: does fopen succeed?
  unfoldable pub write_cache : (opens : Bool) → Broker M N → Broker M N
  write_cache opens b =
      if opens then record b { strategy_file = some (maps.serialize write_pair b.scache) } else b

  -- The admin socket sends to the inproc socket.
  unfoldable pub snd_heartbeat_ack : (sid : Bytes) → Broker M N → Broker M N
  snd_heartbeat_ack sid b = record b {
    inproc = b.inproc ++ ((sid, true) ∷ ((le_bytes size_of_type heartbeat_ack, false) ∷ []));
  }

  unfoldable pub snd_strategy_helo_ack : (sid : Bytes) → Broker M N → Broker M N
  snd_strategy_helo_ack sid b = record b {
    inproc =
        b.inproc
        ++ ((sid, true)
            ∷ ((le_bytes size_of_type strategy_helo_ack, true)
                ∷ ((le_bytes size_of_type b.venue_id, false) ∷ [])));
  }

  unfoldable pub handle_helo : (opens : Bool) (sid : Bytes) (r : Route) → Broker M N → Broker M N
  unfolding write_cache snd_strategy_helo_ack
  handle_helo opens sid r b =
      snd_strategy_helo_ack sid
        (write_cache opens (record b { scache = maps.insert sid r b.scache }))

  -- `unset_status` is what the status of a new OrderInfo happens to be.
  unfoldable pub handle_order :
      (unset_status type : ℕ) (sid : Bytes) → Broker M N → Turn (Broker M N)
  handle_order unset_status type sid b =
      if (type == order_new) || ((type == order_cancel) || (type == order_replace))
      then (do
        (oidframe, fs) ← recv b.strategy_msgs
        (payload, fs) ← recv fs
        let oid = set_id oidframe.0
        if payload.1
            then fails
            else done (record b {
              strategy_msgs = fs;
              ocache =
                  orders.insert oid (record { oid = oid; sid = sid; status = unset_status })
                    b.ocache;
              dispatched = b.dispatched ++ ((type, payload.0) ∷ []);
            }))
      else fails

  unfoldable pub handle_incoming_client_message :
      (opens : Bool) (unset_status : ℕ) → Broker M N → Turn (Broker M N)
  unfolding handle_helo handle_order snd_heartbeat_ack
  handle_incoming_client_message opens unset_status b = do
    (header, fs) ← recv b.strategy_msgs
    r ← return_route header.0
    (msg_type, fs) ← recv fs
    (sidframe, fs) ← recv fs
    let sid = set_id sidframe.0
    let type = type_of msg_type.0
    let b' = record b { strategy_msgs = fs }
    if ltb (length msg_type.0) size_of_type
        then (do rest ← drain sidframe.1 fs; done (record b { strategy_msgs = rest }))
        else if type == strategy_helo
        then done (handle_helo opens sid r b')
        else if type == heartbeat
        then done (snd_heartbeat_ack sid b')
        else handle_order unset_status type sid b'

  unfoldable pub rcv_internal : Broker M N → Turn (Broker M N)
  unfolding get_route
  rcv_internal b = do
    (sidframe, fs) ← recv b.inproc
    let r = get_route (set_id sidframe.0) b.scache
    if r.num_nodes == 0 then fails else (do
      nodes ← send_nodes 0 r.num_nodes r
      (out, rest) ← forward fs
      done (record b { inproc = rest; sent = b.sent ++ (nodes ++ out) }))

  -- The cache as it was written, where the file can be opened.
  unfoldable pub init : Broker M N → Broker M N
  init b = elim b.strategy_file [
    | none ↦ b
    | some file ↦ record b { scache = (maps.unserialize read_pair file b.scache).1 }
  ]

  unfoldable pub arrive : (strategy_msgs inproc : List Frame) → Broker M N → Broker M N
  arrive fs gs b = record b { strategy_msgs = b.strategy_msgs ++ fs; inproc = b.inproc ++ gs }

  -- The handlers of a round; `revents` of both sockets are set by the call of poll.
  unfoldable pub poll_round : (opens : Bool) (unset_status : ℕ) → Broker M N → Turn (Broker M N)
  unfolding handle_incoming_client_message rcv_internal
  poll_round opens unset_status b = do
    b1 ←
        (if is_ready b.strategy_msgs
          then handle_incoming_client_message opens unset_status b
          else done b)
    if is_ready b.inproc then rcv_internal b1 else done b1

  -- The result is the code that `run` returns. A request to stop is seen at the test of the loop.
  unfoldable pub run : List Poll → Broker M N → Turn (ℕ × Broker M N)
  unfolding arrive poll_round
  run [] b = waits
  run (stopped ∷ ps) b = done (0, b)
  run (interrupted ∷ ps) b = run ps b
  run (error errno ∷ ps) b = done (errno, b)
  run (ready opens unset_status fs gs ∷ ps) b = do
    b' ← poll_round opens unset_status (arrive fs gs b)
    run ps b'
