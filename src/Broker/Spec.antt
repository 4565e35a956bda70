-- ===== src/Broker/Spec.antt =====
-- order_entry/order-fix/msg_processor.cpp: what the broker promises, on whole messages. It keeps the
-- address that each strategy last said hello from, and sends the messages for a strategy there, in
-- the order in which they come.
use system_k_dev.Base.{
  ℕ, ◌≡◌, ◌⊎◌, Bool, true, false, Option, none, some, List, [], ◌∷◌, ◌++◌, length, if◌then◌else◌,
}
use system_k_dev.Route.{Bytes, bytes_eq, zmq_addr_len}
use system_k_dev.Route.Cache.{le_bytes}
use system_k_dev.Broker.Maps.{is_id}
use system_k_dev.Broker.{
  Frame, OrderInfo, order_new, order_cancel, order_replace, strategy_helo, strategy_helo_ack,
  heartbeat, heartbeat_ack, size_of_type, deleted_strategy, deleted_order,
}

-- A message: its head, which is an address or a strategy, and the frames after it, of which there
-- is one at least.
pub record Envelope : Type 0 where
  pub head : Bytes
  pub first : Bytes
  pub others : List Bytes

pub data Request : Type 0 where
  helo beat : Request
  order : (type : ℕ) (oid payload : Bytes) → Request

-- What a strategy sends, from its address.
pub record StrategyMessage : Type 0 where
  pub address : Bytes
  pub sid : Bytes
  pub request : Request

-- `inbox` are the messages of the strategies that were not handled, `queue` those for them that
-- were not sent, with the strategy as their head, and `out` those sent, with its address.
pub record Router : Type 0 where
  pub routes : Bytes → Option Bytes
  pub orders : Bytes → Option OrderInfo
  pub inbox : List StrategyMessage
  pub queue : List Envelope
  pub out : List Envelope
  pub dispatched : List (ℕ × Bytes)

abbrev pub update {ℓ} : {V : Type ℓ} → Bytes → V → (Bytes → Option V) → Bytes → Option V
update k v f j = if bytes_eq k j then some v else f j

-- The answers to a strategy.
abbrev pub helo_ack : (venue_id : ℕ) (sid : Bytes) → Envelope
helo_ack venue_id sid = record {
  head = sid;
  first = le_bytes size_of_type strategy_helo_ack;
  others = le_bytes size_of_type venue_id ∷ [];
}

abbrev pub beat_ack : (sid : Bytes) → Envelope
beat_ack sid = record { head = sid; first = le_bytes size_of_type heartbeat_ack; others = [] }

-- A request of the strategy `sid` at `address`.
abbrev pub answer : (venue_id unset_status : ℕ) → Request → (address sid : Bytes) → Router → Router
answer venue_id unset_status helo address sid r = record r {
  routes = update sid address r.routes;
  queue = r.queue ++ (helo_ack venue_id sid ∷ []);
}
answer venue_id unset_status beat address sid r = record r {
  queue = r.queue ++ (beat_ack sid ∷ []);
}
answer venue_id unset_status (order type oid payload) address sid r = record r {
  orders = update oid (record { oid = oid; sid = sid; status = unset_status }) r.orders;
  dispatched = r.dispatched ++ ((type, payload) ∷ []);
}

-- The first message of the inbox is handled.
abbrev pub handle : (venue_id unset_status : ℕ) → List StrategyMessage → Router → Router
handle venue_id unset_status [] r = r
handle venue_id unset_status (m ∷ ms) r =
    answer venue_id unset_status m.request m.address m.sid (record r { inbox = ms })

-- A message is sent to an address. `none`: its strategy never said hello.
abbrev pub send_to : Option Bytes → Envelope → List Envelope → Router → Option Router
send_to none e es r = none
send_to (some address) e es r =
    some (record r { queue = es; out = r.out ++ (record e { head = address } ∷ []) })

-- The first message of the queue is sent.
abbrev pub reply : List Envelope → Router → Option Router
reply [] r = some r
reply (e ∷ es) r = send_to (r.routes e.head) e es r

-- A message is sent if there was one in the queue `before`.
abbrev pub reply_if : (before : List Envelope) → Router → Option Router
reply_if [] r = some r
reply_if (e ∷ es) r = reply r.queue r

-- A round: what has come, then one message of each side, if there was one.
abbrev pub turn :
    (venue_id unset_status : ℕ) (new : List StrategyMessage) (queued : List Envelope)
    → Router
    → Option Router
turn venue_id unset_status new queued r =
    let r1 = record r { inbox = r.inbox ++ new; queue = r.queue ++ queued } in
    let r2 = handle venue_id unset_status r1.inbox r1 in reply_if r1.queue r2

-- The messages that are handled as they are meant: the address has the size of a node, and the ids
-- are none of the reserved keys.
abbrev pub IsSound : StrategyMessage → Type 0
IsSound m =
    (length m.address ≡ zmq_addr_len) × (is_id deleted_strategy m.sid ≡ true) × IsRequest m.request
  where
    IsRequest : Request → Type 0
    IsRequest helo = Unit
    IsRequest beat = Unit
    IsRequest (order type oid payload) =
        ((type ≡ order_new) ⊎ ((type ≡ order_cancel) ⊎ (type ≡ order_replace)))
        × (is_id deleted_order oid ≡ true)

-- The frames of a message.
abbrev pub frames_of : Bytes → List Bytes → List Frame
frames_of x [] = (x, false) ∷ []
frames_of x (y ∷ ys) = (x, true) ∷ frames_of y ys

abbrev pub envelopes : List Envelope → List Frame
envelopes [] = []
envelopes (e ∷ es) = ((e.head, true) ∷ frames_of e.first e.others) ++ envelopes es

abbrev pub request_frames : Request → (sid : Bytes) → List Frame
request_frames helo sid = (le_bytes size_of_type strategy_helo, true) ∷ ((sid, false) ∷ [])
request_frames beat sid = (le_bytes size_of_type heartbeat, true) ∷ ((sid, false) ∷ [])
request_frames (order type oid payload) sid =
    (le_bytes size_of_type type, true) ∷ ((sid, true) ∷ ((oid, true) ∷ ((payload, false) ∷ [])))

abbrev pub requests : List StrategyMessage → List Frame
requests [] = []
requests (m ∷ ms) = ((m.address, true) ∷ request_frames m.request m.sid) ++ requests ms

-- A round: does the file of the cache open, what is the status of a new order, and what has come?
abbrev pub Round : Type 0
Round = Bool × ℕ × List StrategyMessage × List Envelope

-- The turns of the router, one after the other.
abbrev pub turns : (venue_id : ℕ) → List Round → Router → Option Router
turns venue_id [] r = some r
turns venue_id ((opens, u, ms, es) ∷ rounds) r = elim (turn venue_id u ms es r) [
  | none ↦ none
  | some r' ↦ turns venue_id rounds r'
]
