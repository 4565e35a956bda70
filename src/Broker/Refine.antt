-- ===== src/Broker/Refine.antt =====
-- order_entry/order-fix/msg_processor.cpp: when a broker of frames stands for a router of messages.
pub mod Incoming
pub mod Keep
pub mod Answer
pub mod Outgoing
pub mod Run
use mathlib.Core.List.{append_assoc, append-nil}
use system_k_dev.Base.{
  ℕ, zero, suc, ◌+◌, ◌≤◌, ◌<◌, ◌^◌, ◌≡◌, ◌⊎◌, inl, inr, refl, sym, ◌∙◌, ap, subst, Bool, true,
  false, Option, none, some, List, [], ◌∷◌, ◌++◌, ◌==◌, length, arith, Bool-cases, Option-cases,
  if◌then◌else◌, ltb, ◌||◌,
}
use system_k_dev.Route.{Bytes, Route, bytes_eq, zmq_addr_len, new_route}
use system_k_dev.Route.Spec.{bytes_eq-true}
use system_k_dev.Route.Cache.{le_bytes, of_le_bytes, length-le_bytes}
use system_k_dev.Broker.Turns.{Turn, done, waits, fails, ◌>>=◌}
use system_k_dev.Broker.Maps.{MapOps, MapLaws, is_id}
use system_k_dev.Broker.{
  Frame, OrderInfo, Broker, order_new, order_cancel, order_replace, strategy_helo, heartbeat,
  strategy_helo_ack, heartbeat_ack, write_pair, size_of_type, deleted_strategy, deleted_order,
  set_id, type_of, recv, return_route, send_nodes, forward, get_route, write_cache,
  snd_heartbeat_ack, snd_strategy_helo_ack, handle_helo, handle_order,
  handle_incoming_client_message, rcv_internal,
}
use system_k_dev.Broker.Frames.{
  one_hop, return_route-one_hop, send_nodes-one_hop, forward-frames_of, type_of-le_bytes,
  set_id-is_id, envelopes-append,
}
use system_k_dev.Broker.Spec.{
  Envelope, StrategyMessage, Request, helo, beat, order, Router, update, helo_ack, beat_ack, answer,
  handle, reply, IsSound, frames_of, envelopes, requests, request_frames,
}

abbrev pub hop : Option Bytes → Option Route
hop none = none
hop (some address) = some (one_hop address)

abbrev pub AllSound : List StrategyMessage → Type 0
AllSound [] = Unit
AllSound (m ∷ ms) = IsSound m × AllSound ms

-- The messages of the queue are for strategies whose ids are not reserved.
abbrev pub AllNamed : List Envelope → Type 0
AllNamed [] = Unit
AllNamed (e ∷ es) = (is_id deleted_strategy e.head ≡ true) × AllNamed es

pub hop-if :
    (c : Bool) (address : Bytes) (o : Option Bytes)
    → hop (if c then some address else o) ≡ (if c then some (one_hop address) else hop o)
hop-if true address o = refl
hop-if false address o = refl

pub sized-if :
    (c : Bool) (address x : Bytes) (o : Option Bytes)
    → length address ≡ zmq_addr_len
    → (o ≡ some x → length x ≡ zmq_addr_len)
    → (if c then some address else o) ≡ some x
    → length x ≡ zmq_addr_len
sized-if true address x o a old e = cc
sized-if false address x o a old e = old e

pub AllNamed-append :
    (es : List Envelope) (e : Envelope)
    → AllNamed es
    → is_id deleted_strategy e.head ≡ true
    → AllNamed (es ++ (e ∷ []))
AllNamed-append [] e h i = (i, tt)
AllNamed-append (x ∷ es) e (h, hs) i = (h, AllNamed-append es e hs i)

module _ {M N : Type 0} (maps : MapOps M Route) (orders : MapOps N OrderInfo)
    (laws : MapLaws maps deleted_strategy) (order_laws : MapLaws orders deleted_order)
    (venue_id : ℕ) where
  -- The broker of frames stands for the router of messages.
  pub record Implements (r : Router) (b : Broker M N) : Type 0 where
    pub venue : b.venue_id ≡ venue_id
    pub legal : laws.legal b.scache ≡ true
    pub legal_orders : order_laws.legal b.ocache ≡ true
    pub routes :
        (sid : Bytes)
        → is_id deleted_strategy sid ≡ true
        → maps.find sid b.scache ≡ hop (r.routes sid)
    pub sized : (sid address : Bytes) → r.routes sid ≡ some address → length address ≡ zmq_addr_len
    pub known :
        (oid : Bytes) → is_id deleted_order oid ≡ true → orders.find oid b.ocache ≡ r.orders oid
    pub inbox : b.strategy_msgs ≡ requests r.inbox
    pub queue : b.inproc ≡ envelopes r.queue
    pub out : b.sent ≡ envelopes r.out
    pub calls : b.dispatched ≡ r.dispatched
    pub sound : AllSound r.inbox
    pub named : AllNamed r.queue

  -- What a handler has done: it ends, and the broker stands for the router after it.
  abbrev pub Ends : Turn (Broker M N) → Router → Type 0
  Ends t r = (b' : Broker M N) × (t ≡ done b') × Implements r b'
