-- ===== src/Broker/Refine/Answer.antt =====
-- order_entry/order-fix/msg_processor.cpp: a message of a strategy is answered as the router does.
use system_k_dev.Base.{
  ℕ, ◌≡◌, refl, sym, ◌∙◌, ap, subst, Bool, true, false, Option, some, List, [], ◌∷◌, ◌++◌, length,
  if◌then◌else◌,
}
use system_k_dev.Route.{Bytes, Route, zmq_addr_len}
use system_k_dev.Broker.Turns.{done}
use system_k_dev.Broker.Maps.{MapOps, MapLaws, is_id}
use system_k_dev.Broker.{
  OrderInfo, Broker, write_pair, deleted_strategy, deleted_order, snd_heartbeat_ack, handle_helo,
  handle_incoming_client_message,
}
use system_k_dev.Broker.Frames.{one_hop}
use system_k_dev.Broker.Spec.{
  StrategyMessage, Request, helo, beat, order, Router, update, helo_ack, beat_ack, answer, IsSound,
  envelopes, requests, request_frames,
}
use system_k_dev.Broker.Refine.{Implements, Ends}
use system_k_dev.Broker.Refine.Incoming.{incoming-helo, incoming-beat, incoming-order}
use system_k_dev.Broker.Refine.Keep.{routed, queued, placed}

module _ {M N : Type 0} (maps : MapOps M Route) (orders : MapOps N OrderInfo)
    (laws : MapLaws maps deleted_strategy) (order_laws : MapLaws orders deleted_order)
    (venue_id : ℕ) where
  -- The file after a hello.
  abbrev pub file_after : (opens : Bool) (m : M) (old : Option Bytes) → Option Bytes
  file_after opens m old = if opens then some (maps.serialize (write_pair maps orders) m) else old

  -- The broker after a hello.
  abbrev pub after_helo : (opens : Bool) (sid address : Bytes) (venue : ℕ) → Broker M N → Broker M N
  after_helo opens sid address venue b = record b {
    scache = maps.insert sid (one_hop address) b.scache;
    strategy_file = file_after opens (maps.insert sid (one_hop address) b.scache) b.strategy_file;
    inproc = b.inproc ++ envelopes (helo_ack venue sid ∷ []);
  }

  handle_helo-eq :
      (opens : Bool) (sid address : Bytes) (b : Broker M N)
      → handle_helo maps orders opens sid (one_hop address) b
        ≡ after_helo opens sid address b.venue_id b
  unfolding handle_helo
  handle_helo-eq true sid address b = refl
  handle_helo-eq false sid address b = refl

  pub after_helo-Implements :
      (opens : Bool) (u : ℕ) (sid address : Bytes) (r : Router) (b : Broker M N)
      → is_id deleted_strategy sid ≡ true
      → length address ≡ zmq_addr_len
      → Implements maps orders laws order_laws venue_id r b
      → Implements maps orders laws order_laws venue_id
          (answer venue_id u helo address sid r)
          (after_helo opens sid address b.venue_id b)
  after_helo-Implements opens u sid address r b i a v =
      let file = file_after opens (maps.insert sid (one_hop address) b.scache) b.strategy_file in
      subst
        (λ n.
          Implements maps orders laws order_laws venue_id (answer venue_id u helo address sid r)
            (after_helo opens sid address n b))
        (sym v.venue)
        (queued maps orders laws order_laws venue_id
          (record r { routes = update sid address r.routes })
          (record b { scache = maps.insert sid (one_hop address) b.scache; strategy_file = file })
          (routed maps orders laws order_laws venue_id r b v sid address file i a)
          (helo_ack venue_id sid) i)

  pub handle-after_helo :
      (opens : Bool) (u : ℕ) (b : Broker M N) (address sid : Bytes) (ms : List StrategyMessage)
      → length address ≡ zmq_addr_len
      → is_id deleted_strategy sid ≡ true
      → b.strategy_msgs ≡ ((address, true) ∷ request_frames helo sid) ++ requests ms
      → handle_incoming_client_message maps orders opens u b
        ≡ done (after_helo opens sid address b.venue_id (record b { strategy_msgs = requests ms }))
  handle-after_helo opens u b address sid ms a i e =
      incoming-helo maps orders laws order_laws venue_id opens u b address sid (requests ms) a i e
      ∙ ap done (handle_helo-eq opens sid address (record b { strategy_msgs = requests ms }))

  pub answer-Implements :
      (opens : Bool) (u : ℕ) (q : Request) (address sid : Bytes) (r : Router) (b : Broker M N)
      (ms : List StrategyMessage)
      → IsSound (record { address = address; sid = sid; request = q })
      → b.strategy_msgs ≡ ((address, true) ∷ request_frames q sid) ++ requests ms
      → Implements maps orders laws order_laws venue_id
          (record r { inbox = ms })
          (record b { strategy_msgs = requests ms })
      → Ends maps orders laws order_laws venue_id
          (handle_incoming_client_message maps orders opens u b)
          (answer venue_id u q address sid (record r { inbox = ms }))
  unfolding snd_heartbeat_ack
  answer-Implements opens u helo address sid r b ms (a, i, s) e v = (
    _,
    handle-after_helo opens u b address sid ms a i e,
    after_helo-Implements opens u sid address (record r { inbox = ms })
        (record b { strategy_msgs = requests ms }) i a v,
  )
  answer-Implements opens u beat address sid r b ms (a, i, s) e v = (
    _,
    incoming-beat maps orders laws order_laws venue_id opens u b address sid (requests ms) a i e,
    queued maps orders laws order_laws venue_id (record r { inbox = ms })
        (record b { strategy_msgs = requests ms }) v (beat_ack sid) i,
  )
  answer-Implements opens u (order type oid payload) address sid r b ms (a, i, (t, j)) e v = (
    _,
    incoming-order maps orders laws order_laws venue_id opens u type b address sid oid payload
        (requests ms) a i t j e,
    placed maps orders laws order_laws venue_id (record r { inbox = ms })
        (record b { strategy_msgs = requests ms }) v u type oid sid payload j,
  )
