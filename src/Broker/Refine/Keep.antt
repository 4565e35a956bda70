-- ===== src/Broker/Refine/Keep.antt =====
-- order_entry/order-fix/msg_processor.cpp: the parts of the handlers keep the broker and the router
-- together.
use system_k_dev.Base.{
  ℕ, ◌≡◌, refl, sym, ◌∙◌, ap, subst, true, Option, some, List, [], ◌∷◌, ◌++◌, length, if◌then◌else◌,
}
use system_k_dev.Route.{Bytes, Route, bytes_eq, zmq_addr_len}
use system_k_dev.Broker.Maps.{MapOps, MapLaws, is_id}
use system_k_dev.Broker.{OrderInfo, Broker, deleted_strategy, deleted_order}
use system_k_dev.Broker.Frames.{one_hop, envelopes-append}
use system_k_dev.Broker.Spec.{
  Envelope, StrategyMessage, Router, update, IsSound, envelopes, requests,
}
use system_k_dev.Broker.Refine.{hop-if, sized-if, AllSound, AllNamed-append}
use system_k_dev.Broker.Refine.{Implements}
use system_k_dev.Broker.Refine.Incoming.{ordered}

module _ {M N : Type 0} (maps : MapOps M Route) (orders : MapOps N OrderInfo)
    (laws : MapLaws maps deleted_strategy) (order_laws : MapLaws orders deleted_order)
    (venue_id : ℕ) where
  module _ (r : Router) (b : Broker M N)
      (v : Implements maps orders laws order_laws venue_id r b) where
    -- The first message is taken from the inbox.
    pub taken :
        (m : StrategyMessage) (ms : List StrategyMessage)
        → r.inbox ≡ m ∷ ms
        → Implements maps orders laws order_laws venue_id
            (record r { inbox = ms })
            (record b { strategy_msgs = requests ms })
          × IsSound m
    taken m ms e =
        let (first, rest) = subst AllSound e v.sound in
        (
          record {
            venue = v.venue;
            legal = v.legal;
            legal_orders = v.legal_orders;
            routes = v.routes;
            sized = v.sized;
            known = v.known;
            inbox = refl;
            queue = v.queue;
            out = v.out;
            calls = v.calls;
            sound = rest;
            named = v.named;
          },
          first,
        )

    -- A route is added, for a strategy and an address.
    pub routed :
        (sid address : Bytes) (file : Option Bytes)
        → is_id deleted_strategy sid ≡ true
        → length address ≡ zmq_addr_len
        → Implements maps orders laws order_laws venue_id
            (record r { routes = update sid address r.routes })
            (record b { scache = maps.insert sid (one_hop address) b.scache; strategy_file = file })
    routed sid address file i a = record {
      venue = v.venue;
      legal = laws.legal-insert sid (one_hop address) b.scache v.legal i;
      legal_orders = v.legal_orders;
      routes = λ j h.
          laws.find-insert sid j (one_hop address) b.scache v.legal i h
          ∙ ap (λ o. if bytes_eq sid j then some (one_hop address) else o) (v.routes j h)
          ∙ sym (hop-if (bytes_eq sid j) address (r.routes j));
      sized = λ j x h. sized-if (bytes_eq sid j) address x (r.routes j) a (v.sized j x) h;
      known = v.known;
      inbox = v.inbox;
      queue = v.queue;
      out = v.out;
      calls = v.calls;
      sound = v.sound;
      named = v.named;
    }

    -- A message comes to the end of the queue.
    pub queued :
        (e : Envelope)
        → is_id deleted_strategy e.head ≡ true
        → Implements maps orders laws order_laws venue_id
            (record r { queue = r.queue ++ (e ∷ []) })
            (record b { inproc = b.inproc ++ envelopes (e ∷ []) })
    queued e i = record {
      venue = v.venue;
      legal = v.legal;
      legal_orders = v.legal_orders;
      routes = v.routes;
      sized = v.sized;
      known = v.known;
      inbox = v.inbox;
      queue = ap (λ x. x ++ envelopes (e ∷ [])) v.queue ∙ sym (envelopes-append r.queue (e ∷ []));
      out = v.out;
      calls = v.calls;
      sound = v.sound;
      named = AllNamed-append r.queue e v.named i;
    }

    -- An order is kept and dispatched.
    pub placed :
        (u type : ℕ) (oid sid payload : Bytes)
        → is_id deleted_order oid ≡ true
        → Implements maps orders laws order_laws venue_id
            (record r {
              orders = update oid (record { oid = oid; sid = sid; status = u }) r.orders;
              dispatched = r.dispatched ++ ((type, payload) ∷ []);
            })
            (ordered maps orders laws order_laws venue_id u type oid sid payload b.strategy_msgs b)
    placed u type oid sid payload i = record {
      venue = v.venue;
      legal = v.legal;
      legal_orders = order_laws.legal-insert oid _ b.ocache v.legal_orders i;
      routes = v.routes;
      sized = v.sized;
      known = λ j h.
          order_laws.find-insert oid j (record { oid = oid; sid = sid; status = u }) b.ocache
            v.legal_orders i h
          ∙ ap
              (λ o.
                if bytes_eq oid j then some (record { oid = oid; sid = sid; status = u }) else o)
              (v.known j h);
      inbox = v.inbox;
      queue = v.queue;
      out = v.out;
      calls = ap (λ x. x ++ ((type, payload) ∷ [])) v.calls;
      sound = v.sound;
      named = v.named;
    }
