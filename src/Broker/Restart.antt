-- ===== src/Broker/Restart.antt =====
-- order_entry/order-fix/msg_processor.cpp and msg_cache.h: a broker that is started again knows the
-- addresses that were written to the file of the strategy cache.
use system_k_dev.Base.{
  ℕ, ◌≡◌, refl, sym, ◌∙◌, ap, subst, true, Option, none, some, List, [], ◌∷◌, ◌++◌, ◌==◌, ==_iff,
  length, replicate, arith, length-append, and-true,
}
use system_k_dev.Route.{Bytes, Route, uuid_len, zmq_addr_len}
use system_k_dev.Route.Cache.{read_strategy-write_strategy}
use system_k_dev.Broker.Turns.{done}
use system_k_dev.Broker.Maps.{MapOps, MapLaws, is_id}
use system_k_dev.Broker.{
  OrderInfo, Broker, deleted_strategy, deleted_order, write_pair, read_pair, new_broker, init,
  handle_incoming_client_message,
}
use system_k_dev.Broker.Frames.{one_hop}
use system_k_dev.Broker.Spec.{StrategyMessage, Router, helo, update, answer, requests}
use system_k_dev.Broker.Refine.{hop, Implements}
use system_k_dev.Broker.Refine.Keep.{taken}
use system_k_dev.Broker.Refine.Answer.{after_helo, handle-after_helo, after_helo-Implements}

-- A router that has just been started, with the addresses that it knows.
abbrev pub just_started : (routes : Bytes → Option Bytes) → Router
just_started routes = record {
  routes = routes;
  orders = λ oid. none;
  inbox = [];
  queue = [];
  out = [];
  dispatched = [];
}

module _ {M N : Type 0} (maps : MapOps M Route) (orders : MapOps N OrderInfo)
    (laws : MapLaws maps deleted_strategy) (order_laws : MapLaws orders deleted_order)
    (venue_id : ℕ) where
  abbrev Stands : Router → Broker M N → Type 0
  Stands = Implements maps orders laws order_laws venue_id

  -- A broker that is made stands for a router that knows no address.
  pub new_broker-Implements :
      (file : Option Bytes)
      → Stands (just_started (λ sid. none)) (new_broker maps orders venue_id file)
  unfolding new_broker
  new_broker-Implements file = record {
    venue = refl;
    legal = laws.legal-new;
    legal_orders = order_laws.legal-new;
    routes = laws.find-new;
    sized = λ sid address e. cc;
    known = order_laws.find-new;
    inbox = refl;
    queue = refl;
    out = refl;
    calls = refl;
    sound = tt;
    named = tt;
  }

  -- A pair of the cache is read back.
  read_pair-write_pair :
      (sid address rest : Bytes)
      → is_id deleted_strategy sid ≡ true
      → length address ≡ zmq_addr_len
      → read_pair maps orders (write_pair maps orders (sid, one_hop address) ++ rest)
        ≡ some ((sid, one_hop address), rest)
  unfolding is_id
  read_pair-write_pair sid address rest i a =
      let size : length sid ≡ uuid_len =
        (==_iff (length sid) uuid_len).0 (and-true (length sid == uuid_len) _ i).0 in
      rw
        (
          read_strategy-write_strategy (record { sid = sid; route = one_hop address }) rest size
              (omega (arith, a, length-append {0} address (replicate 51 0))) (omega arith),
          read_pair,
        )
        refl

  hop-some :
      (o : Option Bytes) (x : Route) → hop o ≡ some x → (a : Bytes) × (o ≡ some a) × (x ≡ one_hop a)
  hop-some none x e = cc
  hop-some (some a) x e = (a, refl, cc)

  -- What `init` makes of the file of a broker that stands for a router.
  init-Implements :
      (r : Router) (b : Broker M N)
      → Stands r b
      → Stands (just_started r.routes) (
          init maps orders (
            new_broker maps orders venue_id
              (some (maps.serialize (write_pair maps orders) b.scache))))
  unfolding init new_broker
  init-Implements r b v =
      let (legal, same) =
        laws.unserialize-serialize (write_pair maps orders) (read_pair maps orders) b.scache
          (maps.new (replicate uuid_len 0) (replicate uuid_len deleted_strategy)) v.legal
          (λ k x rest i found.
            let (address, known, is) = hop-some (r.routes k) x (sym (v.routes k i) ∙ found) in
            subst
              (λ y.
                read_pair maps orders (write_pair maps orders (k, y) ++ rest) ≡ some ((k, y), rest))
              (sym is) (read_pair-write_pair k address rest i (v.sized k address known))) in
      record {
        venue = refl;
        legal = legal;
        legal_orders = order_laws.legal-new;
        routes = λ j h. same j h ∙ v.routes j h;
        sized = v.sized;
        known = order_laws.find-new;
        inbox = refl;
        queue = refl;
        out = refl;
        calls = refl;
        sound = tt;
        named = tt;
      }

  -- A broker that stands for a router handles a hello of a strategy, and the file of the cache can
  -- be opened. A broker that is then started with that file stands for a router that knows every
  -- address which the first one knew, the new one of the strategy included.
  pub helo-init-Implements :
      (u : ℕ) (address sid : Bytes) (ms : List StrategyMessage) (r : Router) (b : Broker M N)
      → r.inbox ≡ record { address = address; sid = sid; request = helo } ∷ ms
      → Stands r b
      → (b' : Broker M N) × (handle_incoming_client_message maps orders true u b ≡ done b')
        × Stands
            (just_started (update sid address r.routes))
            (init maps orders (new_broker maps orders venue_id b'.strategy_file))
  helo-init-Implements u address sid ms r b e v =
      let m : StrategyMessage = record { address = address; sid = sid; request = helo } in
      let (w, (a, i, s)) = taken maps orders laws order_laws venue_id r b v m ms e in
      let b1 = record b { strategy_msgs = requests ms } in
      let r1 = record r { inbox = ms } in
      (
        after_helo maps orders laws order_laws venue_id true sid address b.venue_id b1,
        handle-after_helo maps orders laws order_laws venue_id true u b address sid ms a i
            (v.inbox ∙ ap requests e),
        init-Implements (answer venue_id u helo address sid r1)
            (after_helo maps orders laws order_laws venue_id true sid address b.venue_id b1)
            (after_helo-Implements maps orders laws order_laws venue_id true u sid address r1 b1 i a
              w),
      )
