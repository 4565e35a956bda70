-- ===== src/Broker/Tests.antt =====
-- Two strategies at a broker whose caches are lists of pairs.
use system_k_dev.Base.{◌≡◌, refl, true, false, none, some, List, [], ◌∷◌, ◌++◌, replicate, inl}
use system_k_dev.Route.{Bytes, Route, add_node, copy_to, get_node, copy_from, bytes_eq}
use system_k_dev.Route.Cache.{write_strategy, le_bytes, of_le_bytes}
use system_k_dev.Broker.Turns.{done, fails}
use system_k_dev.Broker.Maps.{MapOps, MapLaws, is_id}
use system_k_dev.Broker.Assoc.{Assoc, assoc, assoc-laws}
use system_k_dev.Broker.{
  OrderInfo, Broker, deleted_strategy, deleted_order, new_broker, init, run, arrive,
  handle_incoming_client_message, set_id, type_of, return_route, send_nodes, forward,
}
use system_k_dev.Broker.Spec.{
  Envelope, StrategyMessage, helo, order, Router, update, Round, turns, requests,
}
use system_k_dev.Broker.Refine.{Implements}
use system_k_dev.Broker.Refine.Run.{arrive-Implements, polls, Finishes, run-Finishes}
use system_k_dev.Broker.Restart.{just_started, new_broker-Implements, helo-init-Implements}

abbrev routes : MapOps (Assoc Route) Route
routes = assoc

abbrev order_map : MapOps (Assoc OrderInfo) OrderInfo
order_map = assoc

abbrev route_laws : MapLaws routes deleted_strategy
route_laws = assoc-laws deleted_strategy

abbrev order_laws : MapLaws order_map deleted_order
order_laws = assoc-laws deleted_order

abbrev fresh : Broker (Assoc Route) (Assoc OrderInfo)
fresh = new_broker routes order_map 7 none

abbrev address : Bytes
address = replicate 17 5

abbrev sid : Bytes
sid = replicate 16 3

abbrev oid : Bytes
oid = replicate 16 9

abbrev hello : StrategyMessage
hello = record { address = address; sid = sid; request = helo }

abbrev buy : StrategyMessage
buy = record { address = address; sid = sid; request = order 1 oid (66 ∷ 85 ∷ []) }

-- A report for the strategy.
abbrev report : Envelope
report = record { head = sid; first = 176 ∷ 0 ∷ 0 ∷ 0 ∷ []; others = (1 ∷ []) ∷ [] }

-- A hello, then an order, then a report while nothing comes from the strategy.
abbrev rounds : List Round
rounds = (true, 0, hello ∷ [], []) ∷ ((true, 4, buy ∷ [], report ∷ []) ∷ ((true, 0, [], []) ∷ []))

abbrev nobody : Router
nobody = just_started (λ s. none)

-- The first report finds no address.
abbrev orphaned : List Round
orphaned = (true, 0, [], report ∷ []) ∷ []

all_answered :
    run routes order_map (polls rounds) fresh
    ≡ done (
      0,
      record fresh {
        scache = (sid, record { num_nodes = 1; nodes = address ++ replicate 51 0 }) ∷ [];
        ocache = (oid, record { oid = oid; sid = sid; status = 4 }) ∷ [];
        strategy_file = some (1 ∷ sid ++ ((1 ∷ replicate 7 0) ++ (address ++ replicate 51 0)));
        sent =
            (address, true)
            ∷ ((241 ∷ 0 ∷ 0 ∷ 0 ∷ [], true)
                ∷ ((7 ∷ 0 ∷ 0 ∷ 0 ∷ [], false)
                    ∷ ((address, true) ∷ ((176 ∷ 0 ∷ 0 ∷ 0 ∷ [], true) ∷ ((1 ∷ [], false) ∷ [])))));
        dispatched = (1, 66 ∷ 85 ∷ []) ∷ [];
      },
    )
unfolding run new_broker add_node bytes_eq le_bytes of_le_bytes type_of set_id write_strategy
    get_node copy_from copy_to return_route send_nodes forward
all_answered = refl

no_address : run routes order_map (polls orphaned) fresh ≡ fails
unfolding run new_broker le_bytes set_id
no_address = refl

-- A heartbeat with one frame too many: the frame is taken for the address of the next message.
extra_frame :
    handle_incoming_client_message routes order_map true 0 (
      arrive routes order_map
        ((address, true) ∷ ((160 ∷ 0 ∷ 0 ∷ 0 ∷ [], true) ∷ ((sid, true) ∷ ((1 ∷ [], false) ∷ []))))
        []
        fresh)
    ≡ done (record fresh {
      strategy_msgs = (1 ∷ [], false) ∷ [];
      inproc = (sid, true) ∷ ((161 ∷ 0 ∷ 0 ∷ 0 ∷ [], false) ∷ []);
    })
unfolding handle_incoming_client_message arrive new_broker add_node le_bytes of_le_bytes type_of
    set_id copy_to return_route
extra_frame = refl

run-Finishes_example :
    Finishes routes order_map route_laws order_laws 7
      (run routes order_map (polls rounds) fresh)
      (turns 7 rounds nobody)
unfolding is_id bytes_eq
run-Finishes_example =
    run-Finishes routes order_map route_laws order_laws 7 rounds nobody fresh
      ((
        ((refl, refl, tt), tt),
        tt,
        (((refl, refl, (inl refl, refl)), tt), (refl, tt), (tt, tt, tt)),
      ))
      (new_broker-Implements routes order_map route_laws order_laws 7 none)

abbrev greeted : Broker (Assoc Route) (Assoc OrderInfo)
greeted = arrive routes order_map (requests (hello ∷ [])) [] fresh

helo-init-Implements_example :
    (b' : Broker (Assoc Route) (Assoc OrderInfo)) × (handle_incoming_client_message routes order_map
        true 0 greeted
      ≡ done b')
    × Implements routes order_map route_laws order_laws 7
        (just_started (update sid address (λ s. none)))
        (init routes order_map (new_broker routes order_map 7 b'.strategy_file))
unfolding is_id bytes_eq
helo-init-Implements_example =
    helo-init-Implements routes order_map route_laws order_laws 7 0 address sid []
      (record nobody { inbox = hello ∷ [] }) greeted refl
      (arrive-Implements routes order_map route_laws order_laws 7 nobody fresh (hello ∷ []) []
        ((refl, refl, tt), tt) tt
        (new_broker-Implements routes order_map route_laws order_laws 7 none))

-- A type of one byte, and two frames after it.
abbrev too_short : Broker (Assoc Route) (Assoc OrderInfo)
too_short =
    arrive routes order_map
      ((address, true) ∷ ((160 ∷ [], true) ∷ ((sid, true) ∷ ((1 ∷ [], false) ∷ [])))) [] fresh
