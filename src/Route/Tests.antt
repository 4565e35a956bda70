-- ===== src/Route/Tests.antt =====
-- Routes and cache entries with concrete addresses.
use system_k_dev.Base.{◌<◌, ◌≤◌, ◌≡◌, ◌↔◌, refl, true, some, [], ◌∷◌, ◌++◌, arith, replicate}
use system_k_dev.Base.Int.{ℤ, pos, negsuc}
use system_k_dev.Route.{Bytes, Route, new_route, add_node, get_node, route_eq, zmq_max_msg_hops}
use system_k_dev.Route.Spec.{IsValid, addresses, add_node-addresses, route_eq-addresses}
use system_k_dev.Route.Cache.{
  StrategyEntry, OrderEntry, write_strategy, read_strategy, read_strategy-write_strategy,
}

abbrev sevens : Bytes
sevens = replicate 17 7

abbrev one : Route
one = record { num_nodes = 1; nodes = replicate 17 7 ++ replicate 51 0 }

new_route-IsValid : IsValid new_route
new_route-IsValid = record { at_most = omega arith; sized = refl }

one_added : add_node (some sevens) new_route ≡ some (pos 0, one)
unfolding add_node
one_added = refl

empty_found : get_node 3 new_route ≡ some (pos 0, replicate 17 0)
unfolding get_node
empty_found = refl

add_node-addresses_example :
    (code : ℤ) × (r' : Route) × (add_node (some sevens) new_route ≡ some (code, r'))
    × IsValid r'
    × (0 < zmq_max_msg_hops
        → (code ≡ pos 0) × (addresses r' ≡ addresses new_route ++ (sevens ∷ [])))
    × (zmq_max_msg_hops ≤ 0 → (code ≡ negsuc 1) × (r' ≡ new_route))
add_node-addresses_example = add_node-addresses sevens new_route new_route-IsValid refl

route_eq-addresses_example : (route_eq one new_route ≡ true) ↔ (addresses one ≡ addresses new_route)
route_eq-addresses_example = route_eq-addresses one new_route

one-IsValid : IsValid one
one-IsValid = record { at_most = omega arith; sized = refl }

abbrev entry : StrategyEntry
entry = record { sid = replicate 16 3; route = one }

abbrev order : OrderEntry
order = record { key = replicate 16 1; oid = replicate 16 1; sid = replicate 16 3; status = 258 }

read_strategy-write_strategy_example :
    read_strategy (write_strategy entry ++ (9 ∷ [])) ≡ some (entry, 9 ∷ [])
read_strategy-write_strategy_example =
    read_strategy-write_strategy entry (9 ∷ []) refl refl (omega arith)
