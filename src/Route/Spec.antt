-- ===== src/Route/Spec.antt =====
-- common/src/c++/utils/types.h: a route is a list of at most four addresses.
use native.Mathlib.Nat.{zero-add}
use system_k_dev.Base.{
  ℕ, zero, suc, ◌+◌, ◌-◌, ◌≤◌, ◌<◌, ◌≡◌, ◌↔◌, refl, sym, ◌∙◌, ap, ap₂, subst, true, some, List, [],
  ◌∷◌, ◌++◌, ◌==◌, ==_iff, leb, length, take, drop, arith, length-append, length-take, length-drop,
  take-append, and-true, true-and, length-tabulate, tabulate, get_or, get_or-tabulate,
  take-tabulate, drop-take-append, take-drop-take, tabulate-append, tabulate-eq, Bool-cases, inl,
  inr,
}
use system_k_dev.Base.Int.{ℤ, pos, negsuc}
use system_k_dev.Route.{
  Bytes, Route, zmq_addr_len, zmq_max_msg_hops, nodes_size, offset, bytes_eq, copy_to, copy_from,
  add_node, get_node, del_node, same_nodes, route_eq,
}

pub record IsValid (r : Route) : Type 0 where
  pub at_most : r.num_nodes ≤ zmq_max_msg_hops
  pub sized : length r.nodes ≡ nodes_size

-- The address at an index.
abbrev pub node_at : Bytes → ℕ → Bytes
node_at b i = take zmq_addr_len (drop (offset i) b)

-- The list that a route stands for.
abbrev pub addresses : Route → List Bytes
addresses r = tabulate (node_at r.nodes) 0 r.num_nodes

-- The bytes after a copy.
abbrev copied : ℕ → Bytes → Bytes → Bytes
copied at x b = take at b ++ (x ++ drop (at + length x) b)

length-copied :
    (at : ℕ) (x b : Bytes) → at + length x ≤ length b → length (copied at x b) ≡ length b
length-copied at x b h = omega (
  arith,
  length-append {0} (take at b) (x ++ drop (at + length x) b),
  length-append {0} x (drop (at + length x) b),
  length-take {0} at b,
  length-drop {0} (at + length x) b,
)

copied-at :
    (at : ℕ) (x b : Bytes)
    → at ≤ length b
    → length x ≡ zmq_addr_len
    → take zmq_addr_len (drop at (copied at x b)) ≡ x
copied-at at x b h e =
    ap (λ y. take zmq_addr_len y) (drop-take-append at b (x ++ drop (at + length x) b) h)
    ∙ ap (λ n. take n (x ++ drop (at + length x) b)) (sym e)
    ∙ take-append x (drop (at + length x) b)

-- Adding an address of the right length to a route with room for it.
added : Bytes → Route → Route
added addr r = record {
  num_nodes = r.num_nodes + 1;
  nodes = copied (offset r.num_nodes) addr r.nodes;
}

module _ (addr : Bytes) (r : Route) (v : IsValid r) (e : length addr ≡ zmq_addr_len) where
  in_room : r.num_nodes < zmq_max_msg_hops → offset r.num_nodes + length addr ≤ length r.nodes
  in_room room = omega (arith, v.sized)

  add_node-added :
      r.num_nodes < zmq_max_msg_hops → add_node (some addr) r ≡ some (pos 0, added addr r)
  unfolding add_node copy_to added
  add_node-added room = ground (arith, in_room room, e)

  added-IsValid : r.num_nodes < zmq_max_msg_hops → IsValid (added addr r)
  unfolding added
  added-IsValid room = record {
    at_most = omega arith;
    sized = length-copied (offset r.num_nodes) addr r.nodes (in_room room) ∙ v.sized;
  }

  addresses-added :
      r.num_nodes < zmq_max_msg_hops → addresses (added addr r) ≡ addresses r ++ (addr ∷ [])
  unfolding added
  addresses-added room =
      tabulate-append (node_at (added addr r).nodes) 0 r.num_nodes 1
      ∙ ap₂ ◌++◌
          (tabulate-eq (node_at (added addr r).nodes) (node_at r.nodes) 0 0 r.num_nodes λ k h.
            take-drop-take (offset (0 + k)) zmq_addr_len (offset r.num_nodes) r.nodes _
              (omega arith) (omega (arith, in_room room)))
          (ap (λ i. node_at (added addr r).nodes i ∷ []) (zero-add r.num_nodes)
            ∙ ap (λ x. x ∷ [])
                (copied-at (offset r.num_nodes) addr r.nodes (omega (arith, in_room room)) e))

-- On a valid route and an address of 17 bytes: with fewer than four addresses `addNode` returns 0
-- and the route stands for its addresses with the new one at the end; with four it returns -2 and
-- changes nothing. The route is valid after it.
pub add_node-addresses :
    (addr : Bytes) (r : Route)
    → IsValid r
    → length addr ≡ zmq_addr_len
    → (code : ℤ) × (r' : Route) × (add_node (some addr) r ≡ some (code, r'))
      × IsValid r'
      × (r.num_nodes < zmq_max_msg_hops
          → (code ≡ pos 0) × (addresses r' ≡ addresses r ++ (addr ∷ [])))
      × (zmq_max_msg_hops ≤ r.num_nodes → (code ≡ negsuc 1) × (r' ≡ r))
unfolding add_node
add_node-addresses addr r v e = elim (Bool-cases (leb zmq_max_msg_hops r.num_nodes)) [
  | inl full ↦ (
    negsuc 1,
    r,
    ground (arith, full, e),
    v,
    λ h. absurd (ground (arith, full, h)),
    λ h. (refl, refl),
  )
  | inr free ↦
      let room : r.num_nodes < zmq_max_msg_hops = ground (arith, free) in
      (
        pos 0,
        added addr r,
        add_node-added addr r v e room,
        added-IsValid addr r v e room,
        λ h. (refl, addresses-added addr r v e room),
        λ h. absurd (omega arith),
      )
]

pub bytes_eq-true : (a b : Bytes) → bytes_eq a b ≡ true → a ≡ b
unfolding bytes_eq
bytes_eq-true [] [] h = refl
bytes_eq-true [] (y ∷ b) h = cc
bytes_eq-true (x ∷ a) [] h = cc
bytes_eq-true (x ∷ a) (y ∷ b) h = ground (arith, bytes_eq-true a b, h)

pub bytes_eq_self : (a : Bytes) → bytes_eq a a ≡ true
unfolding bytes_eq
bytes_eq_self [] = refl
bytes_eq_self (x ∷ a) = ground (arith, bytes_eq_self a)

tail_of : (l : List Bytes) → List Bytes
tail_of [] = []
tail_of (x ∷ l) = l

head_of : (l : List Bytes) → Bytes
head_of [] = []
head_of (x ∷ l) = x

-- The loop compares the addresses one by one.
same_nodes-tabulate :
    (i n : ℕ) (a b : Bytes)
    → (same_nodes i n a b ≡ true → tabulate (node_at a) i n ≡ tabulate (node_at b) i n)
      × (tabulate (node_at a) i n ≡ tabulate (node_at b) i n → same_nodes i n a b ≡ true)
unfolding same_nodes tail_of head_of
same_nodes-tabulate i zero a b = (λ h. refl, λ h. refl)
same_nodes-tabulate i (suc n) a b =
    let (to, from) = same_nodes-tabulate (suc i) n a b in
    (
      λ h.
          let (first, rest) =
            and-true (bytes_eq (node_at a i) (node_at b i)) (same_nodes (suc i) n a b) h in
          ap₂ ◌∷◌ (bytes_eq-true (node_at a i) (node_at b i) first) (to rest),
      λ h.
          let first : bytes_eq (node_at a i) (node_at b i) ≡ true =
            subst (λ x. bytes_eq (node_at a i) x ≡ true) (ap head_of h)
              (bytes_eq_self (node_at a i)) in
          true-and (bytes_eq (node_at a i) (node_at b i)) (same_nodes (suc i) n a b) first
            (from (ap tail_of h)),
    )

-- `operator==` holds of two routes exactly when they stand for the same addresses, in the same
-- order, whatever bytes are left behind them.
pub route_eq-addresses : (a b : Route) → (route_eq a b ≡ true) ↔ (addresses a ≡ addresses b)
unfolding route_eq
route_eq-addresses a b =
    let (to, from) = same_nodes-tabulate 0 a.num_nodes a.nodes b.nodes in
    (
      λ h.
          let (count, same) =
            and-true (a.num_nodes == b.num_nodes) (same_nodes 0 a.num_nodes a.nodes b.nodes) h in
          to same
          ∙ ap (λ k. tabulate (node_at b.nodes) 0 k) ((==_iff a.num_nodes b.num_nodes).0 count),
      λ h.
          let count : a.num_nodes ≡ b.num_nodes =
            sym (length-tabulate (node_at a.nodes) 0 a.num_nodes)
            ∙ ap (λ (l : List Bytes). length l) h
            ∙ length-tabulate (node_at b.nodes) 0 b.num_nodes in
          true-and (a.num_nodes == b.num_nodes) (same_nodes 0 a.num_nodes a.nodes b.nodes)
            ((==_iff a.num_nodes b.num_nodes).1 count)
            (from (h ∙ ap (λ k. tabulate (node_at b.nodes) 0 k) (sym count))),
    )

-- On an empty route `getNode` does not fail: for each of the four indices it returns 0, with the
-- bytes that the array has there. On a valid route that is not empty it returns 0 and the address
-- at an index below the number of addresses, and -1 from there on.
pub get_node-addresses :
    (i : ℕ) (r : Route)
    → IsValid r
    → (r.num_nodes ≡ 0 → i < zmq_max_msg_hops → get_node i r ≡ some (pos 0, node_at r.nodes i))
      × (i < r.num_nodes → get_node i r ≡ some (pos 0, get_or (addresses r) i []))
      × (0 < r.num_nodes → r.num_nodes ≤ i → get_node i r ≡ some (negsuc 0, []))
unfolding get_node copy_from
get_node-addresses i r v = (
  λ e h. ground (arith, v.sized),
  λ h.
      found h
      ∙ ap (λ x. some (pos 0, x))
          (sym (
            get_or-tabulate (node_at r.nodes) 0 r.num_nodes i [] h
            ∙ ap (node_at r.nodes) (zero-add i))),
  λ h k. ground (arith, h, k),
)
  where
    found : i < r.num_nodes → get_node i r ≡ some (pos 0, node_at r.nodes i)
    found h = ground (arith, v.sized, v.at_most)

-- `delNode` takes the last address of a route that has one, and returns how many are left; on an
-- empty route it returns -1 and changes nothing.
pub del_node-addresses :
    (r : Route)
    → (r.num_nodes ≡ 0 → del_node r ≡ (negsuc 0, r))
      × (0 < r.num_nodes
          → ((del_node r).0 ≡ pos (r.num_nodes - 1))
            × (addresses (del_node r).1 ≡ take (r.num_nodes - 1) (addresses r)))
unfolding del_node
del_node-addresses r = (
  λ e. ground (arith, e),
  λ h. (
    ground (arith, h),
    ap addresses (fewer h)
        ∙ sym (take-tabulate (node_at r.nodes) 0 (r.num_nodes - 1) r.num_nodes (omega arith)),
  ),
)
  where
    fewer : 0 < r.num_nodes → (del_node r).1 ≡ record r { num_nodes = r.num_nodes - 1 }
    fewer h = ground (arith, h)
