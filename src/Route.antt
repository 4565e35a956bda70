-- ===== src/Route.antt =====
-- common/src/c++/utils/types.h: the route of a message, at most four addresses, and the addresses
-- themselves. The array of addresses is its bytes; `none` is a copy beyond its end.
pub mod Spec
pub mod Cache
mod Tests
use system_k_dev.Base.{
  ℕ, zero, suc, ◌+◌, ◌-◌, ◌*◌, Bool, true, false, not, ◌&&◌, Option, none, some, List, [], ◌∷◌,
  ◌++◌, ◌==◌, ltb, leb, if◌then◌else◌, length, take, drop, replicate, ◌>>=◌,
}
use system_k_dev.Base.Int.{ℤ, pos, negsuc}

abbrev pub zmq_addr_len : ℕ
zmq_addr_len = 17

abbrev pub zmq_max_msg_hops : ℕ
zmq_max_msg_hops = 4

abbrev pub uuid_len : ℕ
uuid_len = 16

abbrev pub Bytes : Type 0
Bytes = List ℕ

-- `node`: `addr`, which has the bytes `before` when nothing has been copied to it. A copy to it of
-- `len` bytes leaves the others.
unfoldable pub new_node : (before a : Bytes) → Option Bytes
new_node before a =
    if leb (length a) (length before) then some (a ++ drop (length a) before) else none

unfoldable pub bytes_eq : Bytes → Bytes → Bool
bytes_eq [] [] = true
bytes_eq [] (y ∷ ys) = false
bytes_eq (x ∷ xs) [] = false
bytes_eq (x ∷ xs) (y ∷ ys) = (x == y) && bytes_eq xs ys

pub record Route : Type 0 where
  pub num_nodes : ℕ
  pub nodes : Bytes

-- The bytes of the array.
abbrev pub nodes_size : ℕ
nodes_size = zmq_max_msg_hops * zmq_addr_len

abbrev pub new_route : Route
new_route = record { num_nodes = 0; nodes = replicate nodes_size 0 }

-- `&nodes[i]`
abbrev pub offset : ℕ → ℕ
offset i = i * zmq_addr_len

-- memcpy of `bytes` to the offset `at` of `buffer`.
unfoldable pub copy_to : (at : ℕ) → Bytes → (buffer : Bytes) → Option Bytes
copy_to at bytes buffer =
    if leb (at + length bytes) (length buffer)
    then some (take at buffer ++ (bytes ++ drop (at + length bytes) buffer))
    else none

-- memcpy of the `n` bytes at the offset `at` of `buffer`.
unfoldable pub copy_from : (at n : ℕ) → (buffer : Bytes) → Option Bytes
copy_from at n buffer =
    if leb (at + n) (length buffer) then some (take n (drop at buffer)) else none

-- `addNode`: the address is NULL, which is asserted not to be, or its bytes.
unfoldable pub add_node : Option Bytes → Route → Option (ℤ × Route)
unfolding copy_to
add_node none r = none
add_node (some addr) r =
    if length addr == 0
    then some (negsuc 0, r)
    else if leb zmq_max_msg_hops r.num_nodes
    then some (negsuc 1, r)
    else (do
      nodes ← copy_to (offset r.num_nodes) addr r.nodes
      some (pos 0, record { num_nodes = r.num_nodes + 1; nodes = nodes }))

-- `num_nodes - 1` is a size_t: with no nodes it is the largest, and every index passes.
unfoldable pub get_node : (i : ℕ) → Route → Option (ℤ × Bytes)
unfolding copy_from
get_node i r =
    if not (r.num_nodes == 0) && leb r.num_nodes i
    then some (negsuc 0, [])
    else (do addr ← copy_from (offset i) zmq_addr_len r.nodes; some (pos 0, addr))

unfoldable pub del_node : Route → ℤ × Route
del_node r =
    if r.num_nodes == 0
    then (negsuc 0, r)
    else (pos (r.num_nodes - 1), record r { num_nodes = r.num_nodes - 1 })

unfoldable pub clear : Route → Route
clear r = record r { num_nodes = 0 }

-- The loop of `operator==`: the nodes from `i` on, `n` of them.
unfoldable pub same_nodes : (i n : ℕ) → Bytes → Bytes → Bool
unfolding bytes_eq
same_nodes i zero a b = true
same_nodes i (suc n) a b =
    bytes_eq (take zmq_addr_len (drop (offset i) a)) (take zmq_addr_len (drop (offset i) b))
    && same_nodes (suc i) n a b

unfoldable pub route_eq : Route → Route → Bool
unfolding same_nodes
route_eq a b = (a.num_nodes == b.num_nodes) && same_nodes 0 a.num_nodes a.nodes b.nodes
