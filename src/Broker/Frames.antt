-- ===== src/Broker/Frames.antt =====
-- order_entry/order-fix/msg_processor.cpp: frames, and the messages that they make.
use mathlib.Core.List.{append_assoc}
use system_k_dev.Base.{
  ℕ, ◌<◌, ◌^◌, ◌≡◌, refl, sym, ◌∙◌, ap, subst, true, some, List, [], ◌∷◌, ◌++◌, ◌==◌, leb, length,
  take, replicate, arith, take-append, take_all, length-append, and-true,
}
use system_k_dev.Base.Int.{pos}
use system_k_dev.Route.{
  Bytes, Route, new_route, add_node, get_node, copy_to, copy_from, zmq_addr_len, uuid_len,
}
use system_k_dev.Route.Cache.{le_bytes, length-le_bytes, of_le_bytes-le_bytes}
use system_k_dev.Broker.Turns.{done}
use system_k_dev.Broker.Maps.{is_id}
use system_k_dev.Broker.{Frame, size_of_type, set_id, type_of, return_route, send_nodes, forward}
use system_k_dev.Broker.Spec.{
  Envelope, StrategyMessage, frames_of, envelopes, requests, request_frames,
}

-- The route back to an address.
abbrev pub one_hop : Bytes → Route
one_hop address = record { num_nodes = 1; nodes = address ++ replicate 51 0 }

one_hop-added :
    (address : Bytes)
    → length address ≡ zmq_addr_len
    → add_node (some address) new_route ≡ some (pos 0, one_hop address)
unfolding add_node copy_to
one_hop-added address e = rw e refl

pub return_route-one_hop :
    (address : Bytes)
    → length address ≡ zmq_addr_len
    → return_route address ≡ done (one_hop address)
unfolding return_route
return_route-one_hop address e = rw (one_hop-added address e, return_route) refl

one_hop-found :
    (address : Bytes)
    → length address ≡ zmq_addr_len
    → get_node 0 (one_hop address) ≡ some (pos 0, address)
unfolding get_node copy_from
one_hop-found address e =
    let fits : leb zmq_addr_len (length (address ++ replicate 51 0)) ≡ true =
      ground (arith, e, length-append {0} address (replicate 51 0)) in
    let first : take zmq_addr_len (address ++ replicate 51 0) ≡ address =
      subst (λ n. take n (address ++ replicate 51 0) ≡ address) e
        (take-append address (replicate 51 0)) in
    rw fits (rw first refl)

pub send_nodes-one_hop :
    (address : Bytes)
    → length address ≡ zmq_addr_len
    → send_nodes 0 1 (one_hop address) ≡ done ((address, true) ∷ [])
unfolding send_nodes
send_nodes-one_hop address e = rw (one_hop-found address e) refl

pub forward-frames_of :
    (x : Bytes) (ys : List Bytes) (rest : List Frame)
    → forward (frames_of x ys ++ rest) ≡ done (frames_of x ys, rest)
unfolding forward
forward-frames_of x [] rest = refl
forward-frames_of x (y ∷ ys) rest = rw (forward-frames_of y ys rest) refl

pub type_of-le_bytes : (t : ℕ) → t < 256 ^ size_of_type → type_of (le_bytes size_of_type t) ≡ t
unfolding type_of
type_of-le_bytes t h =
    let size = length-le_bytes size_of_type t in
    rw (take_all size_of_type (le_bytes size_of_type t) (omega (arith, size)))
      (of_le_bytes-le_bytes size_of_type t h)

pub set_id-is_id : (c : ℕ) (k : Bytes) → is_id c k ≡ true → set_id k ≡ k
unfolding set_id is_id
set_id-is_id c k h = rw (and-true (length k == uuid_len) _ h).0 refl

pub envelopes-append : (es fs : List Envelope) → envelopes (es ++ fs) ≡ envelopes es ++ envelopes fs
envelopes-append [] fs = refl
envelopes-append (e ∷ es) fs =
    ap (λ x. ((e.head, true) ∷ frames_of e.first e.others) ++ x) (envelopes-append es fs)
    ∙ sym (append_assoc ((e.head, true) ∷ frames_of e.first e.others) (envelopes es) (envelopes fs))

pub requests-append :
    (ms ns : List StrategyMessage) → requests (ms ++ ns) ≡ requests ms ++ requests ns
requests-append [] ns = refl
requests-append (m ∷ ms) ns =
    ap (λ x. ((m.address, true) ∷ request_frames m.request m.sid) ++ x) (requests-append ms ns)
    ∙ sym (
        append_assoc ((m.address, true) ∷ request_frames m.request m.sid) (requests ms)
          (requests ns))
