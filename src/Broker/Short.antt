-- ===== src/Broker/Short.antt =====
-- order_entry/order-fix/msg_processor.cpp: a message whose type is too short is dropped.
use system_k_dev.Base.{ℕ, ◌<◌, ◌≡◌, refl, Bool, true, List, [], ◌∷◌, ◌++◌, lt→ltb, length}
use system_k_dev.Route.{Bytes, Route, zmq_addr_len}
use system_k_dev.Broker.Turns.{done}
use system_k_dev.Broker.Maps.{MapOps}
use system_k_dev.Broker.{
  Frame, OrderInfo, Broker, size_of_type, drain, handle_incoming_client_message,
}
use system_k_dev.Broker.Frames.{return_route-one_hop}
use system_k_dev.Broker.Spec.{frames_of}

drain-frames_of :
    (x : Bytes) (ys : List Bytes) (fs : List Frame) → drain true (frames_of x ys ++ fs) ≡ done fs
unfolding drain
drain-frames_of x [] fs = refl
drain-frames_of x (y ∷ ys) fs = drain-frames_of y ys fs

module _ {M N : Type 0} (maps : MapOps M Route) (orders : MapOps N OrderInfo) where
  -- A message from an address of 17 bytes, whose type has fewer than four bytes and which has a frame
  -- or more behind it, is taken from the socket whole, and nothing else of the broker changes.
  pub handle-short :
      (opens : Bool) (u : ℕ) (b : Broker M N) (address type sid : Bytes) (others : List Bytes)
      (fs : List Frame)
      → length address ≡ zmq_addr_len
      → length type < size_of_type
      → b.strategy_msgs ≡ (address, true) ∷ ((type, true) ∷ (frames_of sid others ++ fs))
      → handle_incoming_client_message maps orders opens u b
        ≡ done (record b { strategy_msgs = fs })
  unfolding handle_incoming_client_message drain
  handle-short opens u b address type sid [] fs a short e =
      rw (e, handle_incoming_client_message)
        (rw (return_route-one_hop address a) (rw (lt→ltb (length type) size_of_type short) refl))
  handle-short opens u b address type sid (x ∷ xs) fs a short e =
      rw (e, handle_incoming_client_message)
        (rw (return_route-one_hop address a)
          (rw (lt→ltb (length type) size_of_type short) (rw (drain-frames_of x xs fs) refl)))
