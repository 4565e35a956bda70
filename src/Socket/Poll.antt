-- ===== src/Socket/Poll.antt =====
-- market_data/itch/Socket.cpp: waiting for a message. What `select` and `recv` return is a
-- parameter.
use system_k_dev.Base.{
  ℕ, zero, suc, ◌+◌, ◌*◌, ◌/◌, ◌%◌, ◌≤◌, ◌≡◌, ◌↔◌, Bool, true, false, not, Option, none, some, List,
  [], ◌∷◌, arith, if◌then◌else◌,
}
use system_k_dev.Base.Int.{ℤ, pos, negsuc}
use system_k_dev.Ring.{Block, RingBuffer, write_data, contains_byte}
use system_k_dev.Receive.{has_tlf}
use system_k_dev.Socket.{Socket, close}

pub data Recv : Type 0 where
  failed shut : Recv
  chunk : List ℕ → Recv

-- The result, whether the bytes have a TLF, and the socket and its buffer; `none` for an assertion
-- of the buffer that fails.
unfoldable pub recv_into_buffer :
    Block → (now : ℕ) → Recv → Socket → RingBuffer → Option (Bool × Bool × Socket × RingBuffer)
unfolding close
recv_into_buffer junk now failed s r = some (false, false, close now s, r)
recv_into_buffer junk now shut s r = some (false, false, close now s, r)
recv_into_buffer junk now (chunk c) s r = elim (write_data junk r c) [
  | none ↦ none
  | some r' ↦ some (true, has_tlf c, s, r')
]

-- The loop: its condition, that a part of the timeout is not negative, always holds.
unfoldable pub poll_message :
    Block
    → (now : ℕ) → (polls : List (ℤ × Recv)) → Socket
    → RingBuffer
    → Option (Bool × Socket × RingBuffer)
unfolding recv_into_buffer close
poll_message junk now [] s r = none
poll_message junk now ((negsuc n, rcv) ∷ polls) s r = some (false, close now s, r)
poll_message junk now ((pos zero, rcv) ∷ polls) s r = some (false, s, r)
poll_message junk now ((pos (suc n), rcv) ∷ polls) s r = elim (recv_into_buffer junk now rcv s r) [
  | none ↦ none
  | some (received, ends, s', r') ↦ elim received [
    | false ↦ some (false, s', r')
    | true ↦ elim ends [ true ↦ some (true, s', r') | false ↦ poll_message junk now polls s' r' ]
  ]
]

unfoldable pub recv_message :
    Block
    → (now : ℕ) → (polls : List (ℤ × Recv)) → Socket
    → RingBuffer
    → Option (Bool × Socket × RingBuffer)
unfolding poll_message
recv_message junk now polls s r =
    if not s.is_connected
    then some (false, s, r)
    else if contains_byte r 10
    then some (true, s, r)
    else poll_message junk now polls s r

-- The timeout of `select`: seconds and microseconds.
pub record Timeval : Type 0 where
  pub tv_sec : ℕ
  pub tv_usec : ℕ

unfoldable pub recv_timeout : (timeout_milliseconds : ℕ) → Timeval
recv_timeout ms = record { tv_sec = ms / 1000; tv_usec = ms % 1000 * 1000000 }

abbrev pub microseconds : Timeval → ℕ
microseconds t = t.tv_sec * 1000000 + t.tv_usec

-- The timeout of `select` is never shorter than the one asked for, and is the one asked for
-- exactly when that is a whole number of seconds.
pub recv_timeout-microseconds :
    (ms : ℕ)
    → (ms * 1000 ≤ microseconds (recv_timeout ms))
      × ((microseconds (recv_timeout ms) ≡ ms * 1000) ↔ (ms % 1000 ≡ 0))
unfolding recv_timeout
recv_timeout-microseconds ms = (omega arith, (λ h. omega arith, λ h. omega arith))
