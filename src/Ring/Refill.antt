-- ===== src/Ring/Refill.antt =====
-- Writing to an empty buffer.
use system_k_dev.Base.{ℕ, ◌≡◌, ap, List, length, some, arith}
use system_k_dev.Ring.{Block, RingBuffer, write_data, write_first}
use system_k_dev.Ring.Valid.{IsValid, IsContiguous, le-round_up}

pub write_data-IsContiguous :
    (junk : Block) (r r' : RingBuffer) (xs : List ℕ)
    → IsValid r
    → r.data_length ≡ 0
    → write_data junk r xs ≡ some r'
    → IsContiguous r'
unfolding write_data write_first
write_data-IsContiguous junk r r' xs v e w = ground (
  arith,
  le-round_up (length xs) r.block_size,
  ap (λ (x : RingBuffer). x.data_offset),
  ap (λ (x : RingBuffer). x.data_length),
  ap (λ (x : RingBuffer). x.buffer_length),
)
