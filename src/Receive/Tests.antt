-- ===== src/Receive/Tests.antt =====
-- A packet that comes in two chunks, behind what the buffer has of it.
use system_k_dev.Base.{ℕ, ◌≡◌, refl, true, List, [], ◌∷◌, ◌++◌, some, arith, inl, get_or}
use system_k_dev.Ring.{Block, RingBuffer}
use system_k_dev.Ring.Valid.{IsValid, contents}
use system_k_dev.Receive.{recv_packet, join, has_tlf, recv_packet-upto}

abbrev junk : Block
junk i = 99

-- The bytes 7 and 5, in one piece.
abbrev buffer : RingBuffer
buffer = record {
  block_size = 4;
  allocated = true;
  mem = λ i. get_or (9 ∷ 7 ∷ 5 ∷ 8 ∷ []) i 0;
  buffer_length = 4;
  data_offset = 1;
  data_length = 2;
}

abbrev chunks : List (List ℕ)
chunks = (1 ∷ 2 ∷ []) ∷ (3 ∷ 10 ∷ 4 ∷ []) ∷ (6 ∷ []) ∷ []

buffer-IsValid : IsValid buffer
buffer-IsValid = ground arith

chunks-has_tlf : has_tlf (contents buffer ++ join chunks) ≡ true
unfolding has_tlf join
chunks-has_tlf = refl

recv_packet-upto_example :
    (r' : RingBuffer) × (rest : List (List ℕ)) × (recv_packet junk buffer [] chunks
      ≡ some (7 ∷ 5 ∷ 1 ∷ 2 ∷ 3 ∷ 10 ∷ [], r', rest))
    × IsValid r'
    × (7 ∷ 5 ∷ 1 ∷ 2 ∷ 3 ∷ 10 ∷ 4 ∷ 6 ∷ []
        ≡ (7 ∷ 5 ∷ 1 ∷ 2 ∷ 3 ∷ 10 ∷ []) ++ (contents r' ++ join rest))
unfolding join system_k_dev.Ring.Until.upto
recv_packet-upto_example =
    recv_packet-upto junk chunks buffer [] buffer-IsValid (inl (omega arith)) (omega arith)
      (omega arith, (omega arith, (omega arith, tt))) chunks-has_tlf
