-- ===== src/Ring/Tests.antt =====
-- Runs of the ring buffer at small sizes, and the theorems at concrete buffers.
use system_k_dev.Base.{ℕ, ◌≤◌, ◌≡◌, refl, inl, inr, true, List, [], ◌∷◌, ◌++◌, some, arith, get_or}
use system_k_dev.Base.Int.{pos}
use system_k_dev.Ring.{
  Block, RingBuffer, init, write_first, store, expand, unwrap, write_data, read_some, read_data,
  offset_of_byte, read_data_util_byte,
}
use system_k_dev.Ring.Valid.{IsValid, contents}
use system_k_dev.Ring.Expand.{write_data-append}
use system_k_dev.Ring.Loss.{write_data_loses}
use system_k_dev.Ring.Read.{read_data-take}
use system_k_dev.Ring.Search.{index_of, offset_of_byte-index_of}
use system_k_dev.Ring.Until.{upto, read_data_util_byte-upto}
use system_k_dev.Ring.Fifo.{put, get, run, run_queue, run-run_queue}

abbrev junk : Block
junk i = 99

-- Data 8, 9, 7 that wrap in a block of four bytes.
abbrev wrapped : RingBuffer
wrapped = record {
  block_size = 4;
  allocated = true;
  mem = get_or_block (9 ∷ 7 ∷ 5 ∷ 8 ∷ []);
  buffer_length = 4;
  data_offset = 3;
  data_length = 3;
}
  where
    get_or_block : List ℕ → Block
    get_or_block xs i = get_or xs i 0

-- The same block, full.
abbrev full : RingBuffer
full = record wrapped { data_length = 4 }

-- The same block, with its data in one piece.
abbrev straight : RingBuffer
straight = record wrapped { data_offset = 1 }

wrapped-IsValid : IsValid wrapped
wrapped-IsValid = ground arith

full-IsValid : IsValid full
full-IsValid = ground arith

straight-IsValid : IsValid straight
straight-IsValid = ground arith

fresh_run :
    run junk (init (pos 2)) (put (1 ∷ 2 ∷ 3 ∷ []) ∷ get 2 ∷ put (4 ∷ 5 ∷ []) ∷ get 9 ∷ [])
    ≡ some ((1 ∷ 2 ∷ []) ∷ (3 ∷ 4 ∷ 5 ∷ []) ∷ [])
unfolding run init write_data write_first store expand unwrap read_data read_some
fresh_run = refl

-- A full wrapped buffer that grows reads back uninitialised bytes in place of its data.
loss_run : run junk full (put (1 ∷ []) ∷ get 5 ∷ []) ≡ some ((8 ∷ 99 ∷ 99 ∷ 99 ∷ 1 ∷ []) ∷ [])
unfolding run write_data write_first store expand unwrap read_data read_some
loss_run = refl

write_data-append_example :
    (r' : RingBuffer) × (write_data junk wrapped (1 ∷ 2 ∷ 3 ∷ []) ≡ some r')
    × IsValid r'
    × (contents r' ≡ 8 ∷ 9 ∷ 7 ∷ 1 ∷ 2 ∷ 3 ∷ [])
    × (4 ≤ r'.buffer_length)
write_data-append_example =
    write_data-append junk wrapped (1 ∷ 2 ∷ 3 ∷ []) wrapped-IsValid
      (inr (inr (omega arith, omega arith)))

write_data_loses_example :
    (r' : RingBuffer) × (write_data junk full (1 ∷ []) ≡ some r')
    × IsValid r'
    × (get_or (contents r') 1 0 ≡ 99)
write_data_loses_example =
    write_data_loses junk full (1 ∷ []) full-IsValid (omega arith) refl (omega arith)

read_data-take_example :
    let (out, r') = read_data wrapped 2 in (out ≡ 8 ∷ 9 ∷ []) × (contents r' ≡ 7 ∷ []) × IsValid r'
read_data-take_example = read_data-take wrapped 2 wrapped-IsValid

offset_of_byte-index_of_example : offset_of_byte straight 8 ≡ pos 2
unfolding index_of
offset_of_byte-index_of_example =
    offset_of_byte-index_of straight 8 straight-IsValid (inl (omega arith))

read_data_util_byte-upto_example :
    let (out, r') = read_data_util_byte straight 10 5 true in
    (out ≡ 7 ∷ 5 ∷ []) × (7 ∷ 5 ∷ 8 ∷ [] ≡ out ++ contents r') × IsValid r'
unfolding upto
read_data_util_byte-upto_example =
    read_data_util_byte-upto straight 10 5 true straight-IsValid (inl (omega arith))

run-run_queue_example :
    run junk wrapped (get 1 ∷ put (1 ∷ 2 ∷ []) ∷ get 9 ∷ [])
    ≡ some ((8 ∷ []) ∷ (9 ∷ 7 ∷ 1 ∷ 2 ∷ []) ∷ [])
unfolding run_queue
run-run_queue_example =
    run-run_queue junk (get 1 ∷ put (1 ∷ 2 ∷ []) ∷ get 9 ∷ []) wrapped wrapped-IsValid (omega arith)

-- In a block that grows by one byte the second of two wrapped bytes, 7, is overwritten by the first.
second_lost :
    let grown = unwrap junk wrapped.mem 3 2 4 5 in (grown 4 ≡ 9) × (grown 0 ≡ 9) × (grown 1 ≡ 9)
unfolding unwrap
second_lost = (refl, refl, refl)
