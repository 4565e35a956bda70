-- ===== src/Ring/Loss.antt =====
-- When `WriteData` loses data: the block of a full buffer grows while its data wrap.
use system_k_dev.Base.{
  ℕ, ◌+◌, ◌-◌, ◌<◌, ◌≡◌, ◌∙◌, List, some, arith, length, get_or, get_or-tabulate, get_or-append,
}
use system_k_dev.Ring.{
  Block, RingBuffer, unwrap, realloc, data_end, expand, store, write_data, round_up,
}
use system_k_dev.Ring.Valid.{IsValid, contents, length-contents, le-round_up, mod_once}
use system_k_dev.Ring.Expand.{
  write_data_cases, expand_grown, expand_room, expand-IsValid, expand-data_length,
}
use system_k_dev.Ring.Write.{store-append}

module _ (junk : Block) (r : RingBuffer) (xs : List ℕ) (v : IsValid r) (some_bytes : 0 < length xs)
    (full : r.data_length ≡ r.buffer_length) (wrapped : 0 < r.data_offset) where
  abbrev lost : ℕ
  lost = r.buffer_length - r.data_offset

  end-offset : data_end r ≡ r.data_offset
  end-offset = ground (arith, mod_once (r.data_offset + r.data_length) r.buffer_length)

  abbrev grown : ℕ
  grown = round_up (r.data_length + length xs) r.block_size

  unwrap_nothing : (m : Block) → unwrap junk m r.data_offset (data_end r) r.buffer_length grown ≡ m
  unfolding unwrap
  unwrap_nothing m = ground (arith, end-offset)

  write_data-store : write_data junk r xs ≡ store (expand junk r (length xs)) xs
  write_data-store = write_data_cases junk r xs some_bytes ∙ ground arith

  expand_full :
      expand junk r (length xs)
      ≡ record r { mem = realloc junk r.mem r.buffer_length; buffer_length = grown }
  expand_full = rw (expand_grown junk r (length xs) v (ground arith) (omega arith), unwrap_nothing)

  lost_byte : get_or (contents (expand junk r (length xs))) lost 0 ≡ junk r.buffer_length
  lost_byte = rw expand_full (
      get_or-tabulate _ 0 r.data_length lost 0 (ground arith)
      ∙ ground (arith, le-round_up (r.data_length + length xs) r.block_size v.block))

  -- Writing to a full buffer whose data wrap passes the assertions, and replaces the data byte at
  -- which the data wrapped by a byte of the memory that realloc has added.
  pub write_data_loses :
      (r' : RingBuffer) × (write_data junk r xs ≡ some r')
      × IsValid r'
      × (get_or (contents r') lost 0 ≡ junk r.buffer_length)
  write_data_loses =
      let n = length xs in
      let d : 0 < r.data_length = ground arith in
      let grew = expand-data_length junk r n v d in
      let (r', e, v', same, _) =
        store-append (expand junk r n) xs (expand-IsValid junk r n v d) (rw grew d)
          (rw grew (expand_room junk r n v d)) in
      (
        r',
        write_data-store ∙ e,
        v',
        rw same (
            get_or-append (contents (expand junk r n)) xs lost 0
              (rw (length-contents (expand junk r n), grew) (ground arith))
            ∙ lost_byte),
      )
