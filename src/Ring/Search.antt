-- ===== src/Ring/Search.antt =====
-- `OffsetOfByte` and `ContainsByte`: the search for a delimiter.
use native.Mathlib.Decide.{dec_lt}
use system_k_dev.Base.{
  ℕ, suc, zero, ◌+◌, ◌-◌, ◌<◌, ◌≡◌, refl, sym, ◌∙◌, ap, ◌⊎◌, false, List, [], ◌∷◌, ◌++◌, Option,
  none, some, arith, ◌==◌, if◌then◌else◌, tabulate, length, length-tabulate, get_or,
  get_or-tabulate,
}
use system_k_dev.Base.Int.{ℤ, pos, negsuc}
use system_k_dev.Ring.{Block, RingBuffer, memchr, offset_wrapped, offset_of_byte, contains_byte}
use system_k_dev.Ring.Valid.{IsValid, IsContiguous, slot, contents, length-contents}
use system_k_dev.Ring.Read.{whole_piece, two_pieces}

-- The position of the first `c`.
unfoldable pub index_of : ℕ → List ℕ → Option ℕ
index_of c [] = none
index_of c (x ∷ xs) =
    if x == c then some 0 else elim (index_of c xs) [ none ↦ none | some k ↦ some (suc k) ]

-- The result of the search as the code reports it, -1 where there is none.
abbrev pub reported : Option ℕ → ℤ
reported none = negsuc 0
reported (some k) = pos k

memchr-index_of : (m : Block) (i c n : ℕ) → memchr m i c n ≡ index_of c (tabulate m i n)
unfolding index_of
memchr-index_of m i c zero = refl
memchr-index_of m i c (suc n) = ground (arith, memchr-index_of m (suc i) c n)

index_of-append :
    (c : ℕ) (xs ys : List ℕ)
    → index_of c (xs ++ ys) ≡ elim (index_of c xs) [
      | some k ↦ some k
      | none ↦ elim (index_of c ys) [ none ↦ none | some k ↦ some (k + length xs) ]
    ]
unfolding index_of
index_of-append c [] ys = ground arith
index_of-append c (x ∷ xs) ys = ground (arith, index_of-append c xs ys)

head_index : (c : ℕ) (xs : List ℕ) → 0 < length xs → get_or xs 0 0 ≡ c → index_of c xs ≡ some 0
unfolding index_of
head_index c [] h e = absurd (omega arith)
head_index c (x ∷ xs) h e = ground arith

-- The data do not wrap, or start exactly as far into the block as there are data.
abbrev pub IsSearchable : RingBuffer → Type 0
IsSearchable r = IsContiguous r ⊎ (r.data_offset ≡ r.data_length)

module _ (r : RingBuffer) (c : ℕ) (v : IsValid r) where
  contents_whole : IsContiguous r → contents r ≡ tabulate r.mem r.data_offset r.data_length
  contents_whole h = sym (whole_piece r.mem r.data_offset r.buffer_length r.data_length h)

  abbrev trailing : ℕ
  trailing = r.buffer_length - r.data_offset

  abbrev front : List ℕ
  front = tabulate r.mem r.data_offset trailing

  abbrev back : List ℕ
  back = tabulate r.mem 0 (r.data_length - trailing)

  contents_pieces : r.buffer_length < r.data_offset + r.data_length → contents r ≡ front ++ back
  contents_pieces h =
      sym (two_pieces r.mem r.data_offset r.buffer_length r.data_length h v.fits (ground arith))

  offset_contiguous :
      0 < r.data_length → IsContiguous r → offset_of_byte r c ≡ reported (index_of c (contents r))
  unfolding offset_of_byte
  offset_contiguous d h =
      rw (contents_whole h, ← memchr-index_of r.mem r.data_offset c r.data_length) (ground arith)

  offset_split :
      r.buffer_length < r.data_offset + r.data_length
      → r.data_offset ≡ r.data_length
      → offset_of_byte r c ≡ reported (index_of c (contents r))
  unfolding offset_of_byte offset_wrapped
  offset_split h e =
      rw (contents_pieces h, index_of-append c front back)
        (ground (
          arith,
          memchr-index_of r.mem r.data_length c trailing,
          memchr-index_of r.mem 0 c (r.data_length - trailing),
          length-tabulate r.mem r.data_offset trailing,
        ))

  offset_of_byte_empty : r.data_length ≡ 0 → offset_of_byte r c ≡ negsuc 0
  unfolding offset_of_byte
  offset_of_byte_empty e = ground arith

  pub contents_empty : r.data_length ≡ 0 → contents r ≡ []
  contents_empty e = ap (tabulate (λ k. r.mem (slot r.data_offset r.buffer_length k)) 0) e

  -- The search reports the position of the first `c` in the data, and -1 where there is none, in
  -- a valid buffer whose data do not wrap or start as far into the block as there are data.
  pub offset_of_byte-index_of :
      IsSearchable r → offset_of_byte r c ≡ reported (index_of c (contents r))
  unfolding index_of
  offset_of_byte-index_of s = elim (dec_lt 0 r.data_length) [
    | no h ↦ rw (offset_of_byte_empty (omega arith), contents_empty (omega arith))
    | yes d ↦ elim (dec_lt r.buffer_length (r.data_offset + r.data_length)) [
      | no h ↦ offset_contiguous d (omega arith)
      | yes h ↦ offset_split h (omega arith)
    ]
  ]

  first_index :
      0 < r.data_length
      → r.data_offset < r.buffer_length
      → r.mem r.data_offset ≡ c
      → index_of c (contents r) ≡ some 0
  first_index d inside hit =
      head_index c (contents r) (rw (length-contents r) d)
        (get_or-tabulate _ 0 r.data_length 0 0 d ∙ ground arith)

  -- Where the data of a valid buffer wrap, the search passes over every delimiter outside of the
  -- two ranges that it looks at: one that is the very first data byte is not found if none lies
  -- within the `trailing` bytes that start `data_length` bytes into the block, nor in the data at
  -- its head.
  pub search_misses :
      r.buffer_length < r.data_offset + r.data_length
      → r.mem r.data_offset ≡ c
      → index_of c (tabulate r.mem r.data_length trailing) ≡ none
      → index_of c back ≡ none
      → (contains_byte r c ≡ false) × (index_of c (contents r) ≡ some 0)
  unfolding contains_byte offset_of_byte offset_wrapped
  search_misses h hit p q = (
    ground (
      arith,
      memchr-index_of r.mem r.data_length c trailing,
      memchr-index_of r.mem 0 c (r.data_length - trailing),
    ),
    first_index (ground arith) (ground arith) hit,
  )
