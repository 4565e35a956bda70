-- ===== src/Ring/Expand.antt =====
-- `WriteData` in general: an empty buffer, a block that has to grow, and when growth loses data.
use native.Mathlib.Nat.{zero-add}
use native.Mathlib.Decide.{dec_lt}
use mathlib.Core.List.{append-nil}
use system_k_dev.Base.{
  ℕ, ◌+◌, ◌-◌, ◌≤◌, ◌<◌, ◌≡◌, refl, sym, ◌∙◌, ap, ◌⊎◌, inl, inr, true, List, [], ◌∷◌, ◌++◌, some,
  arith, ltb, ◌==◌, if◌then◌else◌, tabulate-eq, tabulate-get_or, length, ◌||◌, not,
}
use system_k_dev.Ring.{
  Block, RingBuffer, copy, realloc, source, data_end, round_up, write_first, store, unwrap, expand,
  write_data,
}
use system_k_dev.Ring.Valid.{
  IsValid, IsContiguous, slot, contents, data_end-slot, is_empty, le-round_up,
}
use system_k_dev.Ring.Write.{store-append}

-- Growing a block of `old` bytes to `new` moves all of the data that wrap.
abbrev pub CanUnwrap : (offset end old new : ℕ) → Type 0
CanUnwrap offset end old new = (end < offset) × (end ≤ new - old)

module _ (junk m : Block) (offset end old new d : ℕ) (at : end ≡ slot offset old d)
    (some_data : 0 < d) (inside : offset < old) (fits : d ≤ old) (grows : old < new)
    (movable : (offset + d ≤ old) ⊎ CanUnwrap offset end old new) where
  unwrap_same :
      (k : ℕ)
      → k < d
      → unwrap junk (realloc junk m old) offset end old new (slot offset new k)
        ≡ m (slot offset old k)
  unfolding unwrap
  unwrap_same k h = ground arith

-- The writes that keep the data: those that fit, and those that enlarge a block whose data do
-- not wrap, or wrap by no more than the block grows.
abbrev pub IsSafeWrite : RingBuffer → ℕ → Type 0
IsSafeWrite r n =
    (r.data_length + n ≤ r.buffer_length)
    ⊎ IsContiguous r
    ⊎ CanUnwrap r.data_offset (data_end r) r.buffer_length
        (round_up (r.data_length + n) r.block_size)

module _ (junk : Block) (r : RingBuffer) (n : ℕ) (v : IsValid r)
    (some_data : 0 < r.data_length) where
  pub expand_room : r.data_length + n ≤ (expand junk r n).buffer_length
  unfolding expand
  expand_room = ground (arith, le-round_up (r.data_length + n) r.block_size v.block)

  pub expand-IsValid : IsValid (expand junk r n)
  unfolding expand
  expand-IsValid = ground (arith, le-round_up (r.data_length + n) r.block_size v.block)

  pub expand-data_length : (expand junk r n).data_length ≡ r.data_length
  unfolding expand
  expand-data_length = ground arith

  expand-buffer_length : r.buffer_length ≤ (expand junk r n).buffer_length
  unfolding expand
  expand-buffer_length = ground (arith, le-round_up (r.data_length + n) r.block_size v.block)

  expand_fitting : r.data_length + n ≤ r.buffer_length → expand junk r n ≡ r
  unfolding expand
  expand_fitting h = ground arith

  abbrev grown_size : ℕ
  grown_size = round_up (r.data_length + n) r.block_size

  abbrev grown_mem : Block
  grown_mem =
      unwrap junk (realloc junk r.mem r.buffer_length) r.data_offset (data_end r) r.buffer_length
        grown_size

  pub expand_grown :
      r.buffer_length < r.data_length + n
      → expand junk r n ≡ record r { mem = grown_mem; buffer_length = grown_size }
  unfolding expand
  expand_grown h = ground arith

  expand-contents : IsSafeWrite r n → contents (expand junk r n) ≡ contents r
  expand-contents safe = elim (dec_lt r.buffer_length (r.data_length + n)) [
    | yes h ↦ rw (expand_grown h) (
        tabulate-eq _ _ 0 0 r.data_length λ k lt. rw zero-add (
          unwrap_same junk r.mem r.data_offset (data_end r) r.buffer_length grown_size r.data_length
            (data_end-slot r (ground arith) v.fits) some_data (ground arith) v.fits
            (omega (arith, le-round_up (r.data_length + n) r.block_size v.block)) (ground arith) k
            lt))
    | no h ↦ rw (expand_fitting (omega arith))
  ]

-- What `WriteData` does to an empty buffer.
module _ (junk : Block) (r : RingBuffer) (xs : List ℕ) (v : IsValid r) (empty : r.data_length ≡ 0)
    (some_bytes : 0 < length xs) where
  abbrev first_size : ℕ
  first_size = round_up (length xs) r.block_size

  abbrev first_written : RingBuffer
  first_written =
      let grown = ltb r.buffer_length first_size in
      record r {
        allocated = if grown then true else r.allocated;
        buffer_length = if grown then first_size else r.buffer_length;
        mem =
            copy (if grown then realloc junk r.mem r.buffer_length else r.mem) 0 (length xs)
              (source xs);
        data_length = length xs;
      }

  write_first-append :
      (r' : RingBuffer) × (write_first junk r xs ≡ some r')
      × IsValid r'
      × (contents r' ≡ contents r ++ xs)
      × (r.buffer_length ≤ r'.buffer_length)
  unfolding write_first
  write_first-append = (
    first_written,
    ground arith,
    ground (arith, le-round_up (length xs) r.block_size v.block),
    rw (empty, ◌++◌)
        (tabulate-eq _ (source xs) 0 0 (length xs) (λ k lt. at_slot k lt) ∙ tabulate-get_or xs 0),
    ground arith,
  )
    where
      at_slot :
          (k : ℕ)
          → k < length xs
          → first_written.mem (slot r.data_offset first_written.buffer_length (0 + k))
            ≡ source xs (0 + k)
      at_slot k lt = ground (arith, le-round_up (length xs) r.block_size v.block)

write_more-append :
    (junk : Block) (r : RingBuffer) (xs : List ℕ)
    → IsValid r
    → 0 < r.data_length
    → IsSafeWrite r (length xs)
    → (r' : RingBuffer) × (store (expand junk r (length xs)) xs ≡ some r')
      × IsValid r'
      × (contents r' ≡ contents r ++ xs)
      × (r.buffer_length ≤ r'.buffer_length)
write_more-append junk r xs v some_data safe =
    let n = length xs in
    let (r', e, v', same, size) =
      store-append (expand junk r n) xs (expand-IsValid junk r n v some_data)
        (rw (expand-data_length junk r n v some_data) some_data)
        (rw (expand-data_length junk r n v some_data) (expand_room junk r n v some_data)) in
    (
      r',
      e,
      v',
      same ∙ ap (λ c. c ++ xs) (expand-contents junk r n v some_data safe),
      rw size (expand-buffer_length junk r n v some_data),
    )

pub write_data_cases :
    (junk : Block) (r : RingBuffer) (xs : List ℕ)
    → 0 < length xs
    → write_data junk r xs ≡ (
        if not r.allocated || r.data_length == 0
        then write_first junk r xs
        else store (expand junk r (length xs)) xs)
unfolding write_data
write_data_cases junk r xs h = ground arith

write_data_none : (junk : Block) (r : RingBuffer) → write_data junk r [] ≡ some r
unfolding write_data
write_data_none junk r = refl

-- A write to a valid buffer passes its assertions, keeps the invariant and appends the bytes to
-- the data, and leaves a block at least as large, provided that it fits, or that the data do not wrap, or that the data wrap, end
-- strictly before their start, and end within the number of bytes by which the block grows.
pub write_data-append :
    (junk : Block) (r : RingBuffer) (xs : List ℕ)
    → IsValid r
    → IsSafeWrite r (length xs)
    → (r' : RingBuffer) × (write_data junk r xs ≡ some r')
      × IsValid r'
      × (contents r' ≡ contents r ++ xs)
      × (r.buffer_length ≤ r'.buffer_length)
write_data-append junk r [] v safe = (r, write_data_none junk r, v, sym (append-nil _), omega arith)
write_data-append junk r (x ∷ xs) v safe =
    rw (write_data_cases junk r (x ∷ xs) (omega arith)) (elim (is_empty r v) [
      | inl (t, e, _) ↦ rw t (write_first-append junk r (x ∷ xs) v e (omega arith))
      | inr (t, d, _, _) ↦ rw t (write_more-append junk r (x ∷ xs) v d safe)
    ])
