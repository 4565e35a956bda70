-- ===== src/Ring/Read.antt =====
-- `ReadData` and `PeekByte` against the data bytes in order.
use mathlib.Core.Path.{ap₂}
use native.Mathlib.Decide.{dec_lt}
use system_k_dev.Base.{
  ℕ, ◌+◌, ◌-◌, ◌≤◌, ◌<◌, ◌≡◌, sym, ◌∙◌, ap, List, [], ◌++◌, arith, ltb, if◌then◌else◌, tabulate,
  tabulate-eq, tabulate-append, length, get_or, take, drop, take-tabulate, drop-tabulate,
  get_or-tabulate, drop_all, take_all,
}
use system_k_dev.Ring.{Block, RingBuffer, peek_byte, read_some, read_data}
use system_k_dev.Ring.Valid.{IsValid, slot, contents, mod_once, length-contents}

-- The data in one piece, and in two.
module _ (m : Block) (offset len n : ℕ) where
  pub whole_piece :
      offset + n ≤ len → tabulate m offset n ≡ tabulate (λ k. m (slot offset len k)) 0 n
  whole_piece h = tabulate-eq _ _ offset 0 n λ k lt. ground arith

  pub two_pieces :
      len < offset + n
      → n ≤ len
      → offset < len
      → tabulate m offset (len - offset) ++ tabulate m 0 (n - (len - offset))
        ≡ tabulate (λ k. m (slot offset len k)) 0 n
  two_pieces h fits inside =
      let move = len - offset in
      let split : n ≡ move + (n - move) = omega arith in
      ap₂ ◌++◌ (tabulate-eq _ _ offset 0 move λ k lt. ground arith)
        (tabulate-eq m (λ k. m (slot offset len k)) 0 (0 + move) (n - move) λ k lt. ground arith)
      ∙ sym (tabulate-append _ 0 move (n - move))
      ∙ ap (tabulate (λ k. m (slot offset len k)) 0) (sym split)

module _ (r : RingBuffer) (n : ℕ) (v : IsValid r) (some_data : 0 < r.data_length)
    (enough : n ≤ r.data_length) where
  read_some-take : (read_some r n).0 ≡ take n (contents r)
  unfolding read_some
  read_some-take = ground (
    arith,
    take-tabulate (λ k. r.mem (slot r.data_offset r.buffer_length k)) 0 n r.data_length,
    whole_piece r.mem r.data_offset r.buffer_length n,
    two_pieces r.mem r.data_offset r.buffer_length n,
  )

  read_some-drop : contents (read_some r n).1 ≡ drop n (contents r)
  unfolding read_some
  read_some-drop =
      tabulate-eq _ (λ k. r.mem (slot r.data_offset r.buffer_length k)) 0 (0 + n)
        (r.data_length - n) (λ k lt. ground (arith, mod_once (r.data_offset + n) r.buffer_length))
      ∙ sym (drop-tabulate _ 0 n r.data_length)

  read_some-IsValid : IsValid (read_some r n).1
  unfolding read_some
  read_some-IsValid = ground (arith, mod_once (r.data_offset + n) r.buffer_length)

clamp-take :
    (n d : ℕ) (xs : List ℕ)
    → length xs ≡ d
    → let k : ℕ = if ltb d n then d else n in (take k xs ≡ take n xs) × (drop k xs ≡ drop n xs)
clamp-take n d xs e = ground (arith, take_all d xs, take_all n xs, drop_all d xs, drop_all n xs)

read_data_none : (r : RingBuffer) (n : ℕ) → r.data_length ≡ 0 → read_data r n ≡ ([], r)
unfolding read_data
read_data_none r n e = ground arith

read_data_some :
    (r : RingBuffer) (n : ℕ)
    → IsValid r
    → 0 < r.data_length
    → read_data r n ≡ read_some r (if ltb r.data_length n then r.data_length else n)
unfolding read_data
read_data_some r n v h = ground arith

-- Reading from a valid buffer returns its first `n` bytes, or all of them where there are fewer,
-- leaves the rest, and keeps the invariant.
pub read_data-take :
    (r : RingBuffer) (n : ℕ)
    → IsValid r
    → let (out, r') = read_data r n in
      (out ≡ take n (contents r)) × (contents r' ≡ drop n (contents r)) × IsValid r'
read_data-take r n v = elim (dec_lt 0 r.data_length) [
  | no h ↦
      let e : r.data_length ≡ 0 = omega arith in
      let c : contents r ≡ [] =
        ap (tabulate (λ k. r.mem (slot r.data_offset r.buffer_length k)) 0) e in
      let short : length (contents r) ≤ n = rw c (omega arith) in
      rw (read_data_none r n e) (sym (take_all n _ short ∙ c), c ∙ sym (drop_all n _ short), v)
  | yes h ↦
      let k : ℕ = if ltb r.data_length n then r.data_length else n in
      let le : k ≤ r.data_length = ground arith in
      let (t, d) = clamp-take n r.data_length (contents r) (length-contents r) in
      rw (read_data_some r n v h, ← t, ← d)
        (read_some-take r k v h le, read_some-drop r k v h le, read_some-IsValid r k v h le)
]

-- In a valid buffer the next byte is the oldest of the data, or zero where there is none.
pub peek_byte-contents : (r : RingBuffer) → IsValid r → peek_byte r ≡ get_or (contents r) 0 0
unfolding peek_byte
peek_byte-contents r v =
    ground (
      arith,
      get_or-tabulate (λ k. r.mem (slot r.data_offset r.buffer_length k)) 0 r.data_length 0 0,
    )

pub read_data-buffer_length :
    (r : RingBuffer) (n : ℕ) → (read_data r n).1.buffer_length ≡ r.buffer_length
unfolding read_data read_some
read_data-buffer_length r n = ground arith
