-- ===== src/Ring/Write.antt =====
-- `WriteData` where the bytes fit in the block: they are appended to the data.
use native.Mathlib.Nat.{zero-add}
use mathlib.Core.Path.{ap₂}
use system_k_dev.Base.{
  ℕ, ◌+◌, ◌-◌, ◌≤◌, ◌<◌, ◌≡◌, refl, sym, ◌∙◌, List, ◌++◌, some, arith, ltb, if◌then◌else◌, tabulate,
  tabulate-eq, tabulate-append, tabulate-get_or, length,
}
use system_k_dev.Ring.{Block, RingBuffer, copy, source, data_end, store}
use system_k_dev.Ring.Valid.{IsValid, slot, contents, data_end-slot}

-- The block after `store` has copied `n` bytes behind the data.
abbrev filled : (m : Block) (offset end len n : ℕ) (src : ℕ → ℕ) → Block
filled m offset end len n src =
    let move = if ltb (len - end) n then len - end else n in
    let tail = copy m end move src in
    if ltb offset end
    then (if ltb move n then copy tail 0 (n - move) (λ i. src (move + i)) else tail)
    else copy m end n src

module _ (m : Block) (offset end len d n : ℕ) (src : ℕ → ℕ) (at : end ≡ slot offset len d)
    (some_data : 0 < d) (inside : offset < len) (room : d + n ≤ len) where
  filled_old :
      (k : ℕ) → k < d → filled m offset end len n src (slot offset len k) ≡ m (slot offset len k)
  filled_old k h = ground arith

  filled_new : (k : ℕ) → k < n → filled m offset end len n src (slot offset len (d + k)) ≡ src k
  filled_new k h = ground arith

  filled_contents :
      (xs : List ℕ)
      → length xs ≡ n
      → ((k : ℕ) → source xs k ≡ src k)
      → tabulate (λ k. filled m offset end len n src (slot offset len k)) 0 (d + n)
        ≡ tabulate (λ k. m (slot offset len k)) 0 d ++ xs
  filled_contents xs size same =
      rw (tabulate-append, zero-add)
        (ap₂ ◌++◌ (tabulate-eq _ _ 0 0 d λ k h. rw zero-add (filled_old k h)) (
          tabulate-eq _ (source xs) d 0 n (λ k h. rw (filled_new k h, zero-add) (sym (same k)))
          ∙ rw (← size) (tabulate-get_or xs 0)))

abbrev stored : RingBuffer → List ℕ → RingBuffer
stored r xs = record r {
  mem = filled r.mem r.data_offset (data_end r) r.buffer_length (length xs) (source xs);
  data_length = r.data_length + length xs;
}

module _ (r : RingBuffer) (xs : List ℕ) (v : IsValid r) (some_data : 0 < r.data_length)
    (room : r.data_length + length xs ≤ r.buffer_length) where
  store-eq : store r xs ≡ some (stored r xs)
  unfolding store
  store-eq = ground (arith, data_end-slot r)

  -- Storing bytes that fit appends them to the data.
  pub store-append :
      (r' : RingBuffer) × (store r xs ≡ some r')
      × IsValid r'
      × (contents r' ≡ contents r ++ xs)
      × (r'.buffer_length ≡ r.buffer_length)
  store-append = (
    stored r xs,
    store-eq,
    ground arith,
    filled_contents r.mem r.data_offset (data_end r) r.buffer_length r.data_length (length xs)
        (source xs) (data_end-slot r (ground arith) v.fits) some_data (ground arith) room xs refl
        (λ k. refl),
    refl,
  )
