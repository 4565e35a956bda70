-- ===== src/Ring/Valid.antt =====
-- The representation invariant of the ring buffer and the byte sequence that it stands for.
use native.Mathlib.Nat.{mod-eq_of_lt, mod-eq-sub-mod, div-add-mod'}
use native.Mathlib.Decide.{dec_lt}
use system_k_dev.Base.{
  ℕ, ◌+◌, ◌-◌, ◌%◌, ◌≤◌, ◌<◌, ◌≡◌, ◌∙◌, ◌⊎◌, true, false, List, arith, ltb, ◌==◌, if◌then◌else◌,
  tabulate, length, length-tabulate, ◌||◌, not, le→ltb, lt→ltb,
}
use system_k_dev.Base.Int.{ℤ, pos, negsuc}
use system_k_dev.Ring.{RingBuffer, init, data_end, round_up}

pub record IsValid (r : RingBuffer) : Type 0 where
  pub block : 0 < r.block_size
  pub fits : r.data_length ≤ r.buffer_length
  pub state :
      ((r.data_length ≡ 0) × (r.data_offset ≡ 0))
      ⊎ ((0 < r.data_length) × (r.data_offset < r.buffer_length) × (r.allocated ≡ true))
  pub null : (r.allocated ≡ true) ⊎ (r.buffer_length ≡ 0)

-- The address of the data byte with index `k`.
abbrev pub slot : (offset length k : ℕ) → ℕ
slot offset length k = if ltb (offset + k) length then offset + k else offset + k - length

-- The data bytes in order, oldest first.
abbrev pub contents : RingBuffer → List ℕ
contents r = tabulate (λ k. r.mem (slot r.data_offset r.buffer_length k)) 0 r.data_length

pub length-contents : (r : RingBuffer) → length (contents r) ≡ r.data_length
length-contents r = length-tabulate _ 0 r.data_length

-- The data lie in one piece.
abbrev pub IsContiguous : RingBuffer → Type 0
IsContiguous r = r.data_offset + r.data_length ≤ r.buffer_length

pub init-IsValid : (block : ℤ) → IsValid (init block)
unfolding init
init-IsValid (pos n) = ground arith
init-IsValid (negsuc n) = ground arith

pub mod_once : (a n : ℕ) → 0 < n → a < n + n → a % n ≡ (if ltb a n then a else a - n)
mod_once a n h lt = elim (dec_lt a n) [
  | yes p ↦ rw (lt→ltb _ _ p) (mod-eq_of_lt p)
  | no p ↦ rw (le→ltb a n (omega arith)) (
      mod-eq-sub-mod {n = a} {m = n} (omega arith) ∙ mod-eq_of_lt {n = a - n} {m = n} (omega arith))
]

-- The end of the data is the address of the byte that comes next.
pub data_end-slot :
    (r : RingBuffer)
    → r.data_offset < r.buffer_length
    → r.data_length ≤ r.buffer_length
    → data_end r ≡ slot r.data_offset r.buffer_length r.data_length
data_end-slot r h fits = mod_once _ _ (omega arith) (omega arith)

pub is_empty :
    (r : RingBuffer)
    → IsValid r
    → ((not r.allocated || r.data_length == 0) ≡ true) × (r.data_length ≡ 0) × (r.data_offset ≡ 0)
      ⊎ ((not r.allocated || r.data_length == 0) ≡ false)
        × (0 < r.data_length)
        × (r.data_offset < r.buffer_length)
        × (r.allocated ≡ true)
is_empty r v = ground arith

-- Rounding up to a multiple of the block size.
pub le-round_up : (n block : ℕ) → 0 < block → n ≤ round_up n block
le-round_up n block h = grind (arith, div-add-mod' (n + block - 1) block)
