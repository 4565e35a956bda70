-- ===== src/PriceDepth/Maps.antt =====
-- order_book/order_book.v1: std::map, as the book uses it. A map is the list of its pairs, in the
-- order of its comparison; two keys are the same when neither is before the other.
use system_k_dev.Base.{
  ℕ, ◌+◌, ◌≤◌, ◌≡◌, refl, Bool, true, false, ◌||◌, Option, none, some, List, [], ◌∷◌, ltb,
  if◌then◌else◌, length, arith,
}

abbrev pub StdMap {ℓ κ} : Type ℓ → Type κ → Type (ℓ ⊔ κ)
StdMap K V = List (K × V)

-- The comparison of std::string.
unfoldable pub string_lt : List ℕ → List ℕ → Bool
string_lt [] [] = false
string_lt [] (y ∷ ys) = true
string_lt (x ∷ xs) [] = false
string_lt (x ∷ xs) (y ∷ ys) =
    let rest = string_lt xs ys in if ltb x y then true else if ltb y x then false else rest

-- The last pair, and what is before it.
unfoldable pub pop_last {ℓ} : {A : Type ℓ} → List A → Option (List A × A)
pop_last [] = none
pop_last (x ∷ xs) = elim (pop_last xs) [ none ↦ some ([], x) | some (ys, y) ↦ some (x ∷ ys, y) ]

module _ {ℓ κ} {K : Type ℓ} {V : Type κ} (lt : K → K → Bool) where
  unfoldable pub find : K → StdMap K V → Option V
  find k [] = none
  find k ((x, v) ∷ m) = let rest = find k m in if lt k x || lt x k then rest else some v

  unfoldable pub has : K → StdMap K V → Bool
  unfolding find
  has k m = elim (find k m) [ none ↦ false | some v ↦ true ]

  -- `map[k] = v`, which keeps a key that is there.
  unfoldable pub assign : K → V → StdMap K V → StdMap K V
  assign k v [] = (k, v) ∷ []
  assign k v ((x, w) ∷ m) =
      let rest = assign k v m in
      if lt k x then (k, v) ∷ ((x, w) ∷ m) else if lt x k then (x, w) ∷ rest else (x, v) ∷ m

  unfoldable pub erase : K → StdMap K V → StdMap K V
  erase k [] = []
  erase k ((x, w) ∷ m) = let rest = erase k m in if lt k x || lt x k then (x, w) ∷ rest else m

  pub has-none : (k : K) (m : StdMap K V) → has k m ≡ false → find k m ≡ none
  unfolding has
  has-none k m h = ground (arith, h)

  pub has-some : (k : K) (v : V) (m : StdMap K V) → find k m ≡ some v → has k m ≡ true
  unfolding has
  has-some k v m h = rw (h, has) refl

  pub find-assign :
      (k : K) (v : V) (m : StdMap K V) → lt k k ≡ false → find k (assign k v m) ≡ some v
  unfolding find assign
  find-assign k v [] same = ground (arith, same)
  find-assign k v ((x, w) ∷ m) same = ground (arith, same, find-assign k v m same)

  pub erase-assign :
      (k : K) (v : V) (m : StdMap K V)
      → lt k k ≡ false
      → find k m ≡ none
      → erase k (assign k v m) ≡ m
  unfolding find assign erase
  erase-assign k v [] same fresh = ground (arith, same)
  erase-assign k v ((x, w) ∷ m) same fresh = ground (arith, same, fresh, erase-assign k v m same)

  pub length-assign : (k : K) (v : V) (m : StdMap K V) → length (assign k v m) ≤ 1 + length m
  unfolding assign
  length-assign k v [] = omega arith
  length-assign k v ((x, w) ∷ m) = ground (arith, length-assign k v m)

pub string_lt_irrefl : (s : List ℕ) → string_lt s s ≡ false
unfolding string_lt
string_lt_irrefl [] = refl
string_lt_irrefl (x ∷ xs) = ground (arith, string_lt_irrefl xs)
