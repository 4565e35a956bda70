-- ===== src/Base/Lists.antt =====
-- Lists measured and indexed by native numbers, under the library's names.
use Prim.Native.Nat.{ℕ, zero, suc, ◌+◌, ◌-◌, ◌<◌, ◌≤◌, min}
use mathlib.Core.Path.{◌≡◌, refl, ap, ap₂, ◌∙◌}
use mathlib.Core.Logic.{◌⊎◌, inl, inr}
use mathlib.Core.List.{List, [], ◌∷◌, ◌++◌, map}
use native.Mathlib.Nat.{zero-add, suc-add, add-suc, add-zero, zero-sub, suc-sub-suc, suc-min-suc}
use native.Mathlib.Omega.{arith}

module _ {ℓ} {A : Type ℓ} where
  abbrev pub length : List A → ℕ
  length [] = 0
  length (x ∷ xs) = suc (length xs)

  abbrev pub get_or : List A → ℕ → A → A
  get_or [] i d = d
  get_or (x ∷ xs) zero d = x
  get_or (x ∷ xs) (suc i) d = get_or xs i d

  abbrev pub take : ℕ → List A → List A
  take zero xs = []
  take (suc n) [] = []
  take (suc n) (x ∷ xs) = x ∷ take n xs

  abbrev pub drop : ℕ → List A → List A
  drop zero xs = xs
  drop (suc n) [] = []
  drop (suc n) (x ∷ xs) = drop n xs

  abbrev pub replicate : ℕ → A → List A
  replicate zero a = []
  replicate (suc n) a = a ∷ replicate n a

module _ {ℓ} {A : Type ℓ} where
  pub length-append : (xs ys : List A) → length (xs ++ ys) ≡ length xs + length ys
  length-append [] ys = omega arith
  length-append (x ∷ xs) ys = omega (arith, length-append xs ys)

  pub length-take : (n : ℕ) (xs : List A) → length (take n xs) ≡ min n (length xs)
  length-take zero xs = omega arith
  length-take (suc n) [] = omega arith
  length-take (suc n) (x ∷ xs) = omega (arith, length-take n xs)

  pub length-drop : (n : ℕ) (xs : List A) → length (drop n xs) ≡ length xs - n
  length-drop zero xs = omega arith
  length-drop (suc n) [] = omega arith
  length-drop (suc n) (x ∷ xs) = omega (arith, length-drop n xs)

  pub length-replicate : (n : ℕ) (a : A) → length (replicate n a) ≡ n
  length-replicate zero a = refl
  length-replicate (suc n) a = ap suc (length-replicate n a)

  pub get_or-append :
      (xs ys : List A) (k : ℕ) (d : A) → k < length xs → get_or (xs ++ ys) k d ≡ get_or xs k d
  get_or-append [] ys k d h = absurd (omega arith)
  get_or-append (x ∷ xs) ys zero d h = refl
  get_or-append (x ∷ xs) ys (suc k) d h = get_or-append xs ys k d (omega arith)

  pub take-append : (xs ys : List A) → take (length xs) (xs ++ ys) ≡ xs
  take-append [] ys = refl
  take-append (x ∷ xs) ys = ap (◌∷◌ x) (take-append xs ys)

  pub drop-append : (xs ys : List A) → drop (length xs) (xs ++ ys) ≡ ys
  drop-append [] ys = refl
  drop-append (x ∷ xs) ys = drop-append xs ys

  pub drop-nil : (n : ℕ) → drop {A = A} n [] ≡ []
  drop-nil zero = refl
  drop-nil (suc n) = refl

  pub take_all : (n : ℕ) (xs : List A) → length xs ≤ n → take n xs ≡ xs
  take_all zero [] h = refl
  take_all zero (x ∷ xs) h = absurd (omega arith)
  take_all (suc n) [] h = refl
  take_all (suc n) (x ∷ xs) h = ap (◌∷◌ x) (take_all n xs (omega arith))

  pub take-append-drop : (n : ℕ) (xs : List A) → take n xs ++ drop n xs ≡ xs
  take-append-drop zero xs = refl
  take-append-drop (suc n) [] = refl
  take-append-drop (suc n) (x ∷ xs) = ap (◌∷◌ x) (take-append-drop n xs)

  pub take-take : (n m : ℕ) (xs : List A) → take m (take n xs) ≡ take (min n m) xs
  take-take zero zero xs = ground arith
  take-take zero (suc m) xs = ground arith
  take-take (suc n) zero xs = ground arith
  take-take (suc n) (suc m) [] = rw suc-min-suc
  take-take (suc n) (suc m) (x ∷ xs) = rw suc-min-suc (ap (◌∷◌ x) (take-take n m xs))

  pub drop_all : (n : ℕ) (xs : List A) → length xs ≤ n → drop n xs ≡ []
  drop_all zero [] h = refl
  drop_all zero (x ∷ xs) h = absurd (omega arith)
  drop_all (suc n) [] h = refl
  drop_all (suc n) (x ∷ xs) h = drop_all n xs (omega arith)

  pub drop-add : (m n : ℕ) (xs : List A) → drop (m + n) xs ≡ drop n (drop m xs)
  drop-add zero n xs = rw zero-add
  drop-add (suc m) n [] = rw (suc-add, drop-nil n)
  drop-add (suc m) n (x ∷ xs) = rw suc-add (drop-add m n xs)

  -- The list of `f i, f (i + 1), …`, `n` values.
  abbrev pub tabulate : (ℕ → A) → ℕ → ℕ → List A
  tabulate f i zero = []
  tabulate f i (suc n) = f i ∷ tabulate f (suc i) n

  pub length-tabulate : (f : ℕ → A) (i n : ℕ) → length (tabulate f i n) ≡ n
  length-tabulate f i zero = refl
  length-tabulate f i (suc n) = ap suc (length-tabulate f (suc i) n)

  -- Lists tabulated by functions that agree on the range are equal.
  pub tabulate-eq :
      (f g : ℕ → A) (i j n : ℕ)
      → ((k : ℕ) → k < n → f (i + k) ≡ g (j + k))
      → tabulate f i n ≡ tabulate g j n
  tabulate-eq f g i j zero h = refl
  tabulate-eq f g i j (suc n) h =
      ap₂ ◌∷◌ (first (h 0 (omega arith)))
        (tabulate-eq f g (suc i) (suc j) n λ k lt. later k (h (suc k) (omega arith)))
    where
      first : f (i + 0) ≡ g (j + 0) → f i ≡ g j
      first e = ground (arith, e)

      later : (k : ℕ) → f (i + suc k) ≡ g (j + suc k) → f (suc i + k) ≡ g (suc j + k)
      later k e = ground (arith, e)

  pub get_or-tabulate :
      (f : ℕ → A) (i n k : ℕ) (d : A) → k < n → get_or (tabulate f i n) k d ≡ f (i + k)
  get_or-tabulate f i zero k d h = absurd (omega arith)
  get_or-tabulate f i (suc n) zero d h = rw add-zero
  get_or-tabulate f i (suc n) (suc k) d h =
      rw (add-suc, ← suc-add) (get_or-tabulate f (suc i) n k d (omega arith))

  pub tabulate-append :
      (f : ℕ → A) (i m n : ℕ) → tabulate f i (m + n) ≡ tabulate f i m ++ tabulate f (i + m) n
  tabulate-append f i zero n = rw (zero-add, add-zero)
  tabulate-append f i (suc m) n =
      rw (suc-add, add-suc, ← suc-add) (ap (◌∷◌ (f i)) (tabulate-append f (suc i) m n))

  pub tabulate-get_or : (xs : List A) (d : A) → tabulate (λ i. get_or xs i d) 0 (length xs) ≡ xs
  tabulate-get_or [] d = refl
  tabulate-get_or (x ∷ xs) d =
      ap (◌∷◌ x) (
        tabulate-eq (λ i. get_or (x ∷ xs) i d) (λ i. get_or xs i d) 1 0 (length xs)
          λ k lt. ground arith)
      ∙ ap (◌∷◌ x) (tabulate-get_or xs d)

  pub take-tabulate : (f : ℕ → A) (i m n : ℕ) → m ≤ n → take m (tabulate f i n) ≡ tabulate f i m
  take-tabulate f i zero n h = refl
  take-tabulate f i (suc m) zero h = absurd (omega arith)
  take-tabulate f i (suc m) (suc n) h = ap (◌∷◌ (f i)) (take-tabulate f (suc i) m n (omega arith))

  pub drop-tabulate : (f : ℕ → A) (i m n : ℕ) → drop m (tabulate f i n) ≡ tabulate f (i + m) (n - m)
  drop-tabulate f i zero n = ground arith
  drop-tabulate f i (suc m) zero = rw zero-sub
  drop-tabulate f i (suc m) (suc n) =
      rw (suc-sub-suc, add-suc, ← suc-add) (drop-tabulate f (suc i) m n)

module _ {ℓ κ} {A : Type ℓ} {B : Type κ} where
  pub length-map : (xs : List A) (f : A → B) → length (map f xs) ≡ length xs
  length-map [] f = refl
  length-map (x ∷ xs) f = ap suc (length-map xs f)

pub List-cases {ℓ} : {A : Type ℓ} (l : List A) → (l ≡ []) ⊎ ((x : A) × (xs : List A) × (l ≡ x ∷ xs))
List-cases [] = inl refl
List-cases (x ∷ xs) = inr (x, xs, refl)

module _ {ℓ} {A : Type ℓ} where
  -- Behind the first `n` of a list, and before their end.
  pub drop-take-append : (n : ℕ) (b y : List A) → n ≤ length b → drop n (take n b ++ y) ≡ y
  drop-take-append zero b y h = refl
  drop-take-append (suc n) [] y h = absurd (omega arith)
  drop-take-append (suc n) (x ∷ b) y h = drop-take-append n b y (omega arith)

  take-take-append :
      (m n : ℕ) (b y : List A) → m ≤ n → n ≤ length b → take m (take n b ++ y) ≡ take m b
  take-take-append zero n b y h k = refl
  take-take-append (suc m) zero b y h k = absurd (omega arith)
  take-take-append (suc m) (suc n) [] y h k = absurd (omega arith)
  take-take-append (suc m) (suc n) (x ∷ b) y h k =
      ap (◌∷◌ x) (take-take-append m n b y (omega arith) (omega arith))

  pub take-drop-take :
      (i m n : ℕ) (b y : List A)
      → i + m ≤ n
      → n ≤ length b
      → take m (drop i (take n b ++ y)) ≡ take m (drop i b)
  take-drop-take zero m n b y h k = take-take-append m n b y (omega arith) k
  take-drop-take (suc i) m zero b y h k = absurd (omega arith)
  take-drop-take (suc i) m (suc n) [] y h k = absurd (omega arith)
  take-drop-take (suc i) m (suc n) (x ∷ b) y h k =
      take-drop-take i m n b y (omega arith) (omega arith)
