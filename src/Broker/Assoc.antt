-- ===== src/Broker/Assoc.antt =====
-- order_entry/order-fix/msg_cache.h: a list of pairs that behaves as the hash map is documented to,
-- for the examples.
use system_k_dev.Base.{
  ℕ, zero, suc, ◌≡◌, refl, ◌∙◌, ap, subst, Bool, true, false, not, ◌&&◌, Option, none, some, List,
  [], ◌∷◌, ◌++◌, if◌then◌else◌, length, arith, Bool-cases, inl, inr, and-true, true-and,
}
use system_k_dev.Route.{Bytes, bytes_eq}
use system_k_dev.Route.Spec.{bytes_eq-true, bytes_eq_self}
use system_k_dev.Broker.Maps.{MapOps, MapLaws, is_id}

abbrev pub Assoc : Type 0 → Type 0
Assoc V = List (Bytes × V)

not_eq : (x k : Bytes) → bytes_eq x k ≡ false → bytes_eq k x ≡ false
not_eq x k h = elim (Bool-cases (bytes_eq k x)) [
  | inr b ↦ b
  | inl b ↦ let e : bytes_eq x k ≡ true = rw (bytes_eq-true k x b) (bytes_eq_self x) in cc
]

module _ {V : Type 0} where
  abbrev pub lookup : Bytes → Assoc V → Option V
  lookup k [] = none
  lookup k ((x, v) ∷ m) = if bytes_eq x k then some v else lookup k m

  abbrev pub put : Bytes → V → Assoc V → Assoc V
  put k v [] = (k, v) ∷ []
  put k v ((x, w) ∷ m) = let rest = put k v m in if bytes_eq x k then (x, v) ∷ m else (x, w) ∷ rest

  abbrev is_some : Option V → Bool
  is_some none = false
  is_some (some v) = true

  abbrev pub bytes_of : (Bytes × V → Bytes) → Assoc V → Bytes
  bytes_of w [] = []
  bytes_of w (p ∷ m) = w p ++ bytes_of w m

  abbrev pub load : (Bytes → Option ((Bytes × V) × Bytes)) → ℕ → Bytes → Bool × Assoc V
  load r zero file = (true, [])
  load r (suc n) file = elim (r file) [
    | none ↦ (false, [])
    | some (p, rest) ↦ let (ok, m) = load r n rest in (ok, p ∷ m)
  ]

  -- The number of pairs stands first in the file.
  abbrev pub load_file : (Bytes → Option ((Bytes × V) × Bytes)) → Bytes → Bool × Assoc V
  load_file r [] = (false, [])
  load_file r (n ∷ file) = load r n file

  abbrev pub assoc : MapOps (Assoc V) V
  assoc = record {
    new = λ e d. [];
    find = λ k m. lookup k m;
    insert = λ k v m. put k v m;
    serialize = λ w m. length m ∷ bytes_of w m;
    unserialize = λ r file m. load_file r file;
  }

  lookup-put :
      (k j : Bytes) (v : V) (m : Assoc V)
      → lookup j (put k v m) ≡ (if bytes_eq k j then some v else lookup j m)
  lookup-put k j v [] = refl
  lookup-put k j v ((x, w) ∷ m) = elim (Bool-cases (bytes_eq x k)) [
    | inl same ↦ rw (bytes_eq-true x k same) (rw (bytes_eq_self k) (ground arith))
    | inr other ↦ rw other (
        rw (lookup-put k j v m) (elim (Bool-cases (bytes_eq x j)) [
          | inr b ↦ rw b refl
          | inl a ↦ elim (Bool-cases (bytes_eq k j)) [
            | inr c ↦ rw c refl
            | inl c ↦
                let e : bytes_eq x k ≡ true =
                  rw (bytes_eq-true x j a, ← bytes_eq-true k j c) (bytes_eq_self k) in
                cc
          ]
        ]))
  ]

  module _ (c : ℕ) where
    -- The keys are ids, each of them once.
    abbrev pub is_legal : Assoc V → Bool
    is_legal [] = true
    is_legal ((x, v) ∷ m) = is_id c x && (not (is_some (lookup x m)) && is_legal m)

    is_legal-put :
        (k : Bytes) (v : V) (m : Assoc V)
        → is_legal m ≡ true
        → is_id c k ≡ true
        → is_legal (put k v m) ≡ true
    is_legal-put k v [] h i = rw i refl
    is_legal-put k v ((x, w) ∷ m) h i = elim (Bool-cases (bytes_eq x k)) [
      | inl same ↦ rw same h
      | inr other ↦
          let (ix, hs) = and-true (is_id c x) _ h in
          let (new, legal) = and-true (not (is_some (lookup x m))) (is_legal m) hs in
          let apart : bytes_eq k x ≡ false = not_eq x k other in
          let fresh : not (is_some (lookup x (put k v m))) ≡ true =
            rw (lookup-put k x v m, apart) new in
          rw other (
            true-and (is_id c x) _ ix (
              true-and (not (is_some (lookup x (put k v m)))) (is_legal (put k v m)) fresh
                (is_legal-put k v m legal i)))
    ]

    -- The pairs that a reader brings back.
    Reads : (w : Bytes × V → Bytes) (r : Bytes → Option ((Bytes × V) × Bytes)) → Assoc V → Type 0
    Reads w r [] = Unit
    Reads w r (p ∷ m) = ((rest : Bytes) → r (w p ++ rest) ≡ some (p, rest)) × Reads w r m

    load-bytes_of :
        (w : Bytes × V → Bytes) (r : Bytes → Option ((Bytes × V) × Bytes)) (m : Assoc V)
        → Reads w r m
        → load r (length m) (bytes_of w m) ≡ (true, m)
    unfolding Reads
    load-bytes_of w r [] h = refl
    load-bytes_of w r (p ∷ m) (h, hs) = rw (h (bytes_of w m)) (rw (load-bytes_of w r m hs) refl)

    all_read :
        (w : Bytes × V → Bytes) (r : Bytes → Option ((Bytes × V) × Bytes)) (m : Assoc V)
        → is_legal m ≡ true
        → ((k : Bytes) (v : V) (rest : Bytes)
            → is_id c k ≡ true
            → lookup k m ≡ some v
            → r (w (k, v) ++ rest) ≡ some ((k, v), rest))
        → Reads w r m
    unfolding Reads
    all_read w r [] h back = tt
    all_read w r ((x, v) ∷ m) h back =
        let (ix, hs) = and-true (is_id c x) _ h in
        let (new, legal) = and-true (not (is_some (lookup x m))) (is_legal m) hs in
        (
          λ rest. back x v rest ix (rw (bytes_eq_self x) refl),
          all_read w r m legal λ k u rest i found.
              back k u rest i (elim (Bool-cases (bytes_eq x k)) [
                | inr b ↦ rw b found
                | inl b ↦
                    let twice : not (is_some (lookup k m)) ≡ true =
                      subst (λ y. not (is_some (lookup y m)) ≡ true) (bytes_eq-true x k b) new in
                    let none_there : not (is_some (some u)) ≡ true =
                      subst (λ o. not (is_some o) ≡ true) found twice in
                    cc
              ]),
        )

    pub assoc-laws : MapLaws assoc c
    assoc-laws = record {
      legal = λ m. is_legal m;
      legal-new = refl;
      legal-insert = is_legal-put;
      find-new = λ k i. refl;
      find-insert = λ k j v m h i l. lookup-put k j v m;
      unserialize-serialize = λ w r m m' h back.
          let same : (load_file r (length m ∷ bytes_of w m)).1 ≡ m =
            ap (λ p. p.1) (load-bytes_of w r m (all_read w r m h back)) in
          (ap is_legal same ∙ h, λ k i. ap (lookup k) same);
    }
