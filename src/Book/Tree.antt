-- ===== src/Book/Tree.antt =====
-- A tree of limits as a map from price ranks: what find, insert, write and erase do to it.
use system_k_dev.Base.{
  ℕ, suc, ◌≤◌, ◌<◌, ◌≡◌, refl, Option, none, some, List, [], ◌∷◌, ◌==◌, if◌then◌else◌, arith,
}
use system_k_dev.Double.{DoubleOps, DoubleLaws}
use system_k_dev.Book.Limit.{KLimit}
use system_k_dev.Book.{equiv, find_limit, put_limit, insert_limit, erase_limit}

module _ {F : Type 0} {d : DoubleOps F} (laws : DoubleLaws d) where
  open laws use {rank, lt_rank}

  equiv-rank : (x y : F) → equiv d x y ≡ (rank x == rank y)
  equiv-rank x y = rw (lt_rank x y, lt_rank y x) (ground arith)

  -- The limit whose price has the rank.
  unfoldable pub limit_at : List (KLimit F) → ℕ → Option (KLimit F)
  limit_at [] k = none
  limit_at (l ∷ t) k = if rank l.price == k then some l else limit_at t k

  -- Prices ascend strictly, from the rank `lo` on.
  abbrev pub Ascending : ℕ → List (KLimit F) → Type 0
  Ascending lo [] = Unit {0}
  Ascending lo (l ∷ t) = (lo ≤ rank l.price) × Ascending (suc (rank l.price)) t

  pub find_limit-limit_at :
      (t : List (KLimit F)) (price : F) → find_limit d t price ≡ limit_at t (rank price)
  unfolding find_limit limit_at
  find_limit-limit_at [] price = refl
  find_limit-limit_at (l ∷ t) price = rw (equiv-rank l.price price, find_limit-limit_at t price)

  pub limit_at_below :
      (t : List (KLimit F)) (lo k : ℕ) → Ascending lo t → k < lo → limit_at t k ≡ none
  unfolding limit_at
  limit_at_below [] lo k s h = refl
  limit_at_below (l ∷ t) lo k s h = ground (arith, limit_at_below t (suc (rank l.price)) k s.1)

  pub rank_of_limit_at :
      (t : List (KLimit F)) (k : ℕ) (l : KLimit F) → limit_at t k ≡ some l → rank l.price ≡ k
  unfolding limit_at
  rank_of_limit_at [] k l e = cc
  rank_of_limit_at (m ∷ t) k l e = ground (arith, rank_of_limit_at t k l)

  module _ (price : F) (m : KLimit F) (same : rank m.price ≡ rank price) where
    pub limit_at-put_limit :
        (t : List (KLimit F)) (k : ℕ)
        → limit_at (put_limit d t price m) k ≡ (
            if rank price == k
            then elim (limit_at t k) [ none ↦ none | some _ ↦ some m ]
            else limit_at t k)
    unfolding limit_at put_limit
    limit_at-put_limit [] k = ground arith
    limit_at-put_limit (l ∷ t) k =
        rw (equiv-rank l.price price) (ground (arith, limit_at-put_limit t k))

    pub put_limit-Ascending :
        (t : List (KLimit F)) (lo : ℕ) → Ascending lo t → Ascending lo (put_limit d t price m)
    unfolding put_limit
    put_limit-Ascending [] lo s = tt
    put_limit-Ascending (l ∷ t) lo s =
        rw (equiv-rank l.price price)
          (ground (arith, put_limit-Ascending t (suc (rank l.price)) s.1))

  Ascending-mono : (t : List (KLimit F)) {lo hi : ℕ} → lo ≤ hi → Ascending hi t → Ascending lo t
  Ascending-mono [] h s = tt
  Ascending-mono (l ∷ t) h s = (omega arith, s.1)

  module _ (m : KLimit F) where
    pub limit_at-insert_limit :
        (t : List (KLimit F)) (k : ℕ)
        → limit_at t (rank m.price) ≡ none
        → limit_at (insert_limit d t m) k ≡ (if rank m.price == k then some m else limit_at t k)
    unfolding limit_at insert_limit
    limit_at-insert_limit [] k e = refl
    limit_at-insert_limit (l ∷ t) k e =
        rw (lt_rank m.price l.price, lt_rank l.price m.price)
          (ground (arith, limit_at-insert_limit t k))

    pub insert_limit-Ascending :
        (t : List (KLimit F)) (lo : ℕ)
        → lo ≤ rank m.price
        → Ascending lo t
        → Ascending lo (insert_limit d t m)
    unfolding insert_limit
    insert_limit-Ascending [] lo h s = (h, tt)
    insert_limit-Ascending (l ∷ t) lo h s =
        rw (lt_rank m.price l.price, lt_rank l.price m.price)
          (ground (arith, insert_limit-Ascending t (suc (rank l.price))))

  module _ (price : F) where
    pub limit_at-erase_limit :
        (t : List (KLimit F)) (lo k : ℕ)
        → Ascending lo t
        → limit_at (erase_limit d t price) k ≡ (if rank price == k then none else limit_at t k)
    unfolding limit_at erase_limit
    limit_at-erase_limit [] lo k s = ground arith
    limit_at-erase_limit (l ∷ t) lo k s = rw (equiv-rank l.price price) (
        ground (
          arith,
          limit_at-erase_limit t (suc (rank l.price)) k s.1,
          limit_at_below t (suc (rank l.price)) k s.1,
        ))

    pub erase_limit-Ascending :
        (t : List (KLimit F)) (lo : ℕ) → Ascending lo t → Ascending lo (erase_limit d t price)
    unfolding erase_limit
    erase_limit-Ascending [] lo s = tt
    erase_limit-Ascending (l ∷ t) lo s = rw (equiv-rank l.price price) (
        ground (
          arith,
          erase_limit-Ascending t (suc (rank l.price)) s.1,
          Ascending-mono t {lo = lo} {hi = suc (rank l.price)},
        ))
