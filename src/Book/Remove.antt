-- ===== src/Book/Remove.antt =====
-- `KBook::remove` on a valid book.
use mathlib.Core.Option.{some-injective}
use system_k_dev.Base.{
  ℕ, ◌≡◌, ◌≢◌, refl, ◌∙◌, sym, ◌&&◌, none, some, ◌==◌, if◌then◌else◌, subst, Option-cases, inl, inr,
}
use system_k_dev.Double.{DoubleOps, DoubleLaws}
use system_k_dev.Book.Limit.{Side, no_side, KOrder, Timespec}
use system_k_dev.Book.{KBook, remove, get_order}
use system_k_dev.Book.Tree.{limit_at}
use system_k_dev.Book.Orders.{drop_id}
use system_k_dev.Book.Valid.{Listed, IsValid, tree_of, level}
use system_k_dev.Book.Insert.{same_side}
use system_k_dev.Book.Withdraw.{
  limit_of_found, absurd_none, removed, shrunk_at, remove-removed, removed-IsValid, level-removed,
  get_order-removed,
}

pub entry_of :
    {F : Type 0} (b : KBook F) (id : ℕ) (o : KOrder F)
    → get_order b id ≡ some o
    → (a : ℕ) × (b.order_map id ≡ some a) × (b.heap a ≡ o)
unfolding get_order
entry_of b id o e = elim (Option-cases (b.order_map id)) [
  | inl none_there ↦ absurd_none (sym (rw (none_there, get_order)) ∙ e)
  | inr (a, there) ↦ (a, there, some-injective _ _ (sym (rw (there, get_order)) ∙ e))
]

module _ {F : Type 0} {d : DoubleOps F} (laws : DoubleLaws d) (b : KBook F) where
  open laws use {rank}

  -- What `remove` leaves behind when the id stands for the order `o`.
  pub record Removed (id : ℕ) (o : KOrder F) (b' : KBook F) : Type 0 where
    pub valid : IsValid laws b'
    pub levels :
        (s : Side) (k : ℕ)
        → level laws b' s k ≡ (
            if same_side o.buy_sell s && (rank o.price == k)
            then drop_id id (level laws b s k)
            else level laws b s k)
    pub orders : (j : ℕ) → get_order b' j ≡ (if id == j then none else get_order b j)

  -- A listed order rests on a side.
  pub has_side : (id a : ℕ) → Listed laws b id a → (b.heap a).buy_sell ≢ no_side
  unfolding limit_at
  has_side id a l e =
      let (l', at, _) = limit_of_found b.heap _ id a l.found in
      absurd_none
        (subst (λ s. limit_at laws (tree_of laws b s) (rank (b.heap a).price) ≡ some l') e at)

  remove_entry :
      (id a : ℕ) (evt exch : Timespec)
      → IsValid laws b
      → b.order_map id ≡ some a
      → (b' : KBook F) × (remove d b id evt exch ≡ some (1, b')) × Removed id (b.heap a) b'
  remove_entry id a evt exch v entry =
      let listed = v.lists id a entry in
      let (l, at, found) = limit_of_found b.heap _ id a listed.found in
      let side = (b.heap a).buy_sell in
      (
        removed laws b v id a evt exch entry side
            (shrunk_at laws b v id a evt exch entry l side at found),
        remove-removed laws b v id a evt exch entry l side at found refl,
        record {
          valid = removed-IsValid laws b v id a evt exch entry l side at found refl;
          levels = λ s k. level-removed laws b v id a evt exch entry l side s k at found;
          orders =
              λ j. get_order-removed laws b v id a evt exch entry l side _ j (has_side id a listed);
        },
      )

  -- Removing a listed order from a valid book meets no undefined behaviour and no failed
  -- assertion, returns 1, keeps the book valid, takes the order out of its level with the others
  -- in place, leaves every other level alone, and makes the id stand for no order.
  pub remove_present :
      (id : ℕ) (o : KOrder F) (evt exch : Timespec)
      → IsValid laws b
      → get_order b id ≡ some o
      → (b' : KBook F) × (remove d b id evt exch ≡ some (1, b')) × Removed id o b'
  remove_present id o evt exch v e =
      let (a, entry, here) = entry_of b id o e in
      subst
        (λ (x : KOrder F).
          (b' : KBook F) × (remove d b id evt exch ≡ some (1, b')) × Removed id x b')
        here (remove_entry id a evt exch v entry)

  -- An id that stands for no order makes `remove` return 0 and record the send time only.
  pub remove_absent :
      (id : ℕ) (evt exch : Timespec)
      → b.order_map id ≡ none
      → remove d b id evt exch ≡ some (0, record b { exch_snd_time = some exch })
  unfolding remove
  remove_absent id evt exch e = rw (e, remove)
