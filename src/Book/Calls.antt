-- ===== src/Book/Calls.antt =====
-- The calls to a book, on the book and on the list of the orders at rest.
use system_k_dev.Base.{true, ℕ, ◌≡◌, ◌≢◌, Option, none, some, List, [], ◌∷◌, ◌++◌, ◌>>=◌}
use system_k_dev.Double.{DoubleOps}
use system_k_dev.Book.Limit.{Side, no_side, KOrder, Timespec}
use system_k_dev.Book.{KBook, add, remove, modify, clear}
use system_k_dev.Book.Orders.{drop_id, resize_id, find_id}
use system_k_dev.Book.Add.{order}

pub data Call (F : Type 0) : Type 0 where
  add_call : (id : ℕ) → Side → (size price : F) → (evt exch : Timespec) → Call F
  remove_call : (id : ℕ) → (evt exch : Timespec) → Call F
  modify_call : (id : ℕ) → (size : F) → (evt exch : Timespec) → Call F
  clear_call : Call F

module _ {F : Type 0} where
  -- What a call returns, with 0 for `clear`, and what it does to the orders at rest.
  unfoldable pub apply_orders : List (KOrder F) → Call F → ℕ × List (KOrder F)
  apply_orders os (add_call id side size price evt exch) =
      (1, os ++ (order id side size price ∷ []))
  apply_orders os (remove_call id evt exch) = elim (find_id id os) [
    | none ↦ (0, os)
    | some _ ↦ (1, drop_id id os)
  ]
  apply_orders os (modify_call id size evt exch) = elim (find_id id os) [
    | none ↦ (0, os)
    | some _ ↦ (1, resize_id id size os)
  ]
  apply_orders os clear_call = (0, [])

  unfoldable pub run_orders : List (KOrder F) → List (Call F) → List ℕ × List (KOrder F)
  run_orders os [] = ([], os)
  run_orders os (c ∷ cs) =
      let (ok, os') = apply_orders os c in let (oks, last) = run_orders os' cs in (ok ∷ oks, last)

module _ {F : Type 0} (d : DoubleOps F) where
  -- An order that is added has a side and an id that no order at rest has; and the sizes in calls
  -- can be converted to uint32_t.
  abbrev pub Fits : List (KOrder F) → Call F → Type 0
  Fits os (add_call id side size price evt exch) =
      (find_id id os ≡ none) × (side ≢ no_side) × (d.in_range size ≡ true)
  Fits os (remove_call id evt exch) = Unit {0}
  Fits os (modify_call id size evt exch) = d.in_range size ≡ true
  Fits os clear_call = Unit {0}

  unfoldable pub AllFit : List (KOrder F) → List (Call F) → Type 0
  AllFit os [] = Unit {0}
  AllFit os (c ∷ cs) = Fits os c × AllFit (apply_orders os c).1 cs

  unfoldable pub apply : KBook F → Call F → Option (ℕ × KBook F)
  apply b (add_call id side size price evt exch) = add d b id side size price evt exch
  apply b (remove_call id evt exch) = remove d b id evt exch
  apply b (modify_call id size evt exch) = modify d b id size evt exch
  apply b clear_call = some (0, clear b)

  unfoldable pub run : KBook F → List (Call F) → Option (List ℕ × KBook F)
  run b [] = some ([], b)
  run b (c ∷ cs) = do (ok, b') ← apply b c; (oks, last) ← run b' cs; some (ok ∷ oks, last)
