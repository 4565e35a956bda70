-- ===== src/Serializer/Table.antt =====
-- trade_serializer/schema.sql: the two tables as lists, for the examples.
use system_k_dev.Base.{
  ℕ, ◌≡◌, refl, sym, ◌∙◌, ap, ap₂, ◌&&◌, Option, none, some, List, [], ◌∷◌, ◌++◌, if◌then◌else◌,
  Bool-cases, inl, inr, and-true,
}
use system_k_dev.Route.{Bytes, bytes_eq}
use system_k_dev.Route.Spec.{bytes_eq-true}
use system_k_dev.OrderEntry.{UuidOps}
use system_k_dev.Serializer.{OrderRow, Sql, executed, refused, Connection, kept}
use system_k_dev.Serializer.Laws.{
  Recorded, Trade, recorded, trade_of, with_status, ConnectionLaws, Answers,
}

pub record Tables (F : Type 0) : Type 0 where
  pub rows : List (Bytes × Bytes × Recorded F)
  pub traded : List (Trade F)

module _ {F : Type 0} where
  abbrev pub find : (s o : Bytes) → List (Bytes × Bytes × Recorded F) → Option (Recorded F)
  find s o [] = none
  find s o ((k, l, q) ∷ rows) = if bytes_eq k s && bytes_eq l o then some q else find s o rows

  abbrev pub set_status :
      (st : ℕ) (a b : Bytes) → List (Bytes × Bytes × Recorded F) → List (Bytes × Bytes × Recorded F)
  set_status st a b [] = []
  set_status st a b ((k, l, q) ∷ rows) =
      (k, l, if bytes_eq a k && bytes_eq b l then record q { order_status = st } else q)
      ∷ set_status st a b rows

  -- A key that is there is refused.
  abbrev pub insert_row : OrderRow F → Tables F → Option (Recorded F) → Sql (Tables F)
  insert_row r d none =
      executed (record d { rows = (r.strategy_id, r.cl_order_id, recorded r) ∷ d.rows })
  insert_row r d (some q) = refused d

  abbrev pub changed : Option (Recorded F) → ℕ
  changed none = 0
  changed (some q) = 1

  abbrev pub tables : Connection (Tables F) F
  tables = record {
    insert_order = λ r d. insert_row r d (find r.strategy_id r.cl_order_id d.rows);
    update_status = λ st a b d.
        executed (changed (find a b d.rows), record d { rows = set_status st a b d.rows });
    insert_trade = λ r d. executed (record d { traded = d.traded ++ (trade_of r ∷ []) });
  }

  find-set_status :
      (st : ℕ) (a b s o : Bytes) (rows : List (Bytes × Bytes × Recorded F))
      → find s o (set_status st a b rows)
        ≡ (if bytes_eq a s && bytes_eq b o then with_status st (find s o rows) else find s o rows)
  find-set_status st a b s o [] = elim (Bool-cases (bytes_eq a s && bytes_eq b o)) [
    | inl h ↦ rw h refl
    | inr h ↦ rw h refl
  ]
  find-set_status st a b s o ((k, l, q) ∷ rows) = elim (Bool-cases (bytes_eq k s && bytes_eq l o)) [
    | inr other ↦ rw other (find-set_status st a b s o rows)
    | inl here ↦
        let (x, y) = and-true (bytes_eq k s) _ here in
        rw (here, bytes_eq-true k s x, bytes_eq-true l o y)
          (elim (Bool-cases (bytes_eq a s && bytes_eq b o)) [
            | inl h ↦ rw h refl
            | inr h ↦ rw h refl
          ])
  ]

  -- An insertion that was executed.
  insert_row-executed :
      (r : OrderRow F) (d d' : Tables F) (x : Option (Recorded F))
      → insert_row r d x ≡ executed d'
      → (x ≡ none) × (d' ≡ record d { rows = (r.strategy_id, r.cl_order_id, recorded r) ∷ d.rows })
  unfolding kept
  insert_row-executed r d d' none e = (refl, sym (ap (λ t. kept t d) e))
  insert_row-executed r d d' (some q) e = cc

  module _ (u : UuidOps) where
    pub tables-laws : ConnectionLaws tables u
    unfolding kept
    tables-laws = record {
      order_at = λ d s o. find (u.unparse s) (u.unparse o) d.rows;
      trades = λ d. d.traded;
      insert_order-at = λ r s o s' o' d d' e1 e2 e.
          ap (λ t. find (u.unparse s') (u.unparse o') t.rows) (insert_row-executed r d d' _ e).1
          ∙ ap₂
              (λ x y.
                if bytes_eq x (u.unparse s') && bytes_eq y (u.unparse o')
                then some (recorded r)
                else find (u.unparse s') (u.unparse o') d.rows)
              e1 e2;
      insert_order-trades = λ r d d' e. ap (λ t. t.traded) (insert_row-executed r d d' _ e).1;
      update_status-at = λ st n s o s' o' d d' e.
          ap (λ t. find (u.unparse s') (u.unparse o') (kept {A = ℕ × Tables F} t (0, d)).1.rows)
            (sym e)
          ∙ find-set_status st (u.unparse s) (u.unparse o) (u.unparse s') (u.unparse o') d.rows;
      update_status-trades =
          λ st n x y d d' e. ap (λ t. (kept {A = ℕ × Tables F} t (0, d)).1.traded) (sym e);
      insert_trade-at = λ r s o d d' e.
          ap (λ t. find (u.unparse s) (u.unparse o) (kept {A = Tables F} t d).rows) (sym e);
      insert_trade-trades = λ r d d' e. ap (λ t. (kept {A = Tables F} t d).traded) (sym e);
    }

    -- `order_at` of the laws.
    pub tables-at :
        (d : Tables F) (s o : Bytes)
        → tables-laws.order_at d s o ≡ find (u.unparse s) (u.unparse o) d.rows
    unfolding tables-laws
    tables-at d s o = refl

    pub tables-answer : Answers tables u tables-laws
    unfolding tables-laws
    tables-answer = record {
      insert_order = λ r s o d e1 e2 free.
          (_, ap (insert_row r d) (ap₂ (λ x y. find x y d.rows) e1 e2 ∙ free));
      update_status = λ st x y d. (_, _, refl);
      insert_trade = λ r d. (_, refl);
    }
