-- ===== src/Serializer/Statuses.antt =====
-- trade_serializer/trade_serializer.cpp: what a report changes in the two tables, status by status.
use mathlib.Core.List.{append-nil}
use system_k_dev.Base.{
  ℕ, ◌≡◌, ◌||◌, refl, sym, ◌∙◌, ap, Bool, true, false, Option, none, some, List, [], ◌∷◌, ◌++◌,
  ◌==◌, if◌then◌else◌, arith,
}
use system_k_dev.Book.Limit.{Timespec}
use system_k_dev.Route.{Bytes}
use system_k_dev.Broker.Turns.{Turn, done, ◌>>=◌}
use system_k_dev.Broker.{set_id}
use system_k_dev.OrderEntry.{bid, no_id, UuidOps, ExecReport, Codec}
use system_k_dev.Serializer.{
  OrderRow, Connection, kept, or_default, side_number, char_int, ord_status_new,
  ord_status_pending_cancel, ord_status_pending_replace, ord_status_pending_new, ord_status_replace,
  ord_status_cancelled, ord_status_rejected, ord_status_fill, ord_status_partial_fill, insert_trade,
  insert_replaced, update_order, set_order_status,
}
use system_k_dev.Serializer.Laws.{
  Recorded, Trade, same_key, with_status, recorded, ConnectionLaws, Answers,
}
use system_k_dev.Serializer.Rejected.{set_order_status-done}
use system_k_dev.Serializer.Filled.{traded}

module _ {D F : Type 0} (sql : Connection D F) (u : UuidOps) (c : Codec F) (zero : F)
    (laws : ConnectionLaws sql u) (answers : Answers sql u laws) where
  -- order_state, by the two ids of a row.
  abbrev pub Rows : Type 0
  Rows = (s o : Bytes) → Option (Recorded F)

  abbrev pub put_at : (sid oid : Bytes) → Recorded F → Rows → Rows
  put_at sid oid r rows s o = if same_key u sid oid s o then some r else rows s o

  abbrev pub set_at : (sid oid : Bytes) → (status : ℕ) → Rows → Rows
  set_at sid oid st rows s o =
      if same_key u sid oid s o then with_status st (rows s o) else rows s o

  -- The id of the report, and its original id, the zero one where there is none.
  abbrev pub own_id : ExecReport F → Bytes
  own_id er = set_id (or_default [] er.cl_order_id)

  abbrev pub original_id : ExecReport F → Bytes
  original_id er = elim er.orig_cl_order_id [ none ↦ no_id | some id ↦ set_id id ]

  abbrev pub terms : ExecReport F → Recorded F
  terms er = record {
    order_status = ord_status_new;
    side = side_number (or_default bid er.side);
    order_qty = or_default zero er.order_qty;
    price = or_default zero er.price;
  }

  abbrev pub trade : ExecReport F → Trade F
  trade er = record {
    order_status = char_int (or_default 0 er.order_status);
    last_shares = or_default zero er.last_shares;
    last_price = or_default zero er.last_price;
  }

  -- Statuses that change nothing.
  abbrev pub is_quiet : ℕ → Bool
  is_quiet st =
      (st == ord_status_new)
      || ((st == ord_status_pending_cancel)
          || ((st == ord_status_pending_replace) || (st == ord_status_pending_new)))

  -- order_state after a report with the status: the order that replaces another is put in with the
  -- terms of the report and the replaced one is cancelled; a cancel and a rejection are of the
  -- original id, a fill is of the report's own.
  abbrev pub rows_after : (status : ℕ) → Bytes → ExecReport F → Rows → Rows
  rows_after st sid er rows s o =
      if is_quiet st
      then rows s o
      else if st == ord_status_replace
      then set_at sid (original_id er) ord_status_cancelled (put_at sid (own_id er) (terms er) rows)
          s o
      else if (st == ord_status_cancelled) || (st == ord_status_rejected)
      then set_at sid (original_id er) st rows s o
      else if st == ord_status_fill
      then set_at sid (own_id er) st rows s o
      else rows s o

  -- A trade is recorded for a fill and for a part of one.
  abbrev pub trades_after : (status : ℕ) → ExecReport F → List (Trade F)
  trades_after st er =
      if (st == ord_status_fill) || (st == ord_status_partial_fill) then trade er ∷ [] else []

  -- The call is done, and leaves these rows and these trades more.
  abbrev pub Leaves : D → Turn D → Rows → List (Trade F) → Type 0
  Leaves d t rows more =
      (d' : D) × (t ≡ done d')
      × ((s o : Bytes) → laws.order_at d' s o ≡ rows s o)
      × (laws.trades d' ≡ laws.trades d ++ more)

  Leaves-if :
      (d : D) (b : Bool) (t1 t2 : Turn D) (r1 r2 : Rows) (m1 m2 : List (Trade F))
      → (b ≡ true → Leaves d t1 r1 m1)
      → (b ≡ false → Leaves d t2 r2 m2)
      → Leaves d (if b then t1 else t2) (λ s o. if b then r1 s o else r2 s o) (if b then m1 else m2)
  Leaves-if d true t1 t2 r1 r2 m1 m2 x y = x refl
  Leaves-if d false t1 t2 r1 r2 m1 m2 x y = y refl

  nothing_done : (d : D) → Leaves d (done d) (laws.order_at d) []
  nothing_done d = (d, refl, λ s o. refl, sym (append-nil (laws.trades d)))

  -- The statements.
  put :
      (r : OrderRow F) (sid oid : Bytes) (d : D)
      → r.strategy_id ≡ u.unparse sid
      → r.cl_order_id ≡ u.unparse oid
      → laws.order_at d sid oid ≡ none
      → ((s o : Bytes)
          → laws.order_at (kept (sql.insert_order r d) d) s o
            ≡ put_at sid oid (recorded r) (laws.order_at d) s o)
        × (laws.trades (kept (sql.insert_order r d) d) ≡ laws.trades d)
  unfolding kept
  put r sid oid d e1 e2 free =
      let (d', e) = answers.insert_order r sid oid d e1 e2 free in
      let made : kept (sql.insert_order r d) d ≡ d' = ap (λ x. kept x d) e in
      (
        λ s o. ap (λ x. laws.order_at x s o) made ∙ laws.insert_order-at r sid oid s o d d' e1 e2 e,
        ap laws.trades made ∙ laws.insert_order-trades r d d' e,
      )

  with_trade :
      (now : Timespec) (sid : Bytes) (er : ExecReport F) (d : D)
      → ((s o : Bytes)
          → laws.order_at (insert_trade sql u c zero now sid er d) s o ≡ laws.order_at d s o)
        × (laws.trades (insert_trade sql u c zero now sid er d) ≡ laws.trades d ++ (trade er ∷ []))
  unfolding insert_trade
  with_trade now sid er d = (
    λ s o. (traded sql u c zero laws answers _ s o d).0,
    (traded sql u c zero laws answers _ sid sid d).1,
  )

  -- A status that is set, and what is done to the trades then.
  status_set :
      (sid oid : Bytes) (st : ℕ) (d : D) (g : D → D) (more : List (Trade F))
      → ((x : D)
          → ((s o : Bytes) → laws.order_at (g x) s o ≡ laws.order_at x s o)
            × (laws.trades (g x) ≡ laws.trades x ++ more))
      → Leaves d
          (set_order_status sql u c zero sid oid st d >>= λ p. done (g p.1))
          (set_at sid oid st (laws.order_at d))
          more
  status_set sid oid st d g more kept_by =
      let (n, d1, e, ends) = set_order_status-done sql u c zero laws answers sid oid st d in
      (
        g d1,
        ap (λ t. t >>= λ p. done (g p.1)) ends,
        λ s o. (kept_by d1).0 s o ∙ laws.update_status-at st n sid oid s o d d1 e,
        (kept_by d1).1 ∙ ap (λ l. l ++ more) (laws.update_status-trades st n _ _ d d1 e),
      )

  same_data :
      (x : D)
      → ((s o : Bytes) → laws.order_at x s o ≡ laws.order_at x s o)
        × (laws.trades x ≡ laws.trades x ++ [])
  same_data x = (λ s o. refl, sym (append-nil (laws.trades x)))

  replaced :
      (now : Timespec) (sid : Bytes) (er : ExecReport F) (d : D)
      → laws.order_at d sid (own_id er) ≡ none
      → Leaves d
          (set_order_status sql u c zero sid
              (original_id er)
              ord_status_cancelled
              (insert_replaced sql u c zero now sid er d)
            >>= λ p. done p.1)
          (set_at sid
            (original_id er)
            ord_status_cancelled
            (put_at sid (own_id er) (terms er) (laws.order_at d)))
          []
  unfolding insert_replaced
  replaced now sid er d free =
      let d0 = insert_replaced sql u c zero now sid er d in
      let (rows, same) = put _ sid (own_id er) d refl refl free in
      let (d', ends, rows', same') =
        status_set sid (original_id er) ord_status_cancelled d0 (λ x. x) [] same_data in
      (
        d',
        ends,
        λ s o.
            rows' s o
            ∙ ap
                (λ r.
                  if same_key u sid (original_id er) s o
                  then with_status ord_status_cancelled r
                  else r)
                (rows s o),
        same' ∙ ap (λ l. l ++ []) same,
      )

  part_filled :
      (now : Timespec) (sid : Bytes) (er : ExecReport F) (d : D) (b : Bool)
      → Leaves d
          (if b then done (insert_trade sql u c zero now sid er d) else done d)
          (laws.order_at d)
          (if b then trade er ∷ [] else [])
  part_filled now sid er d true =
      let (rows, more) = with_trade now sid er d in
      (insert_trade sql u c zero now sid er d, refl, rows, more)
  part_filled now sid er d false = nothing_done d

  -- The trades of the statuses in the order of the tests.
  trades_tested :
      (st : ℕ) (more : List (Trade F))
      → (if is_quiet st
          then []
          else if st == ord_status_replace
          then []
          else if (st == ord_status_cancelled) || (st == ord_status_rejected)
          then []
          else if st == ord_status_fill
          then more
          else if st == ord_status_partial_fill
          then more
          else [])
        ≡ (if (st == ord_status_fill) || (st == ord_status_partial_fill) then more else [])
  trades_tested st more = ground arith

  -- With a database that answers, every report of an order is handled, where one that replaces
  -- another has an id that is no key of order_state: afterwards each row of order_state is what the
  -- status of the report says, and the trade of the report has been added to the others exactly for
  -- a fill and for a part of one.
  pub update_order-Leaves :
      (now : Timespec) (sid : Bytes) (er : ExecReport F) (d : D)
      → ((or_default 0 er.order_status == ord_status_replace) ≡ true
          → laws.order_at d sid (own_id er) ≡ none)
      → Leaves d
          (update_order sql u c zero now sid er d)
          (rows_after (or_default 0 er.order_status) sid er (laws.order_at d))
          (trades_after (or_default 0 er.order_status) er)
  unfolding update_order
  update_order-Leaves now sid er d free =
      let st = or_default 0 er.order_status in
      let rows = laws.order_at d in
      let (d', e, rows', more) =
        Leaves-if d (is_quiet st) _ _ _ _ _ _ (λ h. nothing_done d)
          λ h.
            Leaves-if d (st == ord_status_replace) _ _ _ _ _ _ (λ h. replaced now sid er d (free h))
              λ h.
                Leaves-if d ((st == ord_status_cancelled) || (st == ord_status_rejected)) _ _ _ _ _
                  _ (λ h. status_set sid (original_id er) st d (λ x. x) [] same_data)
                  λ h.
                    Leaves-if d (st == ord_status_fill) _ _ _ _ _ _
                      (λ h.
                        status_set sid (own_id er) st d (insert_trade sql u c zero now sid er)
                          (trade er ∷ []) (with_trade now sid er))
                      λ h. part_filled now sid er d (st == ord_status_partial_fill) in
      (d', e, rows', more ∙ ap (λ l. laws.trades d ++ l) (trades_tested st (trade er ∷ [])))
