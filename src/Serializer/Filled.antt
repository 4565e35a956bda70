-- ===== src/Serializer/Filled.antt =====
-- application.cpp and trade_serializer.cpp: an order that was filled is recorded as such.
use system_k_dev.Base.{
  ℕ, ◌≡◌, refl, ◌∙◌, ap, true, false, Option, none, some, List, [], ◌∷◌, ◌++◌, length,
}
use system_k_dev.Book.Limit.{Timespec}
use system_k_dev.Route.{Bytes, uuid_len}
use system_k_dev.Route.Spec.{bytes_eq_self}
use system_k_dev.Route.Cache.{le_bytes, of_le_bytes}
use system_k_dev.Broker.Turns.{done, ◌>>=◌}
use system_k_dev.Broker.Maps.{MapOps}
use system_k_dev.Broker.{Frame, OrderInfo, order_new, size_of_type, type_of, set_id}
use system_k_dev.OrderEntry.{
  FixOps, UuidOps, UuidLaws, NewOrder, ExecReport, Codec, ExecutionReport42, Application,
}
use system_k_dev.OrderEntry.Orders.{send_to_serialization_service, new_order_single42}
use system_k_dev.OrderEntry.Reports.{exec_rpt, exec_report, strategy_of, on_execution_report}
use system_k_dev.OrderEntry.Echo.{checked_id-then, asserted_id-then}
use system_k_dev.Serializer.{
  OrderRow, TradeRow, Connection, Serializer, kept, or_default, side_number, char_int,
  ord_status_fill, insert_trade, new_row, insert_order, update_order, parsed, handle_message,
  handle_orders,
}
use system_k_dev.Serializer.Laws.{
  Trade, same_key, with_status, recorded, trade_of, ConnectionLaws, Answers,
}
use system_k_dev.Serializer.Rejected.{set_order_status-done}

same_key_self : (u : UuidOps) (sid oid : Bytes) → same_key u sid oid sid oid ≡ true
same_key_self u sid oid = rw (bytes_eq_self (u.unparse sid), bytes_eq_self (u.unparse oid)) refl

set_id-length : (id : Bytes) → length id ≡ uuid_len → set_id id ≡ id
unfolding set_id
set_id-length id e = rw e refl

-- The frames of a message to the serialization service.
abbrev pub service_frames : (sid : Bytes) (type : ℕ) (body : Bytes) → List Frame
service_frames sid type body =
    (sid, true) ∷ ((le_bytes size_of_type type, true) ∷ ((body, false) ∷ []))

module _ {D F : Type 0} (sql : Connection D F) (u : UuidOps) (c : Codec F) (zero : F)
    (laws : ConnectionLaws sql u) (answers : Answers sql u laws) where
  handle-new :
      (now : Timespec) (x sid : Bytes) (nos : NewOrder F) (rest : List Frame) (d : D)
      → length sid ≡ uuid_len
      → c.parse_new_order (c.write_new_order nos) ≡ some nos
      → handle_message sql u c zero now (record {
        strategy_id = x;
        frames = service_frames sid order_new (c.write_new_order nos) ++ rest;
        database = d;
      })
        ≡ done (record {
          strategy_id = sid;
          frames = rest;
          database = insert_order sql u c zero now sid nos d;
        })
  unfolding handle_message le_bytes type_of of_le_bytes parsed
  handle-new now x sid nos rest d e back = rw (handle_message, back, e) refl

  handle-report :
      (now : Timespec) (x sid : Bytes) (er : ExecReport F) (rest : List Frame) (d d' : D)
      → length sid ≡ uuid_len
      → c.parse_report (c.write_report er) ≡ some er
      → update_order sql u c zero now sid er d ≡ done d'
      → handle_message sql u c zero now (record {
        strategy_id = x;
        frames = service_frames sid exec_rpt (c.write_report er) ++ rest;
        database = d;
      })
        ≡ done (record { strategy_id = sid; frames = rest; database = d' })
  unfolding handle_message le_bytes type_of of_le_bytes parsed
  handle-report now x sid er rest d d' e back made = rw (handle_message, back, e, made) refl

  -- An insertion that the database answers.
  inserted :
      (r : OrderRow F) (sid oid : Bytes) (d : D)
      → r.strategy_id ≡ u.unparse sid
      → r.cl_order_id ≡ u.unparse oid
      → laws.order_at d sid oid ≡ none
      → (laws.order_at (kept (sql.insert_order r d) d) sid oid ≡ some (recorded r))
        × (laws.trades (kept (sql.insert_order r d) d) ≡ laws.trades d)
  unfolding kept
  inserted r sid oid d e1 e2 free =
      let (d', e) = answers.insert_order r sid oid d e1 e2 free in
      let made : kept (sql.insert_order r d) d ≡ d' = ap (λ x. kept x d) e in
      (
        ap (λ x. laws.order_at x sid oid) made
            ∙ laws.insert_order-at r sid oid sid oid d d' e1 e2 e
            ∙ rw (same_key_self u sid oid) refl,
        ap laws.trades made ∙ laws.insert_order-trades r d d' e,
      )

  pub traded :
      (r : TradeRow F) (s o : Bytes) (d : D)
      → (laws.order_at (kept (sql.insert_trade r d) d) s o ≡ laws.order_at d s o)
        × (laws.trades (kept (sql.insert_trade r d) d) ≡ laws.trades d ++ (trade_of r ∷ []))
  unfolding kept
  traded r s o d =
      let (d', e) = answers.insert_trade r d in
      let made : kept (sql.insert_trade r d) d ≡ d' = ap (λ x. kept x d) e in
      (
        ap (λ x. laws.order_at x s o) made ∙ laws.insert_trade-at r s o d d' e,
        ap laws.trades made ∙ laws.insert_trade-trades r d d' e,
      )

  -- What a fill adds to the trades.
  abbrev pub fill_of : (last_shares last_price : Option F) → Trade F
  fill_of last_shares last_price = record {
    order_status = ord_status_fill;
    last_shares = or_default zero last_shares;
    last_price = or_default zero last_price;
  }

  update_order-filled :
      (now : Timespec) (sid oid : Bytes) (er : ExecReport F) (d : D)
      → length oid ≡ uuid_len
      → (d' : D) × (update_order sql u c zero now sid
            (record er { cl_order_id = some oid; order_status = some ord_status_fill })
            d
          ≡ done d')
        × (laws.order_at d' sid oid ≡ with_status ord_status_fill (laws.order_at d sid oid))
        × (laws.trades d' ≡ laws.trades d ++ (fill_of er.last_shares er.last_price ∷ []))
  unfolding update_order or_default insert_trade char_int
  update_order-filled now sid oid er d size =
      let same : set_id oid ≡ oid = set_id-length oid size in
      let (n, d1, e, ends) =
        set_order_status-done sql u c zero laws answers sid (set_id oid) ord_status_fill d in
      (
        _,
        ap
            (λ t. t >>= λ p. done (
              insert_trade sql u c zero now sid
                (record er { cl_order_id = some oid; order_status = some ord_status_fill }) p.1))
            ends,
        (traded _ sid oid d1).0
            ∙ laws.update_status-at ord_status_fill n sid (set_id oid) sid oid d d1 e
            ∙ rw (same, same_key_self u sid oid) refl,
        (traded _ sid oid d1).1
            ∙ ap (λ l. l ++ (fill_of er.last_shares er.last_price ∷ []))
                (laws.update_status-trades ord_status_fill n _ _ d d1 e),
      )

  module _ {T N : Type 0} (o : FixOps T) (uuids : UuidLaws u) (orders : MapOps N OrderInfo) where
    -- The report to the strategy on a fill.
    abbrev pub reported : (venue_id : ℕ) (oid : Bytes) → ExecutionReport42 F T → ExecReport F
    reported venue_id oid m =
        exec_report o u c venue_id (some oid)
          (record m { cl_ord_id = some (u.unparse oid); ord_status = some ord_status_fill })

    -- An order, whose two ids have 16 bytes and are no key of order_state, goes to the venue, and
    -- the venue reports on its id that it is filled, while the broker knows its strategy; the two
    -- messages to the serializer are read back as they were written. With a database that answers, the serializer handles the two messages that the interface sends it:
    -- nothing is left of them, order_state has the order as filled, with its side, quantity and
    -- price, and trades has one row more, with the last shares and the last price of the report.
    pub order-filled :
        (now : T) (t1 t2 : Timespec) (nos : NewOrder F) (a : Application F T) (n : N)
        (m : ExecutionReport42 F T) (x : Bytes) (d : D)
        → length nos.strategy_id ≡ uuid_len
        → length nos.cl_order_id ≡ uuid_len
        → strategy_of o u c orders nos.cl_order_id n ≡ nos.strategy_id
        → laws.order_at d nos.strategy_id nos.cl_order_id ≡ none
        → c.parse_new_order (c.write_new_order nos) ≡ some nos
        → c.parse_report (c.write_report (reported a.config.venue_id nos.cl_order_id m))
          ≡ some (reported a.config.venue_id nos.cl_order_id m)
        → (a1 a2 : Application F T) × (gs : List Frame) × (s : Serializer D) × (new_order_single42 o
              u c now nos
              (record a { serialization = [] })
            ≡ done a1)
          × (on_execution_report o u c orders
                (some n)
                (record m {
                  cl_ord_id = some (u.unparse nos.cl_order_id);
                  ord_status = some ord_status_fill;
                })
                a1
              ≡ done (gs, a2))
          × (handle_orders sql u c zero
                (t1 ∷ t2 ∷ [])
                (record { strategy_id = x; frames = a2.serialization; database = d })
              ≡ done s)
          × (s.frames ≡ [])
          × (laws.order_at s.database nos.strategy_id nos.cl_order_id
              ≡ some (record {
                order_status = ord_status_fill;
                side = side_number nos.side;
                order_qty = nos.order_qty;
                price = nos.price;
              }))
          × (laws.trades s.database ≡ laws.trades d ++ (fill_of m.last_shares m.last_px ∷ []))
    unfolding new_order_single42 on_execution_report exec_report send_to_serialization_service
        handle_orders insert_order new_row
    order-filled now t1 t2 nos a n m x d e1 e2 by free back back2 =
        let sid = nos.strategy_id in
        let oid = nos.cl_order_id in
        let er = reported a.config.venue_id oid m in
        let d1 = insert_order sql u c zero t1 sid nos d in
        let (there, same_trades) =
          inserted (new_row sql u c zero t1 sid nos) sid oid d refl
            (ap u.unparse (set_id-length oid e2)) free in
        let (d2, ends, status, more) = update_order-filled t2 sid oid er d1 e2 in
        (
          _,
          _,
          _,
          record { strategy_id = sid; frames = []; database = d2 },
          checked_id-then _ sid e1 ∙ checked_id-then _ oid e2,
          asserted_id-then o u c uuids _ _ oid refl e2,
          ap
                (λ y. handle_orders sql u c zero (t1 ∷ t2 ∷ []) (record {
                  strategy_id = x;
                  frames =
                      service_frames sid order_new (c.write_new_order nos)
                      ++ service_frames y exec_rpt (c.write_report er);
                  database = d;
                }))
                by
              ∙ ap (λ t. t >>= λ s. handle_message sql u c zero t2 s >>= λ s'. done s')
                  (handle-new t1 x sid nos (service_frames sid exec_rpt (c.write_report er)) d e1
                    back)
              ∙ ap (λ t. t >>= λ s. done s) (handle-report t2 sid sid er [] d1 d2 e1 back2 ends),
          refl,
          status ∙ ap (with_status ord_status_fill) there,
          more ∙ ap (λ l. l ++ (fill_of m.last_shares m.last_px ∷ [])) same_trades,
        )
