-- ===== src/Serializer/Rejected.antt =====
-- trade_serializer/trade_serializer.cpp: the venue rejects an order, and the table goes on saying
-- that it is new.
use system_k_dev.Base.{ℕ, ◌≡◌, refl, ◌∙◌, ap, false, none, some, Bool-cases, inl, inr}
use system_k_dev.Book.Limit.{Timespec}
use system_k_dev.Route.{Bytes, bytes_eq}
use system_k_dev.Broker.Turns.{done, ◌>>=◌}
use system_k_dev.OrderEntry.{UuidOps, ExecReport, Codec, no_id}
use system_k_dev.Serializer.{
  executed, Connection, ord_status_rejected, or_default, set_order_status, update_order,
}
use system_k_dev.Serializer.Laws.{ConnectionLaws, Answers}

module _ {D F : Type 0} (sql : Connection D F) (u : UuidOps) (c : Codec F) (zero : F)
    (laws : ConnectionLaws sql u) (answers : Answers sql u laws) where
  -- With a database that answers a change of a status is done.
  pub set_order_status-done :
      (sid oid : Bytes) (st : ℕ) (d : D)
      → (n : ℕ) × (d' : D) × (sql.update_status st (u.unparse sid) (u.unparse oid) d
          ≡ executed (n, d'))
        × (set_order_status sql u c zero sid oid st d ≡ done (n, d'))
  unfolding set_order_status
  set_order_status-done sid oid st d =
      let (n, d', e) = answers.update_status st (u.unparse sid) (u.unparse oid) d in
      (n, d', e, rw (set_order_status, e) refl)

  -- A report that an order was rejected, without an original id, is handled, and leaves every order
  -- in order_state as it was whose id is not the zero one, whatever the id of the report: also the
  -- order that the report is about.
  pub update_order-rejected :
      (now : Timespec) (sid rid s oid : Bytes) (er : ExecReport F) (d : D)
      → bytes_eq (u.unparse no_id) (u.unparse oid) ≡ false
      → (d' : D) × (update_order sql u c zero now sid
            (record er {
              cl_order_id = some rid;
              orig_cl_order_id = none;
              order_status = some ord_status_rejected;
            })
            d
          ≡ done d')
        × (laws.order_at d' s oid ≡ laws.order_at d s oid)
  unfolding update_order or_default
  update_order-rejected now sid rid s oid er d other =
      let (n, d', e, ends) = set_order_status-done sid no_id ord_status_rejected d in
      (
        d',
        ap (λ t. t >>= λ p. done p.1) ends,
        laws.update_status-at ord_status_rejected n sid no_id s oid d d' e
            ∙ elim (Bool-cases (bytes_eq (u.unparse sid) (u.unparse s))) [
              | inl same ↦ rw (same, other) refl
              | inr apart ↦ rw apart refl
            ],
      )
