-- ===== src/OrderEntry/Sends.antt =====
-- order_entry/order-fix/application.cpp: what a call of `dispatch` can send to the venue.
use system_k_dev.Base.{
  ℕ, ◌≤◌, ◌<◌, ◌≡◌, ◌⊎◌, inl, inr, refl, sym, ap, subst, Option, none, some, [], ◌∷◌, ◌++◌, ◌==◌,
  ==_iff, if◌then◌else◌, length, arith, Bool-cases,
}
use system_k_dev.Route.{Bytes, uuid_len}
use system_k_dev.Broker.Turns.{Turn, done, waits, fails, ◌>>=◌}
use system_k_dev.Broker.{order_new, order_cancel, order_replace}
use system_k_dev.OrderEntry.{
  NewOrder, OrderCancel, OrderCancelReplace, OrderStatus, FixOps, UuidOps, Codec, FixMessage,
  new_order_single, order_cancel_request, order_cancel_replace_request, order_status_request,
  Application,
}
use system_k_dev.OrderEntry.Orders.{
  order_status, checked_id, send_to_serialization_service, send_to_target, new_order_single42,
  order_cancel_replace42, order_cancel42, order_status42, dispatch_status, dispatch_replace,
  dispatch_cancel, dispatch,
}

-- The type of the messages of strategies that ask for a message.
abbrev pub kind : {F T : Type 0} → FixMessage F T → ℕ
kind (new_order_single s) = order_new
kind (order_cancel_request s) = order_cancel
kind (order_cancel_replace_request s) = order_replace
kind (order_status_request s) = order_status

-- The own type of a message or, behind a cancel or a replace, a later one.
abbrev pub Follows : (type k : ℕ) → Type 0
Follows type k = (k ≡ type) ⊎ ((order_cancel ≤ type) × (type < k))

module _ {F T : Type 0} (o : FixOps T) (u : UuidOps) (c : Codec F) where
  -- Nothing is sent, or one message in FIX 4.2, and the configuration stays.
  pub record Sends (type : ℕ) (a a' : Application F T) : Type 0 where
    pub config : a'.config ≡ a.config
    pub fix_out :
        (a'.fix_out ≡ a.fix_out)
        ⊎ ((m : FixMessage F T) × (a'.fix_out
              ≡ a.fix_out ++ ((a.config.sender_comp_id, a.config.target_comp_id, m) ∷ []))
            × Follows type (kind m)
            × (a.config.version ≡ 42))

  record SendsIf (type : ℕ) (a : Application F T) (t : Turn (Application F T)) : Type 0 where
    sends : (a' : Application F T) → t ≡ done a' → Sends type a a'

  done_or : Application F T → Turn (Application F T) → Application F T
  done_or a (done b) = b
  done_or a waits = a
  done_or a fails = a

  SendsIf-done : (type : ℕ) (a b : Application F T) → Sends type a b → SendsIf type a (done b)
  unfolding done_or
  SendsIf-done type a b h = record { sends = λ a' e. subst (Sends type a) (ap (done_or a) e) h }

  SendsIf-none : (type : ℕ) (a : Application F T) → SendsIf type a (done a)
  SendsIf-none type a = SendsIf-done type a a (record { config = refl; fix_out = inl refl })

  SendsIf-checked :
      (type : ℕ) (a : Application F T) (id : Bytes) (f : Bytes → Turn (Application F T))
      → ((x : Bytes) → SendsIf type a (f x))
      → SendsIf type a (checked_id id >>= f)
  unfolding checked_id
  SendsIf-checked type a id f h = elim (Bool-cases (length id == uuid_len)) [
    | inl e ↦ rw e (h id)
    | inr e ↦ record { sends = λ a' x. let y : fails ≡ done a' = rw e at x in cc }
  ]

  SendsIf-version :
      (type : ℕ) (a : Application F T) (t : Turn (Application F T))
      → (a.config.version ≡ 42 → SendsIf type a t)
      → SendsIf type a (if a.config.version == 42 then t else done a)
  SendsIf-version type a t h = elim (Bool-cases (a.config.version == 42)) [
    | inl e ↦ rw e (h ((==_iff a.config.version 42).0 e))
    | inr e ↦ rw e (SendsIf-none type a)
  ]

  SendsIf-case :
      (type k : ℕ) (a : Application F T) (t e : Turn (Application F T))
      → (type ≡ k → SendsIf type a t)
      → SendsIf type a e
      → SendsIf type a (if type == k then t else e)
  SendsIf-case type k a t e h g = elim (Bool-cases (type == k)) [
    | inl x ↦ rw x (h ((==_iff type k).0 x))
    | inr x ↦ rw x g
  ]

  -- A message that is sent, whatever goes to the serialization service.
  sent :
      (type : ℕ) (a : Application F T) (m : FixMessage F T)
      → Follows type (kind m)
      → a.config.version ≡ 42
      → Sends type a (send_to_target o u c m a)
  unfolding send_to_target
  sent type a m k v = record { config = refl; fix_out = inr (m, refl, k, v) }

  order_cancel_replace42-Sends :
      (type : ℕ) (now : T) (ocr : OrderCancelReplace F) (a : Application F T)
      → Follows type order_replace
      → a.config.version ≡ 42
      → SendsIf type a (order_cancel_replace42 o u c now ocr a)
  unfolding order_cancel_replace42
  order_cancel_replace42-Sends type now ocr a k v = SendsIf-checked type a ocr.orig_order_id _ λ x.
      SendsIf-checked type a ocr.cl_order_id _
        λ y. SendsIf-done type a _ (sent type a (order_cancel_replace_request _) k v)

  new_order_single42-Sends :
      (type : ℕ) (now : T) (nos : NewOrder F) (a : Application F T)
      → Follows type order_new
      → a.config.version ≡ 42
      → SendsIf type a (new_order_single42 o u c now nos a)
  unfolding new_order_single42 send_to_serialization_service send_to_target
  new_order_single42-Sends type now nos a k v = SendsIf-checked type a nos.strategy_id _ λ x.
      SendsIf-checked type a nos.cl_order_id _ λ y.
        SendsIf-done type a _
          (record { config = refl; fix_out = inr (new_order_single _, refl, k, v) })

  dispatch_status-Sends :
      (type : ℕ) (payload : Bytes) (a : Application F T)
      → Follows type order_status
      → SendsIf type a (dispatch_status o u c payload a)
  unfolding dispatch_status order_status42
  dispatch_status-Sends type payload a k = by (c.parse_status payload)
    where
      by :
          (x : Option OrderStatus)
          → SendsIf type a (elim x [
            | none ↦ done a
            | some os ↦ if a.config.version == 42 then done (order_status42 o u c os a) else done a
          ])
      by none = SendsIf-none type a
      by (some os) = SendsIf-version type a _ λ v. SendsIf-done type a _ (sent type a _ k v)

  dispatch_replace-Sends :
      (type : ℕ) (now : T) (payload : Bytes) (a : Application F T)
      → Follows type order_replace
      → Follows type order_status
      → SendsIf type a (dispatch_replace o u c now payload a)
  unfolding dispatch_replace
  dispatch_replace-Sends type now payload a k k2 = by (c.parse_replace payload)
    where
      by :
          (x : Option (OrderCancelReplace F))
          → SendsIf type a (elim x [
            | none ↦ dispatch_status o u c payload a
            | some ocr ↦
                if a.config.version == 42 then order_cancel_replace42 o u c now ocr a else done a
          ])
      by none = dispatch_status-Sends type payload a k2
      by (some ocr) = SendsIf-version type a _ λ v. order_cancel_replace42-Sends type now ocr a k v

  dispatch_cancel-Sends :
      (type : ℕ) (now : T) (payload : Bytes) (a : Application F T)
      → type ≡ order_cancel
      → SendsIf type a (dispatch_cancel o u c now payload a)
  unfolding dispatch_cancel order_cancel42
  dispatch_cancel-Sends type now payload a t = by (c.parse_cancel payload)
    where
      by :
          (x : Option (OrderCancel F))
          → SendsIf type a (elim x [
            | none ↦ dispatch_replace o u c now payload a
            | some oc ↦
                if a.config.version == 42 then done (order_cancel42 o u c now oc a) else done a
          ])
      by none =
          dispatch_replace-Sends type now payload a (inr (omega (arith, t), omega (arith, t)))
            (inr (omega (arith, t), omega (arith, t)))
      by (some oc) =
          SendsIf-version type a _
            λ v. SendsIf-done type a _ (sent type a (order_cancel_request _) (inl (sym t)) v)

  dispatch_new-Sends :
      (type : ℕ) (now : T) (a : Application F T) (x : Option (NewOrder F))
      → Follows type order_new
      → SendsIf type a (elim x [
        | none ↦ done a
        | some nos ↦ if a.config.version == 42 then new_order_single42 o u c now nos a else done a
      ])
  dispatch_new-Sends type now a none k = SendsIf-none type a
  dispatch_new-Sends type now a (some nos) k =
      SendsIf-version type a _ λ v. new_order_single42-Sends type now nos a k v

  dispatch-SendsIf :
      (now : T) (type : ℕ) (payload : Bytes) (a : Application F T)
      → SendsIf type a (dispatch o u c now type payload a)
  unfolding dispatch
  dispatch-SendsIf now type payload a =
      SendsIf-case type order_new a _ _
        (λ t. dispatch_new-Sends type now a (c.parse_new_order payload) (inl (sym t)))
        (SendsIf-case type order_cancel a _ _ (λ t. dispatch_cancel-Sends type now payload a t)
          (SendsIf-case type order_replace a _ _
            (λ t.
              dispatch_replace-Sends type now payload a (inl (sym t))
                (inr (omega (arith, t), omega (arith, t))))
            (SendsIf-case type order_status a _ _
              (λ t. dispatch_status-Sends type payload a (inl (sym t))) (SendsIf-none type a))))

  -- A call of the interface that ends leaves the configuration alone, and has sent nothing to the
  -- venue, or one message, from the sender to the target of the configuration, which must be for
  -- FIX 4.2: the one that the type asks for or, where that is a cancel or a replace, one of a later
  -- type.
  pub dispatch-Sends :
      (now : T) (type : ℕ) (payload : Bytes) (a a' : Application F T)
      → dispatch o u c now type payload a ≡ done a'
      → Sends type a a'
  dispatch-Sends now type payload a a' e = (dispatch-SendsIf now type payload a).sends a' e
