-- ===== src/Message/Parse.antt =====
-- Parsing stays within the packet, and finds a message in every packet that is long enough.
use mathlib.Core.Option.{some-injective}
use system_k_dev.Base.{
  ℕ, suc, ◌<◌, ◌≡◌, refl, ◌∙◌, ap, Bool, true, false, Option, some, List, [], ◌∷◌, ◌==◌,
  if◌then◌else◌, length, arith, Option-cases, inl, inr, subst,
}
use system_k_dev.Packet.{PacketBase, Outcome, ok, fail, lost, Reader, packet, read_char}
use system_k_dev.Packet.Safe.{
  Moved, Stays, Stays-Moved, InPacket, InPacket-Moved, Safe, Safe-bind, read_char-Safe, AllSafe,
  read_char-ok, bind-ok, reset_read_position-first,
}
use system_k_dev.Message.{reset, create_message, load_or_cram, load_typed, parse_message}

picked :
    {M : Type 0} (c : Bool) (x load : Reader M) (y : Option (Reader M))
    → (if c then some x else y) ≡ some load
    → Safe x
    → (y ≡ some load → Safe load)
    → Safe load
picked true x load y e s k = subst Safe (some-injective _ _ e) s
picked false x load y e s k = k e

pub create_message-Safe :
    {M : Type 0} (cs : List (ℕ × Reader M)) (type : ℕ) (load : Reader M)
    → AllSafe cs
    → create_message cs type ≡ some load
    → Safe load
unfolding create_message
create_message-Safe [] type load s e = cc
create_message-Safe ((c, r) ∷ rest) type load s e =
    picked (c == type) r load (create_message rest type) e s.0
      (create_message-Safe rest type load s.1)

pub reset-first : (p : PacketBase) → 0 < length p.buffer → reset p ≡ record p { position = 1 }
reset-first p h = rw (reset, reset_read_position-first p h) refl

module _ {M : Type 0} (creators : List (ℕ × Reader M)) (load_unsupported : ℕ → Reader M)
    (safe : AllSafe creators) (safe_unsupported : (type : ℕ) → Safe (load_unsupported type)) where
  crammed :
      (type : ℕ) (p : PacketBase) (o : Outcome M)
      → InPacket p
      → Stays p o
      → Stays p (elim o as (λ _. Outcome M) [
        | ok m q ↦ ok m q
        | fail q ↦ load_unsupported type (reset q)
        | lost ↦ lost
      ])
  unfolding Stays
  crammed type p (ok m q) i s = s
  crammed type p (fail q) i s =
      let j = InPacket-Moved p q i s in
      let back = record q { position = 1 } in
      let k : InPacket back = record { not_empty = j.not_empty; in_bounds = j.not_empty } in
      let moved : Moved p back = record { same = s.same; within = i.not_empty } in
      rw (reset-first q j.not_empty)
        (Stays-Moved p back (load_unsupported type back) moved (safe_unsupported type back k))
  crammed type p lost i s = s

  load_typed-Safe : (type : ℕ) → Safe (load_typed creators load_unsupported type)
  unfolding load_typed load_or_cram
  load_typed-Safe type p i = elim (Option-cases (create_message creators type)) [
    | inl e ↦ rw (load_typed, e) (safe_unsupported type p i)
    | inr (load, e) ↦
        rw (load_typed, e, load_or_cram)
          (crammed type p (load p) i (create_message-Safe creators type load safe e p i))
  ]

  pub parse_message-Safe : Safe (parse_message creators load_unsupported)
  unfolding parse_message
  parse_message-Safe = Safe-bind read_char _ read_char-Safe λ type. load_typed-Safe type

  module _
      (unsupported_ok : (type : ℕ) (p : PacketBase)
        → suc p.position < length p.buffer
        → (m : M) × (q : PacketBase) × (load_unsupported type p ≡ ok m q)) where
    crammed_ok :
        (type : ℕ) (p : PacketBase) (o : Outcome M)
        → 2 < length p.buffer
        → Stays p o
        → (m : M) × (q : PacketBase) × ((elim o as (λ _. Outcome M) [
          | ok m q ↦ ok m q
          | fail q ↦ load_unsupported type (reset q)
          | lost ↦ lost
        ])
            ≡ ok m q)
    unfolding Stays
    crammed_ok type p (ok m q) h s = (m, q, refl)
    crammed_ok type p (fail q) h s =
        let long : 2 < length q.buffer = omega (arith, ap (λ (x : List ℕ). length x) s.same) in
        let (m, after, e) = unsupported_ok type (record q { position = 1 }) long in
        (m, after, rw (reset-first q (omega arith)) e)
    crammed_ok type p lost h s = absurd s

    typed_ok :
        (type : ℕ) (p : PacketBase)
        → p.position ≡ 1
        → 2 < length p.buffer
        → (m : M) × (q : PacketBase) × (load_typed creators load_unsupported type p ≡ ok m q)
    unfolding load_typed load_or_cram
    typed_ok type p at h = elim (Option-cases (create_message creators type)) [
      | inl e ↦ rw (load_typed, e) (unsupported_ok type p (omega arith))
      | inr (load, e) ↦
          rw (load_typed, e, load_or_cram)
            (crammed_ok type p (load p) h (
              create_message-Safe creators type load safe e p
                (record { not_empty = omega arith; in_bounds = omega arith })))
    ]

    pub parse_message-ok :
        (s : List ℕ)
        → 2 < length s
        → (m : M) × (q : PacketBase) × (parse_message creators load_unsupported (packet s) ≡ ok m q)
    unfolding parse_message
    parse_message-ok s h =
        let (c, e) = read_char-ok (packet s) (omega arith) in
        let p = record (packet s) { position = 1 } in
        let (m, q, done) = typed_ok c p refl h in
        (m, q, bind-ok read_char _ (packet s) p c e ∙ done)
