-- ===== src/Packet/Safe.antt =====
-- Reads stay within the packet.
use system_k_dev.Base.{
  ℕ, zero, suc, ◌+◌, ◌-◌, ◌≤◌, ◌<◌, ◌≡◌, refl, sym, ◌∙◌, ap, Bool, true, false, not, ◌||◌, Option,
  none, some, List, [], ◌∷◌, ◌==◌, if◌then◌else◌, length, take, drop, arith, Bool-cases, inl, inr,
  subst,
}
use system_k_dev.Base.Int.{pos}
use system_k_dev.Packet.{
  PacketBase, TextOps, Outcome, ok, fail, lost, Reader, pure, ◌>>=◌, load_times, read_char,
  read_string, converted, read_long, read_int, read_dbl, read_until_tlf, reset_read_position,
  packet,
}

-- The packet is the same and the position is within it.
pub record Moved (p q : PacketBase) : Type 0 where
  pub same : q.buffer ≡ p.buffer
  pub within : q.position ≤ length p.buffer

unfoldable pub Stays : {A : Type 0} → PacketBase → Outcome A → Type 0
Stays p (ok a q) = Moved p q
Stays p (fail q) = Moved p q
Stays p lost = ⊥

-- The position is in a packet that is not empty.
pub record InPacket (p : PacketBase) : Type 0 where
  pub not_empty : 0 < length p.buffer
  pub in_bounds : p.position ≤ length p.buffer

abbrev pub Safe : {A : Type 0} → Reader A → Type 0
Safe r = (p : PacketBase) → InPacket p → Stays p (r p)

pub Moved-refl : (p : PacketBase) → InPacket p → Moved p p
Moved-refl p i = record { same = refl; within = i.in_bounds }

pub Moved-trans : (p q s : PacketBase) → Moved p q → Moved q s → Moved p s
Moved-trans p q s a b = record {
  same = b.same ∙ a.same;
  within = omega (arith, b.within, ap (λ (x : List ℕ). length x) a.same);
}

pub InPacket-Moved : (p q : PacketBase) → InPacket p → Moved p q → InPacket q
InPacket-Moved p q i m = record {
  not_empty = omega (arith, i.not_empty, ap (λ (x : List ℕ). length x) m.same);
  in_bounds = omega (arith, m.within, ap (λ (x : List ℕ). length x) m.same);
}

pub Stays-Moved :
    {A : Type 0} (p q : PacketBase) (o : Outcome A) → Moved p q → Stays q o → Stays p o
unfolding Stays
Stays-Moved p q (ok a s) m t = Moved-trans p q s m t
Stays-Moved p q (fail s) m t = Moved-trans p q s m t
Stays-Moved p q lost m t = t

pub Safe-pure : {A : Type 0} (a : A) → Safe (pure a)
unfolding Stays
Safe-pure a p i = Moved-refl p i

bind_from :
    {A B : Type 0} (f : A → Reader B) (p : PacketBase) (o : Outcome A)
    → InPacket p
    → ((a : A) → Safe (f a))
    → Stays p o
    → Stays p (elim o as (λ _. Outcome B) [ ok a q ↦ f a q | fail q ↦ fail q | lost ↦ lost ])
unfolding Stays
bind_from f p (ok a q) i g t = Stays-Moved p q (f a q) t (g a q (InPacket-Moved p q i t))
bind_from f p (fail q) i g t = t
bind_from f p lost i g t = t

pub Safe-bind :
    {A B : Type 0} (r : Reader A) (f : A → Reader B)
    → Safe r
    → ((a : A) → Safe (f a))
    → Safe (r >>= f)
unfolding ◌>>=◌
Safe-bind r f s g p i = bind_from f p (r p) i g (s p i)

pub load_times-Safe : {A : Type 0} (n : ℕ) (r : Reader A) → Safe r → Safe (load_times n r)
unfolding load_times
load_times-Safe zero r s = Safe-pure []
load_times-Safe (suc n) r s =
    Safe-bind r _ s
      λ a. Safe-bind (load_times n r) _ (load_times-Safe n r s) λ rest. Safe-pure (a ∷ rest)

-- A move by `n` characters that are there.
Moved-position :
    (p : PacketBase) (n : ℕ)
    → p.position + n ≤ length p.buffer
    → Moved p (record p { position = p.position + n })
Moved-position p n h = record { same = refl; within = h }

pub read_char-Safe : Safe read_char
unfolding read_char Stays
read_char-Safe p i = elim (Bool-cases (system_k_dev.Base.leb (length p.buffer) p.position)) [
  | inl e ↦ rw (read_char, e) (Moved-refl p i)
  | inr e ↦ rw (read_char, e) (record { same = refl; within = ground (arith, e) })
]

module _ {F : Type 0} (t : TextOps F) where
  pub read_string-Safe : (n : ℕ) (trim : Bool) → Safe (read_string t n trim)
  unfolding read_string Stays
  read_string-Safe n trim p i =
      elim (Bool-cases (system_k_dev.Base.ltb (length p.buffer) (p.position + n))) [
        | inl e ↦ rw (read_string, e) (Moved-refl p i)
        | inr e ↦ rw (read_string, e) (Moved-position p n (ground (arith, e)))
      ]

  pub converted-Safe : {A : Type 0} (x : A × List ℕ × Bool) → Safe (converted t x)
  unfolding converted Stays
  converted-Safe (value, rest, errno) p i = elim (Bool-cases (not (length rest == 0) || errno)) [
    | inl e ↦ rw (converted, e) (Moved-refl p i)
    | inr e ↦ rw (converted, e) (Moved-refl p i)
  ]

  pub read_long-Safe : (n : ℕ) → Safe (read_long t n)
  unfolding read_long
  read_long-Safe n =
      Safe-bind (read_string t n true) _ (read_string-Safe n true) λ s. converted-Safe _

  pub read_int-Safe : (n : ℕ) → Safe (read_int t n)
  unfolding read_int
  read_int-Safe n = Safe-bind (read_long t n) _ (read_long-Safe n) λ v. Safe-pure _

  pub read_dbl-Safe : (n : ℕ) → Safe (read_dbl t n)
  unfolding read_dbl
  read_dbl-Safe n =
      Safe-bind (read_string t n true) _ (read_string-Safe n true) λ s. converted-Safe _

pub read_until_tlf-Safe : Safe read_until_tlf
unfolding read_until_tlf Stays
read_until_tlf-Safe p i =
    let full : (length p.buffer == 0) ≡ false = ground (arith, i.not_empty) in
    elim (Bool-cases (system_k_dev.Base.leb (length p.buffer - 1) p.position)) [
      | inl e ↦ rw (read_until_tlf, full, e) (Moved-refl p i)
      | inr e ↦ rw (read_until_tlf, full, e) (record { same = refl; within = omega arith })
    ]

-- Every load that is registered stays within the packet.
abbrev pub AllSafe : {M : Type 0} → List (ℕ × Reader M) → Type 0
AllSafe [] = Unit {0}
AllSafe ((c, load) ∷ rest) = Safe load × AllSafe rest

-- What a bind does after a read that returns true.
pub bind-ok :
    {A B : Type 0} (r : Reader A) (f : A → Reader B) (p q : PacketBase) (a : A)
    → r p ≡ ok a q
    → (r >>= f) p ≡ f a q
unfolding ◌>>=◌
bind-ok r f p q a e = rw (◌>>=◌, e) refl

-- With a character before the last one, the read up to the last one returns true.
pub read_until_tlf-ok :
    (p : PacketBase)
    → suc p.position < length p.buffer
    → (body : List ℕ) × (q : PacketBase) × (read_until_tlf p ≡ ok body q)
unfolding read_until_tlf
read_until_tlf-ok p h =
    let last = length p.buffer - 1 in
    (
      take (last - p.position) (drop p.position p.buffer),
      record p { position = last },
      ground arith,
    )

pub read_char-ok :
    (p : PacketBase)
    → p.position < length p.buffer
    → (c : ℕ) × (read_char p ≡ ok c (record p { position = suc p.position }))
unfolding read_char
read_char-ok p h = (system_k_dev.Base.get_or p.buffer p.position 0, ground arith)

-- Going back to behind the first character.
pub reset_read_position-first :
    (p : PacketBase)
    → 0 < length p.buffer
    → reset_read_position (pos 1) p ≡ some (record p { position = 1 })
unfolding reset_read_position
reset_read_position-first p h = ground arith

-- An empty packet is refused at its first character.
pub read_char_empty :
    {B : Type 0} (f : ℕ → Reader B) → (read_char >>= f) (packet []) ≡ fail (packet [])
unfolding read_char ◌>>=◌
read_char_empty f = refl
