-- ===== src/Packet/Size.antt =====
-- How far a read that returns true moves the position.
use system_k_dev.Base.{
  ℕ, zero, suc, ◌+◌, ◌≡◌, refl, sym, ◌∙◌, ap, Bool, true, false, not, ◌||◌, List, [], ◌∷◌, ◌==◌,
  if◌then◌else◌, length, leb, ltb, arith, subst,
}
use system_k_dev.Packet.{
  PacketBase, TextOps, Outcome, ok, fail, lost, Reader, pure, ◌>>=◌, load_times, read_char,
  read_string, converted, read_long, read_int, read_dbl,
}

module _ {A : Type 0} where
  -- A read that is `k` characters into a value of the given size moves on by the rest of it.
  abbrev pub Advances : ℕ → Reader A → (A → ℕ) → Type 0
  Advances k r size =
      (p : PacketBase) (a : A) (q : PacketBase)
      → r p ≡ ok a q
      → q.position + k ≡ p.position + size a

  -- The size of a list of values.
  unfoldable pub total : (A → ℕ) → List A → ℕ
  total size [] = 0
  total size (a ∷ as') = size a + total size as'

IsOk : {A : Type 0} → Outcome A → A → PacketBase → Type 0
IsOk (ok a q) b s = (a ≡ b) × (q ≡ s)
IsOk (fail q) b s = ⊥
IsOk lost b s = ⊥

ok-injective : {A : Type 0} (o : Outcome A) (b : A) (s : PacketBase) → o ≡ ok b s → IsOk o b s
unfolding IsOk
ok-injective o b s e = subst (λ x. IsOk x b s) (sym e) (refl, refl)

pub pure-Advances :
    {A : Type 0} (k : ℕ) (a : A) (size : A → ℕ) → k ≡ size a → Advances k (pure a) size
unfolding IsOk
pure-Advances k a size e p b q h =
    let (same, at) = ok-injective (ok a p) b q h in
    ap (λ (x : PacketBase). x.position + k) (sym at) ∙ ap (λ n. p.position + n) (e ∙ ap size same)

bind_inv :
    {A B : Type 0} (f : A → Reader B) (o : Outcome A) (b : B) (q : PacketBase)
    → (elim o as (λ _. Outcome B) [ ok a s ↦ f a s | fail s ↦ fail s | lost ↦ lost ]) ≡ ok b q
    → (a : A) × (s : PacketBase) × (o ≡ ok a s) × (f a s ≡ ok b q)
unfolding IsOk
bind_inv f (ok a s) b q e = (a, s, refl, e)
bind_inv f (fail s) b q e = absurd (ok-injective (fail s) b q e)
bind_inv f lost b q e = absurd (ok-injective lost b q e)

pub bind-Advances :
    {A B : Type 0} (k : ℕ) (r : Reader A) (f : A → Reader B) (w : A → ℕ) (size : B → ℕ)
    → Advances 0 r w
    → ((a : A) → Advances (k + w a) (f a) size)
    → Advances k (r >>= f) size
unfolding ◌>>=◌
bind-Advances k r f w size h g p b q e =
    let (a, s, e', e'') = bind_inv f (r p) b q e in omega (arith, h p a s e', g a s b q e'')

pub load_times-Advances :
    {A : Type 0} (n : ℕ) (r : Reader A) (w : A → ℕ)
    → Advances 0 r w
    → Advances 0 (load_times n r) (total w)
unfolding load_times total
load_times-Advances zero r w h = pure-Advances 0 [] (total w) refl
load_times-Advances (suc n) r w h = bind-Advances 0 r _ w (total w) h λ a.
    bind-Advances _ (load_times n r) _ (total w) (total w) (load_times-Advances n r w h)
      λ rest. pure-Advances _ _ (total w) (omega arith)

-- A test that is passed.
passed :
    {A : Type 0} (c : Bool) (p s : PacketBase) (x a : A) (q : PacketBase)
    → (if c then fail p else ok x s) ≡ ok a q
    → s ≡ q
unfolding IsOk
passed true p s x a q e = absurd (ok-injective (fail p) a q e)
passed false p s x a q e = (ok-injective (ok x s) a q e).1

pub read_char-Advances : Advances 0 read_char (λ _. 1)
unfolding read_char IsOk
read_char-Advances p a q e = omega (
  arith,
  ap (λ (x : PacketBase). x.position) (passed (leb (length p.buffer) p.position) p _ _ a q e),
)

module _ {F : Type 0} (t : TextOps F) where
  pub read_string-Advances : (n : ℕ) (trim : Bool) → Advances 0 (read_string t n trim) (λ _. n)
  unfolding read_string IsOk
  read_string-Advances n trim p a q e = omega (
    arith,
    ap (λ (x : PacketBase). x.position)
        (passed (ltb (length p.buffer) (p.position + n)) p _ _ a q e),
  )

  converted-Advances :
      {A : Type 0} (k n : ℕ) (x : A × List ℕ × Bool) → k ≡ n → Advances k (converted t x) (λ _. n)
  unfolding converted IsOk
  converted-Advances k n (value, rest, errno) same p a q e = omega (
    arith,
    same,
    ap (λ (x : PacketBase). x.position) (passed (not (length rest == 0) || errno) p p value a q e),
  )

  read_long-Advances : (n : ℕ) → Advances 0 (read_long t n) (λ _. n)
  unfolding read_long
  read_long-Advances n =
      bind-Advances 0 (read_string t n true) _ (λ _. n) (λ _. n) (read_string-Advances n true)
        λ s. converted-Advances _ n _ (omega arith)

  pub read_int-Advances : (n : ℕ) → Advances 0 (read_int t n) (λ _. n)
  unfolding read_int
  read_int-Advances n =
      bind-Advances 0 (read_long t n) _ (λ _. n) (λ _. n) (read_long-Advances n)
        λ v. pure-Advances _ _ (λ _. n) (omega arith)

  pub read_dbl-Advances : (n : ℕ) → Advances 0 (read_dbl t n) (λ _. n)
  unfolding read_dbl
  read_dbl-Advances n =
      bind-Advances 0 (read_string t n true) _ (λ _. n) (λ _. n) (read_string-Advances n true)
        λ s. converted-Advances _ n _ (omega arith)
