-- ===== src/Broker/Turns.antt =====
-- order_entry/order-fix/msg_processor.cpp: what a call does that may wait for frames to come, or
-- fail an assertion.

use system_k_dev.Base.{◌≡◌, ap}

-- `waits`: it needs more frames than have come. `fails`: a failed assertion, or undefined
-- behaviour.
pub data Turn {ℓ} (A : Type ℓ) : Type ℓ where
  done : A → Turn A
  waits fails : Turn A

infixl 5 ◌>>=◌
abbrev pub ◌>>=◌ {ℓ κ} : {A : Type ℓ} {B : Type κ} → Turn A → (A → Turn B) → Turn B
done a >>= f = f a
waits >>= f = waits
fails >>= f = fails

pub >>=-done {ℓ κ} :
    {A : Type ℓ} {B : Type κ} (f : A → Turn B) (t : Turn A) (a : A) → t ≡ done a → (t >>= f) ≡ f a
>>=-done f t a e = ap (λ x. x >>= f) e
