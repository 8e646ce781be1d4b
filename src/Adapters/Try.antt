-- ===== src/Adapters/Try.antt =====
-- What a method of an adapter in `hmasync_controller/adapters.py` comes to: a value, an
-- `AdapterError` with its text, or another exception.
use async_energy_controller.Base.{String, ◌≡◌, refl}

pub data Try {ℓ} (A : Type ℓ) : Type ℓ where
  done : A → Try A
  refused : String → Try A
  raised : Try A

infixl 5 ◌>>=◌
abbrev pub ◌>>=◌ {ℓ κ} : {A : Type ℓ} {B : Type κ} → Try A → (A → Try B) → Try B
done a >>= f = f a
refused message >>= f = refused message
raised >>= f = raised

-- Inversion of a bind that gives a value.
pub >>=-eq-done {ℓ κ} :
    {A : Type ℓ} {B : Type κ} (m : Try A) (f : A → Try B) {b : B}
    → (m >>= f) ≡ done b
    → (a : A) × (m ≡ done a) × (f a ≡ done b)
>>=-eq-done (done a) f h = (a, refl, h)
>>=-eq-done (refused message) f h = cc
>>=-eq-done raised f h = cc
