-- ===== src/Node/Salt.antt =====
-- The salt of a box is kept: `load_or_create_salt` of `hmasync_controller/fingerprint.py`.
use Prim.Native.String.{◌++◌ as text_append}
use async_energy_controller.Base.{
  inl, inr, Bool-cases, ◌≡◌, refl, String, false, Option, none, some, str_eq,
}
use async_energy_controller.Node.{strip, load_or_create_salt}

-- Where the new token is not empty and `strip` gives it back from the line that it is written as, a
-- later call reads the same salt, whatever new token that call draws, and leaves the file as it is.
load_or_create_salt-again :
    (token later : String) (file : Option String)
    → str_eq token "" ≡ false
    → strip (text_append token "\n") ≡ token
    → let first = load_or_create_salt token file in load_or_create_salt later first.1 ≡ first
unfolding load_or_create_salt
load_or_create_salt-again token later none h k = rw (k, h) refl
load_or_create_salt-again token later (some text) h k = elim (Bool-cases (str_eq (strip text) "")) [
  | inl e ↦ rw (e, k, h) refl
  | inr e ↦ rw (e, load_or_create_salt) (rw e refl)
]
