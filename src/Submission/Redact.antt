-- ===== src/Submission/Redact.antt =====
-- The redaction net of `hmasync_controller/bench/submission.py`: `denylisted_keys`.
use Prim.Native.String.{◌++◌ as text_append}
use Prim.Native.Char.{code}
use async_energy_controller.Base.{
  ◌↔◌, ℕ, suc, String, Bool, true, false, ◌&&◌, ◌||◌, List, [], ◌∷◌, ◌++◌, any, All, ◌==◌, ◌≡◌,
  refl, if◌then◌else◌, arith, All-append,
}
use async_energy_controller.Base.Int.{pos}
use async_energy_controller.Value.{
  Value, null, bool, int, float, str, datetime, list, tuple, dict, model, Items, nil, cons, Fields,
  end, field, PyText,
}

abbrev pub denylisted_key_substrings : List String
denylisted_key_substrings = "uuid" ∷ "serial" ∷ "mac" ∷ "hostname" ∷ "entity_id" ∷ []

unfoldable pub starts_with : String → String → Bool
starts_with String.[] s = true
starts_with (String.◌∷◌ c t) String.[] = false
starts_with (String.◌∷◌ c t) (String.◌∷◌ d s) = (code c == code d) && starts_with t s

-- `token in text`.
unfoldable pub contains : String → String → Bool
unfolding starts_with
contains token String.[] = starts_with token ""
contains token (String.◌∷◌ d s) = starts_with token (String.◌∷◌ d s) || contains token s

module _ (texts : PyText) where
  unfoldable pub is_denied : String → Bool
  unfolding contains
  is_denied key = any (λ token. contains token (texts.lower key)) denylisted_key_substrings

  abbrev pub member : String → String → String
  member path key = text_append path (text_append "." key)

  abbrev pub element : String → ℕ → String
  element path i = text_append path (text_append "[" (text_append (texts.format (int (pos i))) "]"))

  unfoldable mutual
    unfolding is_denied

    pub denylisted_keys : String → Value → List String
    denylisted_keys path null = []
    denylisted_keys path (bool b) = []
    denylisted_keys path (int n) = []
    denylisted_keys path (float x) = []
    denylisted_keys path (str s) = []
    denylisted_keys path (datetime t) = []
    denylisted_keys path (tuple vs) = []
    denylisted_keys path (model fs) = []
    denylisted_keys path (dict fs) = denylisted_fields path fs
    denylisted_keys path (list vs) = denylisted_items path 0 vs

    pub denylisted_items : String → ℕ → Items → List String
    denylisted_items path i nil = []
    denylisted_items path i (cons v vs) =
        denylisted_keys (element path i) v ++ denylisted_items path (suc i) vs

    pub denylisted_fields : String → Fields → List String
    denylisted_fields path end = []
    denylisted_fields path (field k v fs) =
        (if is_denied k then member path k ∷ [] else [])
        ++ denylisted_keys (member path k) v
        ++ denylisted_fields path fs

-- Every key of every object in a value, at any depth of objects and lists.
abbrev mutual
  pub keys_of : Value → List String
  keys_of null = []
  keys_of (bool b) = []
  keys_of (int n) = []
  keys_of (float x) = []
  keys_of (str s) = []
  keys_of (datetime t) = []
  keys_of (tuple vs) = []
  keys_of (model fs) = []
  keys_of (dict fs) = keys_of_fields fs
  keys_of (list vs) = keys_of_items vs

  pub keys_of_items : Items → List String
  keys_of_items nil = []
  keys_of_items (cons v vs) = keys_of v ++ keys_of_items vs

  pub keys_of_fields : Fields → List String
  keys_of_fields end = []
  keys_of_fields (field k v fs) = k ∷ keys_of v ++ keys_of_fields fs

append_empty : (xs ys : List String) → xs ++ ys ≡ [] → (xs ≡ []) × (ys ≡ [])
append_empty [] ys h = (refl, h)
append_empty (x ∷ xs) ys h = cc

module _ (texts : PyText) where
  -- A key that the net lets through.
  abbrev pub IsAllowed : String → Type 0
  IsAllowed k = is_denied texts k ≡ false

  own-IsAllowed :
      (path k : String)
      → (if is_denied texts k then member texts path k ∷ [] else []) ≡ []
      → IsAllowed k
  own-IsAllowed path k h = ground arith

  mutual
    unfolding denylisted_keys denylisted_items denylisted_fields

    denylisted_keys-IsAllowed :
        (path : String) (v : Value) → denylisted_keys texts path v ≡ [] → All IsAllowed (keys_of v)
    denylisted_keys-IsAllowed path null h = tt
    denylisted_keys-IsAllowed path (bool b) h = tt
    denylisted_keys-IsAllowed path (int n) h = tt
    denylisted_keys-IsAllowed path (float x) h = tt
    denylisted_keys-IsAllowed path (str s) h = tt
    denylisted_keys-IsAllowed path (datetime t) h = tt
    denylisted_keys-IsAllowed path (tuple vs) h = tt
    denylisted_keys-IsAllowed path (model fs) h = tt
    denylisted_keys-IsAllowed path (dict fs) h = fields-IsAllowed path fs h
    denylisted_keys-IsAllowed path (list vs) h = items-IsAllowed path 0 vs h

    items-IsAllowed :
        (path : String) (i : ℕ) (vs : Items)
        → denylisted_items texts path i vs ≡ []
        → All IsAllowed (keys_of_items vs)
    items-IsAllowed path i nil h = tt
    items-IsAllowed path i (cons v vs) h =
        let (first, rest) =
          append_empty (denylisted_keys texts (element texts path i) v)
            (denylisted_items texts path (suc i) vs) h in
        All-append IsAllowed (keys_of v) (keys_of_items vs)
          (denylisted_keys-IsAllowed (element texts path i) v first)
          (items-IsAllowed path (suc i) vs rest)

    fields-IsAllowed :
        (path : String) (fs : Fields)
        → denylisted_fields texts path fs ≡ []
        → All IsAllowed (keys_of_fields fs)
    fields-IsAllowed path end h = tt
    fields-IsAllowed path (field k v fs) h =
        let below = denylisted_keys texts (member texts path k) v in
        let others = denylisted_fields texts path fs in
        let own_found = if is_denied texts k then member texts path k ∷ [] else [] in
        let (found, rest) = append_empty (own_found ++ below) others h in
        let (own, inner) = append_empty own_found below found in
        (
          own-IsAllowed path k own,
          All-append IsAllowed (keys_of v) (keys_of_fields fs)
              (denylisted_keys-IsAllowed (member texts path k) v inner)
              (fields-IsAllowed path fs rest),
        )

  All-first : (xs ys : List String) → All IsAllowed (xs ++ ys) → All IsAllowed xs
  All-first [] ys h = tt
  All-first (x ∷ xs) ys h = (h.0, All-first xs ys h.1)

  All-second : (xs ys : List String) → All IsAllowed (xs ++ ys) → All IsAllowed ys
  All-second [] ys h = h
  All-second (x ∷ xs) ys h = All-second xs ys h.1

  mutual
    unfolding denylisted_keys denylisted_items denylisted_fields

    IsAllowed-denylisted_keys :
        (path : String) (v : Value) → All IsAllowed (keys_of v) → denylisted_keys texts path v ≡ []
    IsAllowed-denylisted_keys path null h = refl
    IsAllowed-denylisted_keys path (bool b) h = refl
    IsAllowed-denylisted_keys path (int n) h = refl
    IsAllowed-denylisted_keys path (float x) h = refl
    IsAllowed-denylisted_keys path (str s) h = refl
    IsAllowed-denylisted_keys path (datetime t) h = refl
    IsAllowed-denylisted_keys path (tuple vs) h = refl
    IsAllowed-denylisted_keys path (model fs) h = refl
    IsAllowed-denylisted_keys path (dict fs) h = IsAllowed-fields path fs h
    IsAllowed-denylisted_keys path (list vs) h = IsAllowed-items path 0 vs h

    IsAllowed-items :
        (path : String) (i : ℕ) (vs : Items)
        → All IsAllowed (keys_of_items vs)
        → denylisted_items texts path i vs ≡ []
    IsAllowed-items path i nil h = refl
    IsAllowed-items path i (cons v vs) h =
        rw
          (
            IsAllowed-denylisted_keys (element texts path i) v
                (All-first (keys_of v) (keys_of_items vs) h),
            IsAllowed-items path (suc i) vs (All-second (keys_of v) (keys_of_items vs) h),
          )
          refl

    IsAllowed-fields :
        (path : String) (fs : Fields)
        → All IsAllowed (keys_of_fields fs)
        → denylisted_fields texts path fs ≡ []
    IsAllowed-fields path end h = refl
    IsAllowed-fields path (field k v fs) h =
        rw
          (
            h.0,
            IsAllowed-denylisted_keys (member texts path k) v
                (All-first (keys_of v) (keys_of_fields fs) h.1),
            IsAllowed-fields path fs (All-second (keys_of v) (keys_of_fields fs) h.1),
          )
          refl

  -- The net finds nothing exactly where no key of any object, at any depth of objects and lists,
  -- contains a denylisted substring in lower case.
  pub denylisted_keys_lem :
      (path : String) (v : Value) → (denylisted_keys texts path v ≡ []) ↔ All IsAllowed (keys_of v)
  denylisted_keys_lem path v = (denylisted_keys-IsAllowed path v, IsAllowed-denylisted_keys path v)
