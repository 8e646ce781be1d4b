-- ===== src/Bench/Bundle/Net.antt =====
-- The redaction check of `hmasync_controller/bench/bundle.py` against the net of
-- `hmasync_controller/bench/submission.py`.
use async_energy_controller.Base.{
  ℕ, suc, String, Bool, true, false, not, ◌&&◌, Option, none, some, List, [], ◌∷◌, any, All, str_eq,
  str_eq_iff, if◌then◌else◌, ◌≡◌, refl, Bool-cases, inl, inr, subst, arith,
}
use async_energy_controller.Value.{
  Value, null, bool, int, float, str, datetime, list, tuple, dict, model, Items, nil, cons, Fields,
  end, field, PyText,
}
use async_energy_controller.Submission.Redact.{
  denylisted_key_substrings, contains, starts_with, member, element, is_denied, denylisted_keys,
  denylisted_items, denylisted_fields,
}
use async_energy_controller.Bench.Bundle.{
  denylist_key_substrings, llm_token_field_allowlist, is_violation, check_denylist, check_items,
  check_fields,
}

not_among :
    (P : String → Bool) (names : List String) (s : String)
    → All (λ n. P n ≡ false) names
    → any (λ n. str_eq n s) names ≡ true
    → P s ≡ false
not_among P [] s h e = ground arith
not_among P (n ∷ names) s h e = elim (Bool-cases (str_eq n s)) [
  | inl eq ↦ subst (λ (z : String). P z ≡ false) ((str_eq_iff n s).0 eq) h.0
  | inr ne ↦ not_among P names s h.1 (ground arith)
]

both_none :
    {A : Type 0} (a b : Option A)
    → elim a [ some e ↦ some e | none ↦ b ] ≡ none
    → (a ≡ none) × (b ≡ none)
both_none none b h = (refl, h)
both_none (some e) b h = cc

-- Either way of passing the check.
passed :
    (listed hit denied : Bool)
    → not listed && hit ≡ false
    → (listed ≡ true → denied ≡ false)
    → (hit ≡ false → denied ≡ false)
    → denied ≡ false
passed true hit denied h k l = k refl
passed false hit denied h k l = l h

fewer :
    (P : String → Bool)
    → any P denylist_key_substrings ≡ false
    → any P denylisted_key_substrings ≡ false
fewer P h = ground arith

unless_none :
    {A : Type 0} (b : Bool) (a : A) (o : Option A)
    → (if b then some a else o) ≡ none
    → (b ≡ false) × (o ≡ none)
unless_none true a o h = cc
unless_none false a o h = (refl, h)

module _ (texts : PyText) (is_entity_id : String → Bool) where
  is_violation-is_denied :
      (k : String) → is_violation texts is_entity_id k ≡ false → is_denied texts k ≡ false
  unfolding is_violation is_denied contains starts_with
  is_violation-is_denied k h =
      let lowered = texts.lower k in
      passed (any (λ name. str_eq name lowered) llm_token_field_allowlist)
        (any (λ term. contains term lowered) denylist_key_substrings)
        (any (λ token. contains token lowered) denylisted_key_substrings) h
        (not_among (λ s. any (λ token. contains token s) denylisted_key_substrings)
          llm_token_field_allowlist lowered
          (refl, (refl, (refl, (refl, (refl, (refl, (refl, tt))))))))
        (fewer (λ term. contains term lowered))

  mutual
    unfolding check_denylist check_items check_fields denylisted_keys denylisted_items
        denylisted_fields

    value_lem :
        (path root : String) (v : Value)
        → check_denylist texts is_entity_id path v ≡ none
        → denylisted_keys texts root v ≡ []
    value_lem path root null h = refl
    value_lem path root (bool b) h = refl
    value_lem path root (int n) h = refl
    value_lem path root (float x) h = refl
    value_lem path root (str s) h = refl
    value_lem path root (datetime t) h = refl
    value_lem path root (tuple vs) h = refl
    value_lem path root (model fs) h = refl
    value_lem path root (dict fs) h = fields_lem path root fs h
    value_lem path root (list vs) h = items_lem path root 0 vs h

    items_lem :
        (path root : String) (i : ℕ) (vs : Items)
        → check_items texts is_entity_id path i vs ≡ none
        → denylisted_items texts root i vs ≡ []
    items_lem path root i nil h = refl
    items_lem path root i (cons v vs) h =
        let (first, rest) = both_none _ _ h in
        rw
          (
            value_lem (element texts path i) (element texts root i) v first,
            items_lem path root (suc i) vs rest,
          )
          refl

    fields_lem :
        (path root : String) (fs : Fields)
        → check_fields texts is_entity_id path fs ≡ none
        → denylisted_fields texts root fs ≡ []
    fields_lem path root end h = refl
    fields_lem path root (field k v fs) h =
        let (allowed, values) = unless_none (is_violation texts is_entity_id k) _ _ h in
        let (first, rest) = both_none _ _ values in
        rw
          (
            is_violation-is_denied k allowed,
            value_lem (member texts path k) (member texts root k) v first,
            fields_lem path root fs rest,
          )
          refl

  -- Where the check of the bundle finds nothing in a value, the net of the submission finds no
  -- denied key in it: what was built is not refused for a key when it is submitted.
  pub check_denylist-denylisted_keys :
      (path root : String) (v : Value)
      → check_denylist texts is_entity_id path v ≡ none
      → denylisted_keys texts root v ≡ []
  check_denylist-denylisted_keys path root v h = value_lem path root v h
