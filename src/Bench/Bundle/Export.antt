-- ===== src/Bench/Bundle/Export.antt =====
-- What leaves the box in a bundle of `hmasync_controller/bench/bundle.py`.
use async_energy_controller.Base.{
  String, Bool, true, ◌||◌, List, [], ◌∷◌, any, str_eq, str_eq_iff, if◌then◌else◌, ◌≡◌, refl, ◌∙◌,
  Bool-cases, inl, inr, arith,
}
use async_energy_controller.Value.{Value, str, Fields, end, field, get, put, has_key}
use async_energy_controller.Value.Dict.{get-put, get-put_other, has_key-put, has_key-put_other}
use async_energy_controller.Bench.Bundle.Build.{run_export_fields, copy_fields, export_run}

module _ (run : Fields) where
  copy_fields-get :
      (names : List String) (exported : Fields) (k : String)
      → get k (copy_fields names run exported)
        ≡ (if any (λ name. str_eq name k) names then get k run else get k exported)
  unfolding copy_fields
  copy_fields-get [] exported k = refl
  copy_fields-get (n ∷ names) exported k =
      let v = get n run in
      elim (Bool-cases (str_eq n k)) [
        | inl e ↦ ground (
          arith,
          copy_fields-get names (put n v exported) k,
          (str_eq_iff n k).0 e,
          get-put n v exported,
        )
        | inr d ↦
            ground
              (arith, copy_fields-get names (put n v exported) k, get-put_other k n v exported d)
      ]

  copy_fields-has_key :
      (names : List String) (exported : Fields) (k : String)
      → has_key k (copy_fields names run exported)
        ≡ (any (λ name. str_eq name k) names || has_key k exported)
  unfolding copy_fields
  copy_fields-has_key [] exported k = refl
  copy_fields-has_key (n ∷ names) exported k =
      let v = get n run in
      elim (Bool-cases (str_eq n k)) [
        | inl e ↦ ground (
          arith,
          copy_fields-has_key names (put n v exported) k,
          (str_eq_iff n k).0 e,
          has_key-put n v exported,
        )
        | inr d ↦ ground (
          arith,
          copy_fields-has_key names (put n v exported) k,
          has_key-put_other k n v exported d,
        )
      ]

  abbrev pub is_exported : String → Bool
  is_exported k = any (λ name. str_eq name k) run_export_fields

  abbrev pub stamped : String → Bool
  stamped k = any (λ name. str_eq name k) ("node_hash" ∷ "created_at" ∷ "repeat_index" ∷ [])

  -- An exported run has exactly the fields of the export list and the three that are stamped on it; each
  -- field of the list holds what the run has there, and the run's other fields stay behind.
  pub export_run_lem :
      (node_hash : Value) (created_at k : String)
      → let exported = export_run run node_hash created_at in
        (has_key k exported ≡ (is_exported k || stamped k))
        × (is_exported k ≡ true → get k exported ≡ get k run)
  unfolding export_run has_key
  export_run_lem node_hash created_at k =
      let base =
        field "node_hash" node_hash (
          field "created_at" (str created_at)
            (field "repeat_index" (get "repeat_index" run) end)) in
      (
        copy_fields-has_key run_export_fields base k,
        λ h. copy_fields-get run_export_fields base k ∙ rw h,
      )
