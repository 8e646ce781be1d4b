-- ===== src/Bench/Bundle/Builds.antt =====
-- When a bundle of `hmasync_controller/bench/bundle.py` is built.
use async_energy_controller.Base.{
  ℕ, suc, String, Bool, false, not, ◌&&◌, none, some, List, [], ◌∷◌, map, any, All, str_eq, if_ind,
  ◌≡◌, refl, subst, Option-cases, inl, inr, arith, Option,
}
use async_energy_controller.Value.{
  Float, Value, null, bool, int, float, str, datetime, list, tuple, dict, model, Fields, end, field,
  get, put, items_of, PyText, truthy,
}
use async_energy_controller.Submission.Redact.{contains, starts_with, member, element}
use async_energy_controller.Bench.Bundle.{
  denylist_key_substrings, llm_token_field_allowlist, is_violation, check_denylist, check_items,
  check_fields,
}
use async_energy_controller.Bench.Bundle.Build.{
  run_export_fields, copy_fields, node_value, round_value, export_fields, NodeEntry, no_entry,
  entry, unrounded, export_node, export_run, checked, Built, with_node, assemble, built, raised,
  node_export_fields, entry_of, build_bundle, stamp_of, node_hash_of,
}

-- Whether a key in lower case is refused.
abbrev violates : String → Bool
violates lowered =
    not (any (λ name. str_eq name lowered) llm_token_field_allowlist)
    && any (λ term. contains term lowered) denylist_key_substrings

abbrev pub own_names : List String
own_names =
    "node_hash" ∷ "created_at" ∷ "repeat_index" ∷ "schema_version" ∷ "generated_at" ∷ "suite"
    ∷ "nodes" ∷ "runs" ∷ "grades" ∷ "load_profiles" ∷ "baselines" ∷ "cpu_model" ∷ "mem_total_mib"
    ∷ "ram_gb" ∷ "pcie_gen" ∷ []

none_own : any violates own_names ≡ false
unfolding contains starts_with
none_own = refl

none_exported : any violates run_export_fields ≡ false
unfolding run_export_fields contains starts_with
none_exported = refl

module _ (texts : PyText) (is_entity_id : String → Bool) where
  -- Python's `lower` leaves names that are in lower case as they are.
  abbrev pub Lowers : List String → Type 0
  Lowers names = All (λ k. texts.lower k ≡ k) names

  abbrev IsHarmless : String → Type 0
  IsHarmless k = is_violation texts is_entity_id k ≡ false

  Lowers-IsHarmless :
      (names : List String) → Lowers names → any violates names ≡ false → All IsHarmless names
  unfolding is_violation
  Lowers-IsHarmless [] l h = tt
  Lowers-IsHarmless (n ∷ names) l h =
      (rw l.0 (ground arith), Lowers-IsHarmless names l.1 (ground arith))

  -- A scalar that is not the name of an entity.
  abbrev pub IsPlain : Value → Type 0
  IsPlain null = Unit
  IsPlain (bool b) = Unit
  IsPlain (int n) = Unit
  IsPlain (float x) = Unit
  IsPlain (str s) = is_entity_id s ≡ false
  IsPlain _ = ⊥

  abbrev pub ArePlain : Fields → Type 0
  ArePlain end = Unit
  ArePlain (field k v fs) = IsPlain v × ArePlain fs

  abbrev Passes : Fields → Type 0
  Passes end = Unit
  Passes (field k v fs) = IsHarmless k × IsPlain v × Passes fs

  get-IsPlain : (k : String) (fs : Fields) → ArePlain fs → IsPlain (get k fs)
  unfolding get
  get-IsPlain k end p = tt
  get-IsPlain k (field j v fs) p =
      if_ind IsPlain (str_eq j k) v (get k fs) p.0 (get-IsPlain k fs p.1)

  put-Passes :
      (k : String) (v : Value) (fs : Fields)
      → IsHarmless k
      → IsPlain v
      → Passes fs
      → Passes (put k v fs)
  unfolding put
  put-Passes k v end h p c = (h, p, tt)
  put-Passes k v (field j w fs) h p c =
      if_ind Passes (str_eq j k) (field j v fs) (field j w (put k v fs)) (c.0, p, c.2)
        (c.0, c.1, put-Passes k v fs h p c.2)

  copy_fields-Passes :
      (names : List String) (run exported : Fields)
      → All IsHarmless names
      → ArePlain run
      → Passes exported
      → Passes (copy_fields names run exported)
  unfolding copy_fields
  copy_fields-Passes [] run exported h p c = c
  copy_fields-Passes (n ∷ names) run exported h p c =
      copy_fields-Passes names run (put n (get n run) exported) h.1 p
        (put-Passes n (get n run) exported h.0 (get-IsPlain n run p) c)

  plain-check :
      (path : String) (v : Value) → IsPlain v → check_denylist texts is_entity_id path v ≡ none
  unfolding check_denylist
  plain-check path null p = refl
  plain-check path (bool b) p = refl
  plain-check path (int n) p = refl
  plain-check path (float x) p = refl
  plain-check path (str s) p = rw p
  plain-check path (datetime t) p = elim p [ ]
  plain-check path (list vs) p = elim p [ ]
  plain-check path (tuple vs) p = elim p [ ]
  plain-check path (dict fs) p = elim p [ ]
  plain-check path (model fs) p = elim p [ ]

  -- Every key and every value is accepted.
  abbrev Accepted : String → Fields → Type 0
  Accepted path end = Unit
  Accepted path (field k v fs) =
      IsHarmless k
      × (check_denylist texts is_entity_id (member texts path k) v ≡ none)
      × Accepted path fs

  Accepted-check :
      (path : String) (fs : Fields)
      → Accepted path fs
      → check_fields texts is_entity_id path fs ≡ none
  unfolding check_fields
  Accepted-check path end c = refl
  Accepted-check path (field k v fs) c = rw (c.0, c.1) (Accepted-check path fs c.2)

  Passes-Accepted : (path : String) (fs : Fields) → Passes fs → Accepted path fs
  Passes-Accepted path end c = tt
  Passes-Accepted path (field k v fs) c =
      (c.0, plain-check (member texts path k) v c.1, Passes-Accepted path fs c.2)

  Passes-check :
      (path : String) (fs : Fields) → Passes fs → check_fields texts is_entity_id path fs ≡ none
  Passes-check path fs c = Accepted-check path fs (Passes-Accepted path fs c)

  entries-check :
      (path : String) (i : ℕ) (entries : List Fields)
      → All Passes entries
      → check_items texts is_entity_id path i (items_of (map dict entries)) ≡ none
  unfolding check_items check_denylist
  entries-check path i [] c = refl
  entries-check path i (e ∷ entries) c =
      ground
        (arith, Passes-check (element texts path i) e c.0, entries-check path (suc i) entries c.1)

  round_value-IsPlain : (v w : Value) → round_value v ≡ some w → IsPlain w
  unfolding round_value
  round_value-IsPlain (bool b) w h = ground arith
  round_value-IsPlain (int n) w h = ground arith
  round_value-IsPlain (float (Float.finite n)) w h = ground arith
  round_value-IsPlain _ w h = cc

  node_value-IsPlain : (k : String) (v w : Value) → IsPlain v → node_value k v ≡ some w → IsPlain w
  unfolding node_value
  node_value-IsPlain k null w p h = ground arith
  node_value-IsPlain k v w p h = ground (arith, round_value-IsPlain v w)

  export_fields-Passes :
      (names : List String) (node exported out : Fields)
      → All IsHarmless names
      → ArePlain node
      → Passes exported
      → export_fields names node exported ≡ some out
      → Passes out
  unfolding export_fields
  export_fields-Passes [] node exported out h p c e = subst Passes (cc) c
  export_fields-Passes (n ∷ names) node exported out h p c e =
      elim (Option-cases (node_value n (get n node))) [
        | inl bad ↦ absurd (ground arith)
        | inr (w, ok) ↦
            export_fields-Passes names node (put n w exported) out h.1 p
              (put-Passes n w exported h.0
                (node_value-IsPlain n (get n node) w (get-IsPlain n node p) ok) c)
              (ground (arith, ok, e))
      ]

  list-check :
      (path : String) (entries : List Fields)
      → All Passes entries
      → check_denylist texts is_entity_id path (list (items_of (map dict entries))) ≡ none
  unfolding check_denylist
  list-check path entries c = entries-check path 0 entries c

  abbrev PassesEntry : NodeEntry → Type 0
  PassesEntry no_entry = Unit
  PassesEntry (entry node) = Passes node
  PassesEntry unrounded = Unit

  settled-Passes :
      (o : Option Fields)
      → ((fs : Fields) → o ≡ some fs → Passes fs)
      → PassesEntry (elim o [ none ↦ unrounded | some exported ↦ entry exported ])
  settled-Passes none h = tt
  settled-Passes (some fs) h = h fs refl

  export_node-Passes :
      (node : Fields) → All IsHarmless own_names → ArePlain node → PassesEntry (export_node node)
  unfolding export_node
  export_node-Passes node own p =
      let (hash, (_, (_, (_, (_, (_, (_, (_, (_, (_, (_, fields))))))))))) = own in
      let node_hash = get "node_hash" node in
      let start = field "node_hash" node_hash end in
      let o = export_fields node_export_fields node start in
      if_ind PassesEntry (truthy node_hash)
        (elim o [ none ↦ unrounded | some exported ↦ entry exported ]) no_entry
        (settled-Passes o (λ fs e.
          export_fields-Passes node_export_fields node start fs fields p
            (hash, get-IsPlain "node_hash" node p, tt) e))
        tt

  export_runs-Passes :
      (runs : List Fields) (node_hash : Value) (created_at : String)
      → All IsHarmless own_names
      → All IsHarmless run_export_fields
      → All ArePlain runs
      → IsPlain node_hash
      → IsPlain (str created_at)
      → All Passes (map (λ run. export_run run node_hash created_at) runs)
  unfolding export_run
  export_runs-Passes [] node_hash created_at own h p q r = tt
  export_runs-Passes (run ∷ runs) node_hash created_at own h p q r =
      let (hash, (created, (repeat, _))) = own in
      let base =
        field "node_hash" node_hash (
          field "created_at" (str created_at)
            (field "repeat_index" (get "repeat_index" run) end)) in
      (
        copy_fields-Passes run_export_fields run base h p.0
            (hash, q, (created, r, (repeat, get-IsPlain "repeat_index" run p.0, tt))),
        export_runs-Passes runs node_hash created_at own h p.1 q r,
      )

  checked-built :
      (bundle : Fields)
      → check_denylist texts is_entity_id "bundle" (dict bundle) ≡ none
      → checked texts is_entity_id bundle ≡ built bundle
  unfolding checked
  checked-built bundle h = rw (checked, h)

  bundle-check :
      (stamp suite : String) (nodes runs : List Fields)
      → All IsHarmless own_names
      → All IsPlain (str "2" ∷ str stamp ∷ str suite ∷ [])
      → All Passes nodes
      → All Passes runs
      → check_denylist texts is_entity_id "bundle" (dict (assemble stamp suite nodes runs)) ≡ none
  unfolding check_denylist check_items
  bundle-check stamp suite nodes runs own (two, (p, (q, _))) n r =
      let (
        _,
        (
          _,
          (
            _,
            (
              version,
              (
                generated,
                (suite_name, (nodes_name, (runs_name, (grades, (profiles, (baselines, _)))))),
              ),
            ),
          ),
        ),
      ) =
        own in
      let path : String = "bundle" in
      Accepted-check path (assemble stamp suite nodes runs) (
        version,
        plain-check _ (str "2") two,
        (
          generated,
          plain-check _ (str stamp) p,
          (
            suite_name,
            plain-check _ (str suite) q,
            (
              nodes_name,
              list-check _ nodes n,
              (
                runs_name,
                list-check _ runs r,
                (grades, refl, (profiles, refl, (baselines, refl, tt))),
              ),
            ),
          ),
        ),
      )

  -- The bundle of a node's entry.
  abbrev pub assembled : String → String → List Fields → NodeEntry → Built
  assembled stamp suite runs no_entry = built (assemble stamp suite [] runs)
  assembled stamp suite runs (entry node) = built (assemble stamp suite (node ∷ []) runs)
  assembled stamp suite runs unrounded = raised

  abbrev pub NodeIsPlain : Option Fields → Type 0
  NodeIsPlain none = Unit
  NodeIsPlain (some node) = ArePlain node

  with_node-assembled :
      (stamp suite : String) (runs : List Fields) (node : NodeEntry)
      → All IsHarmless own_names
      → All IsPlain (str "2" ∷ str stamp ∷ str suite ∷ [])
      → All Passes runs
      → PassesEntry node
      → with_node texts is_entity_id stamp suite runs node ≡ assembled stamp suite runs node
  unfolding with_node
  with_node-assembled stamp suite runs no_entry own p r n =
      checked-built (assemble stamp suite [] runs) (bundle-check stamp suite [] runs own p tt r)
  with_node-assembled stamp suite runs (entry node) own p r n =
      checked-built (assemble stamp suite (node ∷ []) runs)
        (bundle-check stamp suite (node ∷ []) runs own p (n, tt) r)
  with_node-assembled stamp suite runs unrounded own p r n = refl

  entry_of-Passes :
      (node : Option Fields)
      → All IsHarmless own_names
      → NodeIsPlain node
      → PassesEntry (entry_of texts is_entity_id node)
  entry_of-Passes none own p = tt
  entry_of-Passes (some node) own p = export_node-Passes node own p

  -- Where `lower` leaves the names of the bundle as they are, and all values of the runs and of the node,
  -- the time, the suite and the version are scalars that name no entity, the bundle of all runs is built; or,
  -- if there is a node whose amount of memory is no number to round, that raises. It is never refused.
  pub build_bundle-assembled :
      (runs : List Fields) (node : Option Fields) (generated_at : Option String)
      (suite now : String)
      → Lowers own_names
      → Lowers run_export_fields
      → All ArePlain runs
      → NodeIsPlain node
      → All IsPlain
          (str "2" ∷ str (stamp_of generated_at now) ∷ str suite ∷ node_hash_of texts node ∷ [])
      → let stamp = stamp_of generated_at now in
        build_bundle texts is_entity_id runs node generated_at suite now
        ≡ assembled stamp suite
            (map (λ run. export_run run (node_hash_of texts node) stamp) runs)
            (entry_of texts is_entity_id node)
  unfolding build_bundle
  build_bundle-assembled runs node generated_at suite now own exported p n (two, (t, (s, (h, _)))) =
      let own' = Lowers-IsHarmless own_names own none_own in
      let exported' = Lowers-IsHarmless run_export_fields exported none_exported in
      let stamp = stamp_of generated_at now in
      with_node-assembled stamp suite _ _ own' (two, (t, (s, tt)))
        (export_runs-Passes runs (node_hash_of texts node) stamp own' exported' p h t)
        (entry_of-Passes node own' n)
