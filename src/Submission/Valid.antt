-- ===== src/Submission/Valid.antt =====
-- What an object has that `_validate` of `hmasync_controller/bench/submission.py` finds no error in.
use async_energy_controller.Base.{
  false, Bool, if◌then◌else◌, String, true, Option, none, some, List, [], ◌∷◌, ◌≡◌, refl, arith,
  All, str_eq, str_eq_iff, if_elim,
}
use async_energy_controller.Value.{Value, Fields, end, field, get, has_key, PyText, dict}
use async_energy_controller.Submission.Schema.{
  const_fails, enum_fails, type_fails, const_message, enum_message, type_message, refuse_if,
  run_check, Errors, both, find, words, elements, name_in, object_of, required_errors,
  unexpected_errors, property_errors, object_errors, closed, check_node, validate, field_checks,
  resolved,
}

both-nil : (a b : Errors) → both a b ≡ some [] → (a ≡ some []) × (b ≡ some [])
both-nil none b h = cc
both-nil (some es) none h = cc
both-nil (some []) (some fs) h = (refl, h)
both-nil (some (e ∷ es)) (some fs) h = cc

guard-nil :
    (b : Bool) (message : String) (rest : Errors)
    → refuse_if b message rest ≡ some []
    → rest ≡ some []
unfolding refuse_if
guard-nil true message rest h = cc
guard-nil false message rest h = h

some-inj : (es fs : List String) → some es ≡ some fs → es ≡ fs
some-inj es fs h = ground arith

unexpected-closed : (b : Bool) (es : List String) → b ≡ true → (if b then es else []) ≡ [] → es ≡ []
unexpected-closed true es e h = h
unexpected-closed false es e h = cc

module _ (texts : PyText) (defs : Fields) where
  required-All :
      (fs : Fields) (path : String) (ks : List Value)
      → required_errors texts defs fs path ks ≡ []
      → All (λ k. has_key (name_in k) fs ≡ true) ks
  required-All fs path [] h = tt
  required-All fs path (k ∷ ks) h = ground (arith, required-All fs path ks)

  unexpected-known :
      (properties : Fields) (path k : String) (fs : Fields)
      → unexpected_errors texts defs properties path fs ≡ []
      → has_key k fs ≡ true
      → has_key k properties ≡ true
  unfolding has_key
  unexpected-known properties path k end h has = cc
  unexpected-known properties path k (field j v fs) h has =
      ground (arith, unexpected-known properties path k fs, str_eq_iff j k)

  find-checks :
      (k : String) (fs : Fields)
      → has_key k fs ≡ true
      → find k (field_checks texts defs fs)
        ≡ some (λ node path. validate texts defs (get k fs) node path)
  unfolding has_key get field_checks
  find-checks k end h = cc
  find-checks k (field j v fs) h =
      if_elim
        (λ (w : Value).
          (if str_eq j k
            then some (λ node path. validate texts defs v node path)
            else find k (field_checks texts defs fs))
          ≡ some (λ node path. validate texts defs w node path))
        (str_eq j k) v (get k fs) (λ e. rw e refl) (λ e. rw e (find-checks k fs (ground arith)))

  nested-here :
      (fs sub : Fields) (path k : String)
      → has_key k fs ≡ true
      → run_check (find k (field_checks texts defs fs)) sub path ≡ some []
      → validate texts defs (get k fs) sub path ≡ some []
  nested-here fs sub path k has h = rw (find-checks k fs has) at h

  property-nested :
      (fs : Fields) (path k : String) (properties : Fields)
      → property_errors texts defs (field_checks texts defs fs) path properties ≡ some []
      → has_key k properties ≡ true
      → has_key k fs ≡ true
      → validate texts defs (get k fs) (object_of (get k properties)) (words (path ∷ "." ∷ k ∷ []))
        ≡ some []
  unfolding property_errors has_key get
  property-nested fs path k end h has own = cc
  property-nested fs path k (field j sub more) h has own =
      let (here, later) =
        both-nil
          (run_check (find j (field_checks texts defs fs)) (object_of sub)
            (words (path ∷ "." ∷ j ∷ [])))
          (property_errors texts defs (field_checks texts defs fs) path more) h in
      if_elim
        (λ (v : Value).
          validate texts defs (get k fs) (object_of v) (words (path ∷ "." ∷ k ∷ [])) ≡ some [])
        (str_eq j k) sub (get k more)
        (λ same.
          let own_check : run_check (find k (field_checks texts defs fs)) (object_of sub)
                (words (path ∷ "." ∷ k ∷ []))
              ≡ some [] =
            rw (← (str_eq_iff j k).0 same) here in
          nested-here fs (object_of sub) (words (path ∷ "." ∷ k ∷ [])) k own own_check)
        (λ other. property-nested fs path k more later (ground arith) own)

  check_node-parts :
      (v : Value) (path : String) (parts : Fields → Errors) (node : Option Fields)
      → check_node texts defs v path parts node ≡ some []
      → (n : Fields) × (node ≡ some n) × (parts n ≡ some [])
  unfolding check_node
  check_node-parts v path parts none h = cc
  check_node-parts v path parts (some n) h =
      let last = refuse_if (type_fails v n) (type_message texts defs v path n) (parts n) in
      let later = refuse_if (enum_fails v n) (enum_message texts defs v path n) last in
      let h1 = guard-nil (const_fails v n) (const_message texts defs v path n) later h in
      let h2 = guard-nil (enum_fails v n) (enum_message texts defs v path n) last h1 in
      (n, refl, guard-nil (type_fails v n) (type_message texts defs v path n) (parts n) h2)

  -- The node of an object's schema, and what the object has by it.
  pub record IsValidObject (fs node : Fields) (path : String) : Type 0 where
    pub required : All (λ k. has_key (name_in k) fs ≡ true) (elements (get "required" node))
    pub known :
        closed texts defs node ≡ true
        → (k : String) → has_key k fs ≡ true
        → has_key k (object_of (get "properties" node)) ≡ true
    pub nested :
        (k : String)
        → has_key k (object_of (get "properties" node)) ≡ true
        → has_key k fs ≡ true
        → validate texts defs
            (get k fs)
            (object_of (get k (object_of (get "properties" node))))
            (words (path ∷ "." ∷ k ∷ []))
          ≡ some []

  object_errors-IsValidObject :
      (fs node : Fields) (path : String)
      → has_key "properties" node ≡ true
      → object_errors texts defs fs (field_checks texts defs fs) path node ≡ some []
      → IsValidObject fs node path
  unfolding object_errors
  object_errors-IsValidObject fs node path has h =
      let properties = object_of (get "properties" node) in
      let missing = required_errors texts defs fs path (elements (get "required" node)) in
      let unexpected : List String =
        if closed texts defs node then unexpected_errors texts defs properties path fs else [] in
      let (no_missing, more) =
        both-nil (some missing)
          (both (some unexpected)
            (property_errors texts defs (field_checks texts defs fs) path properties))
          (rw (has, object_errors) at h) in
      let (no_unexpected, nested) =
        both-nil (some unexpected)
          (property_errors texts defs (field_checks texts defs fs) path properties) more in
      record {
        required =
            required-All fs path (elements (get "required" node)) (some-inj missing [] no_missing);
        known = λ is_closed k own.
            unexpected-known properties path k fs
              (unexpected-closed (closed texts defs node) _ is_closed
                (some-inj unexpected [] no_unexpected))
              own;
        nested = λ k in_schema own. property-nested fs path k properties nested in_schema own;
      }

  -- Where the walk finds no error in an object, the schema's reference is resolved, and if the
  -- node has properties, then the object has every required one, under a closed node it has none
  -- beyond them, and the walk finds no error in the value of any of them that the object has.
  pub validate-IsValidObject :
      (fs node : Fields) (path : String)
      → validate texts defs (dict fs) node path ≡ some []
      → (n : Fields) × (resolved node defs ≡ some n)
        × (has_key "properties" n ≡ true → IsValidObject fs n path)
  unfolding validate
  validate-IsValidObject fs node path h =
      let (n, e, parts) =
        check_node-parts (dict fs) path
          (object_errors texts defs fs (field_checks texts defs fs) path) (resolved node defs) h in
      (n, e, λ has. object_errors-IsValidObject fs n path has parts)
