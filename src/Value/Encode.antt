-- ===== src/Value/Encode.antt =====
-- `_jsonable` of `hmasync_controller/apiclient.py`, and what `json.dumps` with `_json_default` of
-- `hmasync_controller/spool.py` followed by `json.loads` makes of a value. `isoformat` is that of
-- `datetime`, as a parameter.
use async_energy_controller.Base.{
  String, ◌≡◌, refl, ap, ◌⊎◌, inl, inr, Option, none, some, arith, Bool, true, false, ◌&&◌,
}
use async_energy_controller.Value.{
  DateTime, Value, null, bool, int, float, str, datetime, list, tuple, dict, model, Items, nil,
  cons, Fields, end, field, get,
}

module _ (isoformat : DateTime → String) where
  -- Structural recursion over the payload.
  unfoldable mutual
    pub jsonable : Value → Value
    jsonable null = null
    jsonable (bool b) = bool b
    jsonable (int n) = int n
    jsonable (float x) = float x
    jsonable (str s) = str s
    jsonable (datetime t) = str (isoformat t)
    jsonable (list vs) = list (jsonable_items vs)
    jsonable (tuple vs) = list (jsonable_items vs)
    jsonable (dict fs) = dict (jsonable_fields fs)
    jsonable (model fs) = dict (jsonable_fields fs)

    pub jsonable_items : Items → Items
    jsonable_items nil = nil
    jsonable_items (cons v vs) = cons (jsonable v) (jsonable_items vs)

    pub jsonable_fields : Fields → Fields
    jsonable_fields end = end
    jsonable_fields (field k v fs) = field k (jsonable v) (jsonable_fields fs)

  -- `json.loads(json.dumps(value, default=_json_default))`: `none` is the `TypeError` that
  -- `_json_default` raises for an object that is no datetime.
  unfoldable mutual
    pub stored : Value → Option Value
    stored null = some null
    stored (bool b) = some (bool b)
    stored (int n) = some (int n)
    stored (float x) = some (float x)
    stored (str s) = some (str s)
    stored (datetime t) = some (str (isoformat t))
    stored (list vs) = elim (stored_items vs) [ none ↦ none | some ws ↦ some (list ws) ]
    stored (tuple vs) = elim (stored_items vs) [ none ↦ none | some ws ↦ some (list ws) ]
    stored (dict fs) = elim (stored_fields fs) [ none ↦ none | some gs ↦ some (dict gs) ]
    stored (model fs) = none

    pub stored_items : Items → Option Items
    stored_items nil = some nil
    stored_items (cons v vs) = elim (stored v) [
      | none ↦ none
      | some w ↦ elim (stored_items vs) [ none ↦ none | some ws ↦ some (cons w ws) ]
    ]

    pub stored_fields : Fields → Option Fields
    stored_fields end = some end
    stored_fields (field k v fs) = elim (stored v) [
      | none ↦ none
      | some w ↦ elim (stored_fields fs) [ none ↦ none | some gs ↦ some (field k w gs) ]
    ]

  -- `OrNone o v`: `o` is `v`, if it is anything.
  abbrev OrNone : {A : Type 0} → Option A → A → Type 0
  OrNone o v = (o ≡ none) ⊎ (o ≡ some v)

  mutual
    unfolding jsonable stored jsonable_items stored_items jsonable_fields stored_fields

    pub stored-OrNone : (v : Value) → OrNone (stored v) (jsonable v)
    stored-OrNone null = inr refl
    stored-OrNone (bool b) = inr refl
    stored-OrNone (int n) = inr refl
    stored-OrNone (float x) = inr refl
    stored-OrNone (str s) = inr refl
    stored-OrNone (datetime t) = inr refl
    stored-OrNone (list vs) = ground (arith, stored_items-OrNone vs)
    stored-OrNone (tuple vs) = ground (arith, stored_items-OrNone vs)
    stored-OrNone (dict fs) = ground (arith, stored_fields-OrNone fs)
    stored-OrNone (model fs) = inl refl

    stored_items-OrNone : (vs : Items) → OrNone (stored_items vs) (jsonable_items vs)
    stored_items-OrNone nil = inr refl
    stored_items-OrNone (cons v vs) = ground (arith, stored-OrNone v, stored_items-OrNone vs)

    stored_fields-OrNone : (fs : Fields) → OrNone (stored_fields fs) (jsonable_fields fs)
    stored_fields-OrNone end = inr refl
    stored_fields-OrNone (field k v fs) = ground (arith, stored-OrNone v, stored_fields-OrNone fs)

  mutual
    unfolding jsonable jsonable_items jsonable_fields

    pub jsonable_idem : (v : Value) → jsonable (jsonable v) ≡ jsonable v
    jsonable_idem null = refl
    jsonable_idem (bool b) = refl
    jsonable_idem (int n) = refl
    jsonable_idem (float x) = refl
    jsonable_idem (str s) = refl
    jsonable_idem (datetime t) = refl
    jsonable_idem (list vs) = ap list (jsonable_items_idem vs)
    jsonable_idem (tuple vs) = ap list (jsonable_items_idem vs)
    jsonable_idem (dict fs) = ap dict (jsonable_fields_idem fs)
    jsonable_idem (model fs) = ap dict (jsonable_fields_idem fs)

    jsonable_items_idem : (vs : Items) → jsonable_items (jsonable_items vs) ≡ jsonable_items vs
    jsonable_items_idem nil = refl
    jsonable_items_idem (cons v vs) = cc (jsonable_idem v, jsonable_items_idem vs)

    jsonable_fields_idem : (fs : Fields) → jsonable_fields (jsonable_fields fs) ≡ jsonable_fields fs
    jsonable_fields_idem end = refl
    jsonable_fields_idem (field k v fs) = cc (jsonable_idem v, jsonable_fields_idem fs)

  -- Encoding changes no text at a key that holds one.
  pub get-jsonable : (k : String) (fs : Fields) → get k (jsonable_fields fs) ≡ jsonable (get k fs)
  unfolding get jsonable jsonable_fields
  get-jsonable k end = refl
  get-jsonable k (field j v fs) = ground (arith, get-jsonable k fs)

  -- A payload that the spool gives back is sent as the payload itself would have been sent.
  pub stored-replays : (v w : Value) → stored v ≡ some w → jsonable w ≡ jsonable v
  stored-replays v w h = ground (arith, stored-OrNone v, jsonable_idem v)

-- No pydantic model anywhere inside: what `json.dumps` with `_json_default` accepts.
unfoldable mutual
  pub is_plain : Value → Bool
  is_plain null = true
  is_plain (bool b) = true
  is_plain (int n) = true
  is_plain (float x) = true
  is_plain (str s) = true
  is_plain (datetime t) = true
  is_plain (list vs) = is_plain_items vs
  is_plain (tuple vs) = is_plain_items vs
  is_plain (dict fs) = is_plain_fields fs
  is_plain (model fs) = false

  pub is_plain_items : Items → Bool
  is_plain_items nil = true
  is_plain_items (cons v vs) = is_plain v && is_plain_items vs

  pub is_plain_fields : Fields → Bool
  is_plain_fields end = true
  is_plain_fields (field k v fs) = is_plain v && is_plain_fields fs

module _ (isoformat : DateTime → String) where
  mutual
    unfolding jsonable stored jsonable_items stored_items jsonable_fields stored_fields is_plain
        is_plain_items is_plain_fields

    -- A payload without models is stored, and as the API client would have sent it.
    pub stored-eq-jsonable :
        (v : Value) → is_plain v ≡ true → stored isoformat v ≡ some (jsonable isoformat v)
    stored-eq-jsonable null h = refl
    stored-eq-jsonable (bool b) h = refl
    stored-eq-jsonable (int n) h = refl
    stored-eq-jsonable (float x) h = refl
    stored-eq-jsonable (str s) h = refl
    stored-eq-jsonable (datetime t) h = refl
    stored-eq-jsonable (list vs) h = rw (stored_items-eq-jsonable vs h)
    stored-eq-jsonable (tuple vs) h = rw (stored_items-eq-jsonable vs h)
    stored-eq-jsonable (dict fs) h = rw (stored_fields-eq-jsonable fs h)
    stored-eq-jsonable (model fs) h = cc

    stored_items-eq-jsonable :
        (vs : Items)
        → is_plain_items vs ≡ true
        → stored_items isoformat vs ≡ some (jsonable_items isoformat vs)
    stored_items-eq-jsonable nil h = refl
    stored_items-eq-jsonable (cons v vs) h =
        rw (stored-eq-jsonable v (ground arith)) (rw (stored_items-eq-jsonable vs (ground arith)))

    stored_fields-eq-jsonable :
        (fs : Fields)
        → is_plain_fields fs ≡ true
        → stored_fields isoformat fs ≡ some (jsonable_fields isoformat fs)
    stored_fields-eq-jsonable end h = refl
    stored_fields-eq-jsonable (field k v fs) h =
        rw (stored-eq-jsonable v (ground arith)) (rw (stored_fields-eq-jsonable fs (ground arith)))
