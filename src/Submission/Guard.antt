-- ===== src/Submission/Guard.antt =====
-- What `submit_bundle_file` of `hmasync_controller/bench/submission.py` lets out, and what it keeps.
use Prim.Native.String.{◌++◌}
use async_energy_controller.Base.{
  is_some, none, some, if_ind, ap, if_elim, ◌∙◌, sym, String, true, false, Option, none, some, List,
  [], ◌∷◌, ◌≡◌, refl, ◌⊎◌, inl, inr, ℕ, All, arith, if◌then◌else◌,
}
use async_energy_controller.Value.{
  Value, null, bool, int, float, str, datetime, list, tuple, model, dict, Fields, field, end,
  PyText,
}
use async_energy_controller.Spool.Order.{enqueue-eq}
use async_energy_controller.Value.Encode.{is_plain}
use async_energy_controller.Spool.{Spool, column, enqueue}
use async_energy_controller.Value.{get}
use async_energy_controller.Submission.Redact.{
  keys_of, IsAllowed, denylisted_keys, denylisted_keys_lem,
}
use async_energy_controller.Submission.Schema.{Errors, validate_bundle}
use async_energy_controller.Submission.{
  Carrier, SubmitResult, Read, unreadable, parsed, Loaded, loaded, not_loaded, load_bundle,
  drain_bench_spool, after_enqueue, refuse, flushed_note, keep, send_checked, check_schema,
  check_keys, submit_loaded, submit_bundle_file,
}

module _ {W : Type 0} (carrier : Carrier W) (texts : PyText) (schema : Fields) (now : String) where
  abbrev pub SubmitOutcome : Type 0
  SubmitOutcome = SubmitResult × W × Spool

  -- Nothing is sent and nothing is kept.
  pub record IsRefused (w : W) (spool : Spool) (r : SubmitOutcome) : Type 0 where
    pub refused : r.0.ok ≡ false
    pub not_spooled : r.0.spooled ≡ false
    pub world_same : r.1 ≡ w
    pub spool_same : r.2 ≡ spool

  -- The bundle is free of denied keys and valid; it was sent once, and it is kept if that found no
  -- API, and only then.
  pub record IsSent (bundle : Fields) (w : W) (spool : Spool) (r : SubmitOutcome) : Type 0 where
    pub allowed : All (IsAllowed texts) (keys_of (dict bundle))
    pub valid : validate_bundle texts schema (dict bundle) ≡ some []
    pub sent : r.1 ≡ (carrier.send_bundle bundle w).1
    pub accepted : r.0.ok ≡ (carrier.send_bundle bundle w).0.ok
    pub kept :
        let answer = (carrier.send_bundle bundle w).0 in
        ((r.0.spooled ≡ false)
          × (r.2 ≡ spool)
          × (answer.ok ≡ false → answer.transport_error ≡ false))
        ⊎ ((r.0.spooled ≡ true)
            × (answer.transport_error ≡ true)
            × ((id : ℕ) × (enqueue texts now (dict (field "bundle" (dict bundle) end)) [] spool
                  ≡ some (id, r.2))))

  abbrev pub Handled : Loaded → W → Spool → SubmitOutcome → Type 0
  Handled (not_loaded e) w spool r = IsRefused w spool r
  Handled (loaded bundle) w spool r = IsRefused w spool r ⊎ IsSent bundle w spool r

  after_enqueue-eq :
      (error : Value) (w : W) (queued : Option (ℕ × Spool)) (r : SubmitOutcome)
      → after_enqueue carrier texts schema now error w queued ≡ some r
      → (r.0.ok ≡ false) × (r.0.spooled ≡ true) × (r.1 ≡ w) × ((id : ℕ) × (queued ≡ some (id, r.2)))
  unfolding after_enqueue
  after_enqueue-eq error w none r h = cc
  after_enqueue-eq error w (some (id, spool')) r h =
      (ground arith, ground arith, ground arith, (id, ground arith))

  checked-IsSent :
      (name : String) (drained : ℕ) (bundle : Fields) (w : W) (spool : Spool) (r : SubmitOutcome)
      → All (IsAllowed texts) (keys_of (dict bundle))
      → validate_bundle texts schema (dict bundle) ≡ some []
      → send_checked carrier texts schema now name drained bundle w spool ≡ some r
      → IsSent bundle w spool r
  unfolding send_checked keep
  checked-IsSent name drained bundle w spool r allowed valid =
      let (answer, w') = carrier.send_bundle bundle w in
      let message = "submitted " ++ name ++ flushed_note carrier texts schema now drained in
      let done : Option SubmitOutcome =
        some (record { ok = true; spooled = false; message = message }, w', spool) in
      let refused =
        refuse carrier texts schema now ("submission refused: " ++ texts.format answer.error) w'
          spool in
      let queued = keep carrier texts schema now answer.error bundle w' spool in
      if_elim (λ (o : Option SubmitOutcome). o ≡ some r → IsSent bundle w spool r) answer.ok done
        (if answer.transport_error then queued else refused)
        (λ ok h. record {
          allowed = allowed;
          valid = valid;
          sent = ground arith;
          accepted = ground arith;
          kept = inl (ground arith, ground arith, λ no. cc);
        })
        (λ ok.
          if_elim (λ (o : Option SubmitOutcome). o ≡ some r → IsSent bundle w spool r)
            answer.transport_error queued refused (λ lost h. kept_IsSent ok lost h)
            (λ reached h. record {
              allowed = allowed;
              valid = valid;
              sent = ground arith;
              accepted = ground arith;
              kept = inl (ground arith, ground arith, λ no. reached);
            }))
    where
      kept_IsSent :
          (carrier.send_bundle bundle w).0.ok ≡ false
          → (carrier.send_bundle bundle w).0.transport_error ≡ true
          → keep carrier texts schema now
              (carrier.send_bundle bundle w).0.error
              bundle
              (carrier.send_bundle bundle w).1
              spool
            ≡ some r
          → IsSent bundle w spool r
      kept_IsSent ok lost h =
          let (not_ok, spooled, same, queued) = after_enqueue-eq _ _ _ r h in
          record {
            allowed = allowed;
            valid = valid;
            sent = same;
            accepted = not_ok ∙ sym ok;
            kept = inr (spooled, lost, queued);
          }

  schema-IsSent :
      (name : String) (drained : ℕ) (bundle : Fields) (errors : Errors) (w : W) (spool : Spool)
      (r : SubmitOutcome)
      → All (IsAllowed texts) (keys_of (dict bundle))
      → validate_bundle texts schema (dict bundle) ≡ errors
      → check_schema carrier texts schema now name drained bundle errors w spool ≡ some r
      → IsRefused w spool r ⊎ IsSent bundle w spool r
  unfolding check_schema
  schema-IsSent name drained bundle none w spool r allowed valid h = cc h
  schema-IsSent name drained bundle (some []) w spool r allowed valid h =
      inr (checked-IsSent name drained bundle w spool r allowed valid h)
  schema-IsSent name drained bundle (some (e ∷ es)) w spool r allowed valid h = inl (record {
    refused = ground arith;
    not_spooled = ground arith;
    world_same = ground arith;
    spool_same = ground arith;
  })

  keys-IsSent :
      (name : String) (drained : ℕ) (bundle : Fields) (denied : List String) (w : W) (spool : Spool)
      (r : SubmitOutcome)
      → denylisted_keys texts "$" (dict bundle) ≡ denied
      → check_keys carrier texts schema now name drained bundle denied w spool ≡ some r
      → IsRefused w spool r ⊎ IsSent bundle w spool r
  unfolding check_keys
  keys-IsSent name drained bundle [] w spool r clean h =
      schema-IsSent name drained bundle (validate_bundle texts schema (dict bundle)) w spool r
        ((denylisted_keys_lem texts "$" (dict bundle)).0 clean) refl h
  keys-IsSent name drained bundle (k ∷ ks) w spool r clean h = inl (record {
    refused = ground arith;
    not_spooled = ground arith;
    world_same = ground arith;
    spool_same = ground arith;
  })

  loaded-Handled :
      (name : String) (drained : ℕ) (file : Loaded) (w : W) (spool : Spool) (r : SubmitOutcome)
      → submit_loaded carrier texts schema now name drained file w spool ≡ some r
      → Handled file w spool r
  unfolding submit_loaded
  loaded-Handled name drained (not_loaded e) w spool r h = record {
    refused = ground arith;
    not_spooled = ground arith;
    world_same = ground arith;
    spool_same = ground arith;
  }
  loaded-Handled name drained (loaded bundle) w spool r h =
      keys-IsSent name drained bundle (denylisted_keys texts "$" (dict bundle)) w spool r refl h

  abbrev Returns : Option SubmitOutcome → Type 0
  Returns o = (r : SubmitOutcome) × (o ≡ some r)

  keep-Returns :
      (error : Value) (bundle : Fields) (w : W) (spool : Spool)
      → is_plain (dict bundle) ≡ true
      → Returns (keep carrier texts schema now error bundle w spool)
  unfolding keep after_enqueue is_plain column get
  keep-Returns error bundle w spool plain =
      let wrapped = dict (field "bundle" (dict bundle) end) in
      (
        _,
        ap (after_enqueue carrier texts schema now error w)
            (enqueue-eq texts now wrapped [] spool (ground arith) refl (refl, refl)),
      )

  send-Returns :
      (name : String) (drained : ℕ) (bundle : Fields) (w : W) (spool : Spool)
      → is_plain (dict bundle) ≡ true
      → Returns (send_checked carrier texts schema now name drained bundle w spool)
  unfolding send_checked
  send-Returns name drained bundle w spool plain =
      let (answer, w') = carrier.send_bundle bundle w in
      let message = "submitted " ++ name ++ flushed_note carrier texts schema now drained in
      let done : Option SubmitOutcome =
        some (record { ok = true; spooled = false; message = message }, w', spool) in
      let refused =
        refuse carrier texts schema now ("submission refused: " ++ texts.format answer.error) w'
          spool in
      let queued = keep carrier texts schema now answer.error bundle w' spool in
      if_ind Returns answer.ok done (if answer.transport_error then queued else refused) (_, refl)
        (if_ind Returns answer.transport_error queued refused
          (keep-Returns answer.error bundle w' spool plain) (_, refl))

  check-Returns :
      (name : String) (drained : ℕ) (bundle : Fields) (errors : Errors) (w : W) (spool : Spool)
      → is_plain (dict bundle) ≡ true
      → is_some errors ≡ true
      → Returns (check_schema carrier texts schema now name drained bundle errors w spool)
  unfolding check_schema
  check-Returns name drained bundle none w spool plain found = absurd (cc found)
  check-Returns name drained bundle (some []) w spool plain found =
      send-Returns name drained bundle w spool plain
  check-Returns name drained bundle (some (e ∷ es)) w spool plain found = (_, refl)

  keys-Returns :
      (name : String) (drained : ℕ) (bundle : Fields) (denied : List String) (w : W) (spool : Spool)
      → is_plain (dict bundle) ≡ true
      → is_some (validate_bundle texts schema (dict bundle)) ≡ true
      → Returns (check_keys carrier texts schema now name drained bundle denied w spool)
  unfolding check_keys
  keys-Returns name drained bundle [] w spool plain found =
      check-Returns name drained bundle (validate_bundle texts schema (dict bundle)) w spool plain
        found
  keys-Returns name drained bundle (k ∷ ks) w spool plain found = (_, refl)

  -- What `json.loads` gives.
  abbrev pub IsJson : Read → Type 0
  IsJson (unreadable e) = Unit
  IsJson (parsed v) = is_plain v ≡ true

  -- The walk over an object finds every reference of the schema that it needs.
  abbrev pub Resolves : Read → Type 0
  Resolves (parsed (dict bundle)) = is_some (validate_bundle texts schema (dict bundle)) ≡ true
  Resolves _ = Unit

  loaded-Returns :
      (path name : String) (drained : ℕ) (file : Read) (w : W) (spool : Spool)
      → IsJson file
      → Resolves file
      → Returns
          (submit_loaded carrier texts schema now name drained (load_bundle path file) w spool)
  unfolding load_bundle submit_loaded
  loaded-Returns path name drained (unreadable e) w spool json found = (_, refl)
  loaded-Returns path name drained (parsed null) w spool json found = (_, refl)
  loaded-Returns path name drained (parsed (bool b)) w spool json found = (_, refl)
  loaded-Returns path name drained (parsed (int n)) w spool json found = (_, refl)
  loaded-Returns path name drained (parsed (float x)) w spool json found = (_, refl)
  loaded-Returns path name drained (parsed (str s)) w spool json found = (_, refl)
  loaded-Returns path name drained (parsed (datetime t)) w spool json found = (_, refl)
  loaded-Returns path name drained (parsed (list vs)) w spool json found = (_, refl)
  loaded-Returns path name drained (parsed (tuple vs)) w spool json found = (_, refl)
  loaded-Returns path name drained (parsed (model fs)) w spool json found = (_, refl)
  loaded-Returns path name drained (parsed (dict bundle)) w spool json found =
      keys-Returns name drained bundle (denylisted_keys texts "$" (dict bundle)) w spool json found

  -- A submission of a file that `json.loads` gave returns, where the walk over it finds every
  -- reference of the schema. After the queue is drained, a file that cannot be read or is no object
  -- is refused, with no request sent and the queue left alone. One that is an object is refused in
  -- the same way, or it has no denied key at any depth, the walk over the schema finds no error in
  -- it, and it is sent once; then the result is that of the API, and the bundle joins the queue if
  -- the API refused it for lack of a connection, and only if there was none.
  pub submit_bundle_file-Handled :
      (path name : String) (file : Read) (w : W) (spool : Spool)
      → IsJson file
      → Resolves file
      → let drained = drain_bench_spool carrier none w spool in
        (r : SubmitOutcome) × (submit_bundle_file carrier texts schema now path name file w spool
          ≡ some r)
        × Handled (load_bundle path file) drained.1 drained.2 r
  unfolding submit_bundle_file
  submit_bundle_file-Handled path name file w spool json found =
      let (drain, w', spool') = drain_bench_spool carrier none w spool in
      let (r, returned) = loaded-Returns path name drain.drained file w' spool' json found in
      (r, returned, loaded-Handled name drain.drained (load_bundle path file) w' spool' r returned)
