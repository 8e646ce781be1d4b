-- ===== src/PowerCap/Cache.antt =====
-- When `apply` of `hmasync_controller/powercap.py` asks the API, and when it raises.
use async_energy_controller.Base.{
  ◌≡◌, ◌≢◌, Option, none, some, arith, refl, ◌<◌, ◌+◌, ℕ, true, if_ind, not, leb, ◌^◌,
}
use async_energy_controller.Value.{Float, Fields, Value, str, datetime, list, tuple, model}
use async_energy_controller.PowerCap.{
  CapWorld, Manager, raised, returned, recommended_cap_w, apply, is_stale, Call, cap_in, set_cap,
  with_prior, apply_cap, extract_cap_w, remember, read_and_set, Status, ApiResult, skipped_no_gpu,
  dict, get, int, watts_of, null, bool, float,
}
use async_energy_controller.Base.Int.{ℤ, pos}
use async_energy_controller.Value.Number.{float_of_int, float_of_int-overflow}

module _ {E : Type 0} (world : CapWorld E) where
  remember-kept :
      (t : ℕ) (c : Call (Option Float)) (m : Manager) (found : Option Float)
      → c ≡ returned found
      → ((remember world t c m).cached_at ≡ some t)
        × ((remember world t c m).cached_cap ≡ found)
        × ((remember world t c m).cache_ttl ≡ m.cache_ttl)
  remember-kept t raised m found h = cc
  remember-kept t (returned x) m found h = ground arith

  recommended-cached :
      (m : Manager) (e : E) (at : ℕ)
      → m.cached_at ≡ some at
      → (world.now e).0 < at + m.cache_ttl
      → recommended_cap_w world m e ≡ (returned m.cached_cap, m, (world.now e).1)
  unfolding recommended_cap_w
  recommended-cached m e at cached fresh = ground arith

  recommended-kept :
      (m : Manager) (e : E) (found : Option Float)
      → is_stale (world.now e).0 m ≡ true
      → (recommended_cap_w world m e).0 ≡ returned found
      → ((recommended_cap_w world m e).1.cached_at ≡ some (world.now e).0)
        × ((recommended_cap_w world m e).1.cached_cap ≡ found)
        × ((recommended_cap_w world m e).1.cache_ttl ≡ m.cache_ttl)
  unfolding recommended_cap_w
  recommended-kept m e found stale h =
      rw stale (remember-kept (world.now e).0 (cap_in world _) m found (rw stale at h))

  -- What a lookup fetched is what every lookup returns before the lifetime of the cache is over,
  -- counted from the reading of the clock at the fetch; these ask nobody but the clock, and leave
  -- the manager as it is.
  recommended_again :
      (m : Manager) (e later : E) (found : Option Float)
      → is_stale (world.now e).0 m ≡ true
      → (recommended_cap_w world m e).0 ≡ returned found
      → (world.now later).0 < (world.now e).0 + m.cache_ttl
      → recommended_cap_w world (recommended_cap_w world m e).1 later
        ≡ (returned found, (recommended_cap_w world m e).1, (world.now later).1)
  recommended_again m e later found stale h soon =
      let m' = (recommended_cap_w world m e).1 in
      let (at, cap_w, ttl) = kept in
      rw (recommended-cached m' later (world.now e).0 at (rw ttl soon)) (rw cap_w)
    where
      kept :
          ((recommended_cap_w world m e).1.cached_at ≡ some (world.now e).0)
          × ((recommended_cap_w world m e).1.cached_cap ≡ found)
          × ((recommended_cap_w world m e).1.cache_ttl ≡ m.cache_ttl)
      kept = recommended-kept m e found stale h

  -- Reading the limits does not raise, and no answer that the API accepts is an integer beyond the
  -- doubles, or holds one as the cap.
  pub record IsTame : Type 0 where
    pub limit_reads : (e : E) → (world.get_limit e).0 ≢ raised
    pub default_reads : (e : E) → (world.get_default e).0 ≢ raised
    pub answer_fits :
        (e : E) (r : ApiResult)
        → (world.fetch e).0 ≡ returned r
        → (n : ℤ) → r.content ≡ int n
        → float_of_int n ≢ none
    pub cap_fits :
        (e : E) (r : ApiResult) (fs : Fields)
        → (world.fetch e).0 ≡ returned r
        → r.content ≡ dict fs
        → (n : ℤ) → get "recommended_cap_w" fs ≡ int n
        → float_of_int n ≢ none

  watts_of-ne-raised :
      (v : Value) → ((n : ℤ) → v ≡ int n → float_of_int n ≢ none) → watts_of v ≢ raised
  unfolding watts_of
  watts_of-ne-raised (int n) fits = ground (arith, fits n refl)
  watts_of-ne-raised null fits = cc
  watts_of-ne-raised (bool b) fits = cc
  watts_of-ne-raised (float x) fits = cc
  watts_of-ne-raised (str s) fits = cc
  watts_of-ne-raised (datetime t) fits = cc
  watts_of-ne-raised (list vs) fits = cc
  watts_of-ne-raised (tuple vs) fits = cc
  watts_of-ne-raised (dict fs) fits = cc
  watts_of-ne-raised (model fs) fits = cc

  extract-ne-raised :
      (v : Value)
      → ((n : ℤ) → v ≡ int n → float_of_int n ≢ none)
      → ((fs : Fields)
          → v ≡ dict fs
          → (n : ℤ) → get "recommended_cap_w" fs ≡ int n
          → float_of_int n ≢ none)
      → extract_cap_w v ≢ raised
  unfolding extract_cap_w
  extract-ne-raised (dict fs) whole held =
      watts_of-ne-raised (get "recommended_cap_w" fs) (held fs refl)
  extract-ne-raised null whole held = watts_of-ne-raised null whole
  extract-ne-raised (bool b) whole held = watts_of-ne-raised (bool b) whole
  extract-ne-raised (int n) whole held = watts_of-ne-raised (int n) whole
  extract-ne-raised (float x) whole held = watts_of-ne-raised (float x) whole
  extract-ne-raised (str s) whole held = watts_of-ne-raised (str s) whole
  extract-ne-raised (datetime t) whole held = watts_of-ne-raised (datetime t) whole
  extract-ne-raised (list vs) whole held = watts_of-ne-raised (list vs) whole
  extract-ne-raised (tuple vs) whole held = watts_of-ne-raised (tuple vs) whole
  extract-ne-raised (model fs) whole held = watts_of-ne-raised (model fs) whole

  -- A call of the API that raises is no recommendation.
  cap_in-ne-raised : (e : E) → IsTame → cap_in world (world.fetch e).0 ≢ raised
  cap_in-ne-raised e tame = of_answer (world.fetch e).0 refl
    where
      of_answer : (c : Call ApiResult) → (world.fetch e).0 ≡ c → cap_in world c ≢ raised
      of_answer raised h = cc
      of_answer (returned r) h =
          if_ind (λ (c : Call (Option Float)). c ≢ raised) (not r.ok) (returned none)
            (extract_cap_w r.content) (λ k. cc)
            (extract-ne-raised r.content (tame.answer_fits e r h) (λ fs. tame.cap_fits e r fs h))

  set_cap-ne-raised :
      (cap_w prior : Float) (m : Manager) (e : E)
      → IsTame
      → (set_cap world cap_w prior m e).0 ≢ raised
  unfolding set_cap
  set_cap-ne-raised cap_w prior m e tame =
      ground (arith, tame.default_reads (world.set_limit cap_w e).1)

  with_prior-ne-raised :
      (cap_w : Float) (read : Call (Option Float)) (m : Manager) (e : E)
      → IsTame
      → read ≢ raised
      → (with_prior world cap_w read m e).0 ≢ raised
  unfolding with_prior
  with_prior-ne-raised cap_w raised m e tame h = absurd (h refl)
  with_prior-ne-raised cap_w (returned none) m e tame h = cc
  with_prior-ne-raised cap_w (returned (some prior)) m e tame h =
      set_cap-ne-raised cap_w prior m e tame

  apply_cap-ne-raised :
      (found : Call (Option Float)) (m : Manager) (e : E)
      → IsTame
      → found ≢ raised
      → (apply_cap world found m e).0 ≢ raised
  unfolding apply_cap read_and_set
  apply_cap-ne-raised raised m e tame h = absurd (h refl)
  apply_cap-ne-raised (returned none) m e tame h = cc
  apply_cap-ne-raised (returned (some cap_w)) m e tame h =
      with_prior-ne-raised cap_w _ m _ tame (tame.limit_reads e)

  recommended-ne-raised : (m : Manager) (e : E) → IsTame → (recommended_cap_w world m e).0 ≢ raised
  unfolding recommended_cap_w
  recommended-ne-raised m e tame = ground (arith, cap_in-ne-raised (world.now e).1 tame)

  -- Where reading the limits does not raise and no answer is an integer beyond the doubles or holds one as the
  -- cap, `apply` returns a status: neither a call of the API that raises nor a refused write makes it raise.
  pub apply-ne-raised : (m : Manager) (e : E) → IsTame → (apply world m e).0 ≢ raised
  unfolding apply
  apply-ne-raised m e tame =
      let (found, m', e') = recommended_cap_w world m e in
      if_ind (λ (r : Call Status × Manager × E). r.0 ≢ raised) (not m.nvml)
        (returned skipped_no_gpu, m, e) (apply_cap world found m' e') (λ h. cc)
        (apply_cap-ne-raised found m' e' tame (recommended-ne-raised m e tame))

  cap_in-overflow :
      (n : ℕ) (result : ApiResult) (fs : Fields)
      → result.ok ≡ true
      → result.content ≡ dict fs
      → get "recommended_cap_w" fs ≡ int (pos n)
      → leb (2 ^ 1024) n ≡ true
      → cap_in world (returned result) ≡ raised
  unfolding extract_cap_w
  cap_in-overflow n result fs ok content cap_w huge =
      rw (ok, content, extract_cap_w, cap_w, watts_of) (rw (float_of_int-overflow n huge))

  -- On a box with an NVML profiler and no cached recommendation, `apply` raises whenever the API
  -- answers with an integer of 2 ^ 1024 or more as the recommended cap.
  pub apply_raises :
      (m : Manager) (e : E) (n : ℕ) (result : ApiResult) (fs : Fields)
      → m.nvml ≡ true
      → m.cached_at ≡ none
      → (world.fetch (world.now e).1).0 ≡ returned result
      → result.ok ≡ true
      → result.content ≡ dict fs
      → get "recommended_cap_w" fs ≡ int (pos n)
      → leb (2 ^ 1024) n ≡ true
      → (apply world m e).0 ≡ raised
  unfolding apply
  apply_raises m e n result fs nvml cold answer ok content cap_w huge =
      ground (arith, cap_in-overflow n result fs ok content cap_w huge)
