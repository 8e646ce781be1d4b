-- ===== src/Node/Clean.antt =====
-- The fingerprint of `hmasync_controller/fingerprint.py` passes the redaction net of
-- `hmasync_controller/bench/submission.py`.
use async_energy_controller.Base.{
  ◌≡◌, refl, String, false, List, [], ◌∷◌, str_eq, if_elim, any, All, Option, some, if_ind, none,
}
use async_energy_controller.Value.{Float, Value, float, str, Fields, end, field, put, PyText, dict}
use async_energy_controller.Executor.Run.{update}
use async_energy_controller.Submission.Redact.{
  denylisted_key_substrings, is_denied, denylisted_keys, denylisted_fields, contains, starts_with,
}
use async_energy_controller.Node.{
  read_gpu_fields, collect_fingerprint, put_text, put_float, starts_with, device_fingerprint,
  System, Gpu, device, vram_of, compute_node_hash, read_cpu_model, read_ram_gb, other, failing,
}

abbrev pub own_names : List String
own_names = "node_hash" ∷ "cpu_model" ∷ "ram_gb" ∷ "gpu_name" ∷ "driver_version" ∷ "vram_gb" ∷ []

module _ (texts : PyText) where
  -- A text or a number.
  data IsLeaf : Value → Type 0 where
    a_text : (s : String) → IsLeaf (str s)
    a_float : (x : Float) → IsLeaf (float x)

  abbrev IsClean : Fields → Type 0
  IsClean end = Unit
  IsClean (field k v fs) = (is_denied texts k ≡ false) × IsLeaf v × IsClean fs

  put-IsClean :
      (k : String) (v : Value) (fs : Fields)
      → is_denied texts k ≡ false
      → IsLeaf v
      → IsClean fs
      → IsClean (put k v fs)
  unfolding put
  put-IsClean k v end h leaf c = (h, leaf, tt)
  put-IsClean k v (field j w fs) h leaf c =
      if_elim IsClean (str_eq j k) (field j v fs) (field j w (put k v fs)) (λ _. (c.0, leaf, c.2))
        (λ _. (c.0, c.1, put-IsClean k v fs h leaf c.2))

  update-IsClean : (fs more : Fields) → IsClean fs → IsClean more → IsClean (update fs more)
  unfolding update
  update-IsClean fs end c d = c
  update-IsClean fs (field k v more) c d =
      update-IsClean (put k v fs) more (put-IsClean k v fs d.0 d.1 c) d.2

  leaf-denylisted : (path : String) (v : Value) → IsLeaf v → denylisted_keys texts path v ≡ []
  unfolding denylisted_keys
  leaf-denylisted path _ (a_text s) = refl
  leaf-denylisted path _ (a_float x) = refl

  IsClean-denylisted :
      (path : String) (fs : Fields) → IsClean fs → denylisted_fields texts path fs ≡ []
  unfolding denylisted_fields
  IsClean-denylisted path end c = refl
  IsClean-denylisted path (field k v fs) c =
      rw (c.0, leaf-denylisted _ v c.1) (IsClean-denylisted path fs c.2)

  lower-is_denied :
      (k : String)
      → texts.lower k ≡ k
      → any (λ token. contains token k) denylisted_key_substrings ≡ false
      → is_denied texts k ≡ false
  unfolding is_denied
  lower-is_denied k e h = rw e h

  -- Python's `lower` leaves the names of the fields, which are in lower case, as they are.
  abbrev pub Lowers : Type 0
  Lowers = All (λ k. texts.lower k ≡ k) own_names

  record Allowed : Type 0 where
    node_hash : is_denied texts "node_hash" ≡ false
    cpu_model : is_denied texts "cpu_model" ≡ false
    ram_gb : is_denied texts "ram_gb" ≡ false
    gpu_name : is_denied texts "gpu_name" ≡ false
    driver_version : is_denied texts "driver_version" ≡ false
    vram_gb : is_denied texts "vram_gb" ≡ false

  module _ (lowers : Lowers) where
    put_text-IsClean :
        (k : String) (o : Option String) (fs : Fields)
        → is_denied texts k ≡ false
        → IsClean fs
        → IsClean (put_text k o fs)
    put_text-IsClean k none fs h c = c
    put_text-IsClean k (some s) fs h c =
        if_ind IsClean (str_eq s "") fs (put k (str s) fs) c
          (put-IsClean k (str s) fs h (a_text s) c)

    put_float-IsClean :
        (k : String) (o : Option Float) (fs : Fields)
        → is_denied texts k ≡ false
        → IsClean fs
        → IsClean (put_float k o fs)
    put_float-IsClean k none fs h c = c
    put_float-IsClean k (some x) fs h c = put-IsClean k (float x) fs h (a_float x) c

    allowed : Allowed
    unfolding contains starts_with
    allowed =
        let (hash, (cpu, (ram, (gpu, (driver, (vram, _)))))) = lowers in
        record {
          node_hash = lower-is_denied "node_hash" hash refl;
          cpu_model = lower-is_denied "cpu_model" cpu refl;
          ram_gb = lower-is_denied "ram_gb" ram refl;
          gpu_name = lower-is_denied "gpu_name" gpu refl;
          driver_version = lower-is_denied "driver_version" driver refl;
          vram_gb = lower-is_denied "vram_gb" vram refl;
        }

    read_gpu_fields-IsClean : (gpu : Gpu) → IsClean (read_gpu_fields gpu)
    unfolding read_gpu_fields device_fingerprint
    read_gpu_fields-IsClean other = tt
    read_gpu_fields-IsClean failing = tt
    read_gpu_fields-IsClean (device d) =
        let named = put_text "gpu_name" d.gpu_name end in
        let versioned = put_text "driver_version" d.driver_version named in
        put_float-IsClean "vram_gb" (vram_of d.memory_total) versioned allowed.vram_gb (
          put_text-IsClean "driver_version" d.driver_version named allowed.driver_version
            (put_text-IsClean "gpu_name" d.gpu_name end allowed.gpu_name tt))

    -- Where `lower` leaves the names of its fields as they are, the fingerprint of any box has no
    -- denied key: the redaction net finds nothing in it.
    pub collect_fingerprint-denylisted :
        (system : System) (gpu : Gpu) (salt : String)
        → denylisted_keys texts "$" (dict (collect_fingerprint texts system gpu salt)) ≡ []
    unfolding collect_fingerprint denylisted_keys
    collect_fingerprint-denylisted system gpu salt =
        let payload = field "node_hash" (str (compute_node_hash system salt)) end in
        let with_cpu = put_text "cpu_model" (read_cpu_model texts system) payload in
        let with_ram = put_float "ram_gb" (read_ram_gb texts system) with_cpu in
        IsClean-denylisted "$" (update with_ram (read_gpu_fields gpu)) (
          update-IsClean with_ram (read_gpu_fields gpu)
            (put_float-IsClean "ram_gb" (read_ram_gb texts system) with_cpu allowed.ram_gb (
              put_text-IsClean "cpu_model" (read_cpu_model texts system) payload allowed.cpu_model
                (allowed.node_hash, a_text (compute_node_hash system salt), tt)))
            (read_gpu_fields-IsClean gpu))
