-- ===== src/Node.antt =====
-- `hmasync_controller/fingerprint.py`, with `NVMLProfiler.device_fingerprint` of
-- `hmasync_controller/profiler.py`: what a box says of itself. A file is its text, or `none` where reading it
-- raises an `OSError`.
pub mod Salt
pub mod Clean
pub mod Examples
use Prim.Native.Char.{code}
use Prim.Native.String.{◌++◌ as text_append}
use async_energy_controller.Base.{
  ℕ, zero, suc, ◌+◌, ◌*◌, ◌/◌, ◌%◌, ◌^◌, String, Bool, true, false, not, ◌&&◌, ◌||◌, Option, none,
  some, List, [], ◌∷◌, ltb, ◌==◌, str_eq, if◌then◌else◌,
}
use async_energy_controller.Base.Int.{ℤ, pos, negsuc}
use async_energy_controller.Value.{
  Float, finite, Value, float, str, Fields, end, field, put, PyText,
}
use async_energy_controller.Value.Double.{
  half_even, true_quotient, divide_by, magnitude, nearest, double_of, is_below_zero,
}
use async_energy_controller.Executor.Schedule.{lstrip, rstrip}
use async_energy_controller.Executor.Run.{update}
use async_energy_controller.Submission.Redact.{starts_with}
use async_energy_controller.Bench.Rouge.{split_spaces}

-- What `NVMLProfiler.device_fingerprint` gets from the driver; a name is decoded.
pub record Device : Type 0 where
  pub gpu_name : Option String
  pub driver_version : Option String
  pub memory_total : Option ℕ

-- A profiler, as far as the fingerprint asks it: of another kind, one that raises, or a device.
pub data Gpu : Type 0 where
  other failing : Gpu
  device : Device → Gpu

-- The system. `sysctl` is the output of `sysctl -n`, or `none` where it cannot be run.
pub record System : Type 0 where
  pub is_darwin : Bool
  pub sysctl : String → Option String
  pub cpuinfo : Option String
  pub meminfo : Option String
  pub splitlines : String → List String
  pub sha256_hex : String → String

abbrev pub strip : String → String
strip s = rstrip (lstrip s)

-- `value or None`.
abbrev pub given : String → Option String
given s = if str_eq s "" then none else some s

unfoldable pub read_sysctl : System → String → Option String
unfolding lstrip rstrip
read_sysctl system key =
    if not system.is_darwin
    then none
    else elim (system.sysctl key) [ none ↦ none | some out ↦ given (strip out) ]

-- The third part of `line.partition(":")`.
unfoldable pub after_colon : String → String
after_colon String.[] = ""
after_colon (String.◌∷◌ c s) = let rest = after_colon s in if code c == b':' then s else rest

-- The loop over the lines.
unfoldable pub model_name_in : PyText → List String → Option String
unfolding after_colon lstrip rstrip starts_with
model_name_in texts [] = none
model_name_in texts (line ∷ lines) =
    let rest = model_name_in texts lines in
    if starts_with "model name" (texts.lower line) then given (strip (after_colon line)) else rest

unfoldable pub read_cpu_model : PyText → System → Option String
unfolding model_name_in read_sysctl
read_cpu_model texts system = elim system.cpuinfo [
  | none ↦ read_sysctl system "machdep.cpu.brand_string"
  | some text ↦ model_name_in texts (system.splitlines text)
]

-- `round(x, 1)`: the double nearest to the nearest tenth.
unfoldable pub round_tenth : Float → Float
unfolding nearest
round_tenth (finite a) =
    double_of (is_below_zero a) (nearest (half_even (10 * magnitude a) (2 ^ 1074) * 2 ^ 1074) 10)
round_tenth x = x

abbrev pub rounded : Option Float → ℕ → Option Float
rounded none unit = none
rounded (some x) unit = some (round_tenth (divide_by x unit))

unfoldable pub nonempty : List String → List String
nonempty [] = []
nonempty (t ∷ ts) = let rest = nonempty ts in if str_eq t "" then rest else t ∷ rest

-- The second of the words of a line, as a number of kB.
abbrev pub second_word : PyText → List String → Option Float
second_word texts [] = none
second_word texts (w ∷ []) = none
second_word texts (w ∷ v ∷ words) = texts.parse_float v

unfoldable pub mem_total_in : PyText → List String → Option Float
unfolding nonempty split_spaces starts_with round_tenth divide_by
mem_total_in texts [] = none
mem_total_in texts (line ∷ lines) =
    let rest = mem_total_in texts lines in
    if starts_with "MemTotal:" line
    then rounded (second_word texts (nonempty (split_spaces false line))) (1024 * 1024)
    else rest

unfoldable pub read_ram_gb : PyText → System → Option Float
unfolding mem_total_in read_sysctl round_tenth divide_by
read_ram_gb texts system = elim system.meminfo [
  | none ↦ elim (read_sysctl system "hw.memsize") [
    | none ↦ none
    | some raw ↦ rounded (texts.parse_float raw) (1024 ^ 3)
  ]
  | some text ↦ mem_total_in texts (system.splitlines text)
]

abbrev pub put_text : String → Option String → Fields → Fields
put_text key none fs = fs
put_text key (some s) fs = if str_eq s "" then fs else put key (str s) fs

abbrev pub put_float : String → Option Float → Fields → Fields
put_float key none fs = fs
put_float key (some x) fs = put key (float x) fs

abbrev pub vram_of : Option ℕ → Option Float
vram_of none = none
vram_of (some total) = some (round_tenth (true_quotient total (1024 ^ 3)))

unfoldable pub device_fingerprint : Device → Fields
unfolding put round_tenth true_quotient
device_fingerprint d =
    put_float "vram_gb" (vram_of d.memory_total)
      (put_text "driver_version" d.driver_version (put_text "gpu_name" d.gpu_name end))

unfoldable pub read_gpu_fields : Gpu → Fields
unfolding device_fingerprint
read_gpu_fields other = end
read_gpu_fields failing = end
read_gpu_fields (device d) = device_fingerprint d

-- The salt of a box from the text of its file, if there is one, and the text afterwards. `token` is what
-- `secrets.token_hex(32)` gives.
unfoldable pub load_or_create_salt : String → Option String → String × Option String
unfolding lstrip rstrip
load_or_create_salt token none = (token, some (text_append token "\n"))
load_or_create_salt token (some text) =
    let existing = strip text in
    if str_eq existing "" then (token, some (text_append token "\n")) else (existing, some text)

unfoldable pub compute_node_hash : System → String → String
compute_node_hash system salt = system.sha256_hex (text_append "hmasync-node:" salt)

-- With the salt loaded.
unfoldable pub collect_fingerprint : PyText → System → Gpu → String → Fields
unfolding compute_node_hash read_cpu_model read_ram_gb read_gpu_fields put update
collect_fingerprint texts system gpu salt =
    let payload = field "node_hash" (str (compute_node_hash system salt)) end in
    let with_cpu = put_text "cpu_model" (read_cpu_model texts system) payload in
    let with_ram = put_float "ram_gb" (read_ram_gb texts system) with_cpu in
    update with_ram (read_gpu_fields gpu)
