-- ===== src/Profiler/Smi.antt =====
-- `SmiProfiler` and `get_profiler` of `hmasync_controller/profiler.py`: the readings of nvidia-smi, and the
-- choice of a profiler. What `subprocess.run` and the probes come to is an argument.
use Prim.Native.Char.{code}
use async_energy_controller.Base.{
  ℕ, zero, suc, String, Bool, true, false, Option, none, some, List, [], ◌∷◌, ◌==◌, str_eq, is_some,
  if◌then◌else◌,
}
use async_energy_controller.Value.{Float, null, Fields, end, field, PyText}
use async_energy_controller.Executor.Schedule.{lstrip, rstrip}
use async_energy_controller.Profiler.{float_value}
use async_energy_controller.Submission.Redact.{starts_with}

unfoldable pub parse_smi_field : PyText → String → Option Float
unfolding lstrip rstrip starts_with
parse_smi_field texts raw =
    let token = rstrip (lstrip raw) in
    if str_eq token ""
    then none
    else if starts_with "[" token
    then none
    else texts.parse_float token

-- `line.split(",")`.
unfoldable pub split_commas : String → List String
split_commas String.[] = "" ∷ []
split_commas (String.◌∷◌ c s) =
    let rest = split_commas s in
    if code c == b','
    then "" ∷ rest
    else elim rest [ [] ↦ String.◌∷◌ c "" ∷ [] | t ∷ ts ↦ String.◌∷◌ c t ∷ ts ]

-- `_parse_smi_field(cells[i]) if i < len(cells) else None`.
unfoldable pub smi_cell : PyText → List String → ℕ → Option Float
unfolding parse_smi_field
smi_cell texts [] i = none
smi_cell texts (c ∷ cells) zero = parse_smi_field texts c
smi_cell texts (c ∷ cells) (suc i) = smi_cell texts cells i

unfoldable pub parse_smi_csv : PyText → String → Fields
unfolding split_commas smi_cell
parse_smi_csv texts line =
    let cells = split_commas line in
    let cell = λ (i : ℕ). float_value (smi_cell texts cells i) in
    field "power_w" (cell 0) (
      field "util_gpu" (cell 1) (
        field "util_mem" (cell 2) (
          field "mem_used_mb" (cell 3) (
            field "temp_c" (cell 4)
              (field "sm_clock_mhz" (cell 5) (field "throttle_reasons" null end))))))

-- What running nvidia-smi comes to: an exception, or an exit code and the lines of the stripped output.
pub data SmiRun : Type 0 where
  failed : SmiRun
  ended : (returncode : ℕ) → (lines : List String) → SmiRun

-- `_run_smi`: the first line.
unfoldable pub run_smi : SmiRun → Option String
run_smi failed = none
run_smi (ended zero []) = none
run_smi (ended zero (l ∷ lines)) = some l
run_smi (ended (suc n) lines) = none

-- `SmiProfiler._read_gpu_sample`.
unfoldable pub smi_sample : PyText → SmiRun → Fields
unfolding run_smi parse_smi_csv
smi_sample texts run = elim (run_smi run) [
  | none ↦ end
  | some line ↦ if str_eq line "" then end else parse_smi_csv texts line
]

unfoldable pub smi_capabilities : Option Float → List String
smi_capabilities rapl =
    "power" ∷ "util" ∷ "memory" ∷ "temp" ∷ "clocks" ∷ (if is_some rapl then "cpu_rapl" ∷ [] else [])

unfoldable pub null_capabilities : Option Float → List String
null_capabilities rapl = if is_some rapl then "cpu_rapl" ∷ [] else []

pub data Backend : Type 0 where
  nvml smi no_gpu : Backend

-- What the probe of NVML meets: no library, a failing start, a failing count of cards, or a count.
pub data NvmlProbe : Type 0 where
  no_library no_driver no_count : NvmlProbe
  cards : ℕ → NvmlProbe

unfoldable pub nvml_available : NvmlProbe → Bool
nvml_available (cards (suc n)) = true
nvml_available _ = false

-- `on_path` is whether `shutil.which` finds nvidia-smi.
unfoldable pub smi_available : Bool → SmiRun → Bool
smi_available false run = false
smi_available true failed = false
smi_available true (ended zero lines) = true
smi_available true (ended (suc n) lines) = false

-- `constructs` is whether the import of the library works again in `NVMLProfiler`.
unfoldable pub get_profiler : NvmlProbe → Bool → Bool → SmiRun → Backend
unfolding nvml_available smi_available
get_profiler probe constructs on_path run =
    let fallback : Backend = if smi_available on_path run then smi else no_gpu in
    if nvml_available probe then (if constructs then nvml else fallback) else fallback
