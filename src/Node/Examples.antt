-- ===== src/Node/Examples.antt =====
-- Runs of the fingerprint of a box.
use async_energy_controller.Base.{◌≡◌, refl, String, false, none, some, List, [], ◌∷◌, ◌^◌, ◌*◌}
use async_energy_controller.Base.Int.{pos}
use async_energy_controller.Value.{finite, dict}
use async_energy_controller.Samples.{texts}
use async_energy_controller.Submission.Redact.{denylisted_keys}
use async_energy_controller.Node.{
  Gpu, device, System, read_cpu_model, collect_fingerprint, round_tenth,
}
use async_energy_controller.Node.Clean.{collect_fingerprint-denylisted}

abbrev lines : String → List String
lines s = s ∷ []

abbrev system : System
system = record {
  is_darwin = false;
  sysctl = λ key. none;
  cpuinfo = some "model name : Xeon";
  meminfo = some "MemTotal: 16 kB";
  splitlines = lines;
  sha256_hex = λ s. s;
}

abbrev card : Gpu
card =
    device
      (record { gpu_name = some "A4000"; driver_version = none; memory_total = some (16 * 2 ^ 30) })

xeon : read_cpu_model texts system ≡ some "Xeon"
unfolding read_cpu_model
xeon = refl

-- 0.25 is rounded to 0.2.
quarter : round_tenth (finite (pos (2 ^ 1072))) ≡ finite (pos (3602879701896397 * 2 ^ 1020))
unfolding round_tenth
quarter = refl

collect_fingerprint-denylisted_example :
    denylisted_keys texts "$" (dict (collect_fingerprint texts system card "salt")) ≡ []
collect_fingerprint-denylisted_example =
    collect_fingerprint-denylisted texts (refl, (refl, (refl, (refl, (refl, (refl, tt)))))) system
      card "salt"
