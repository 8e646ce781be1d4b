-- ===== src/Bench/Roster.antt =====
-- `hmasync_controller/bench/roster.py`: the models of a tier, and which of them are there.
pub mod Largest
pub mod Examples
use Prim.Native.Char.{code}
use async_energy_controller.Base.{
  ℕ, String, Bool, true, false, not, ◌||◌, Option, none, some, List, [], ◌∷◌, any, take, str_eq,
  if◌then◌else◌,
}
use async_energy_controller.Value.{Float}
use async_energy_controller.Value.Double.{true_quotient, is_less}

pub record RosterEntry : Type 0 where
  pub tag : String
  pub hf_id : String
  pub quantization : String
  pub digest : String
  pub size_gb : Float

-- A size is written in the source as a decimal number, the double nearest to it.
unfoldable pub roster : List RosterEntry
unfolding true_quotient
roster =
    record {
      tag = "qwen3-coder:30b-a3b-q4_K_M";
      hf_id = "Qwen/Qwen3-Coder-30B-A3B-Instruct";
      quantization = "Q4_K_M";
      digest = "06c1097efce0431c2045fe7b2e5108366e43bee1b4603a7aded8f21689e90bca";
      size_gb = true_quotient 186 10;
    }
    ∷ record {
      tag = "gemma4:26b-a4b-it-q4_K_M";
      hf_id = "google/gemma-4-26B-A4B-it";
      quantization = "Q4_K_M";
      digest = "5571076f3d70050487b26b341705799e0ab29b808164f90d20d4cf84f699d251";
      size_gb = true_quotient 180 10;
    }
    ∷ record {
      tag = "gpt-oss:20b";
      hf_id = "openai/gpt-oss-20b";
      quantization = "mxfp4";
      digest = "17052f91a42e97930aa6e28a6c6c06a983e6a58dbb00434885a0cf5313e376f7";
      size_gb = true_quotient 138 10;
    }
    ∷ record {
      tag = "qwen3.5:9b-q4_K_M";
      hf_id = "Qwen/Qwen3.5-9B";
      quantization = "Q4_K_M";
      digest = "6488c96fa5faab64bb65cbd30d4289e20e6130ef535a93ef9a49f42eda893ea7";
      size_gb = true_quotient 66 10;
    }
    ∷ record {
      tag = "qwen3:8b-q4_K_M";
      hf_id = "Qwen/Qwen3-8B";
      quantization = "Q4_K_M";
      digest = "500a1f067a9f782620b40bee6f7b0c89e17ae61f686b92c24933e4ca4b2b8b41";
      size_gb = true_quotient 52 10;
    }
    ∷ record {
      tag = "llama3.1:8b-instruct-q4_K_M";
      hf_id = "meta-llama/Llama-3.1-8B-Instruct";
      quantization = "Q4_K_M";
      digest = "46e0c10c039e019119339687c3c1757cc81b9da49709a3b3924863ba87ca666e";
      size_gb = true_quotient 49 10;
    }
    ∷ record {
      tag = "qwen2.5:7b-instruct-q4_K_M";
      hf_id = "Qwen/Qwen2.5-7B-Instruct";
      quantization = "Q4_K_M";
      digest = "845dbda0ea48ed749caafd9e6037047aa19acfcfd82e704d7ca97d631a0b697e";
      size_gb = true_quotient 47 10;
    }
    ∷ record {
      tag = "qwen3.5:4b-q4_K_M";
      hf_id = "Qwen/Qwen3.5-4B";
      quantization = "Q4_K_M";
      digest = "2a654d98e6fba55d452b7043684e9b57a947e393bbffa62485a7aac05ee4eefd";
      size_gb = true_quotient 34 10;
    }
    ∷ record {
      tag = "qwen3.5:2b-q4_K_M";
      hf_id = "Qwen/Qwen3.5-2B";
      quantization = "Q4_K_M";
      digest = "124a03c347777e8e4e5955c33610ae01d9d90d8c2a718bfba069c498d5c7f3c9";
      size_gb = true_quotient 19 10;
    }
    ∷ []

-- The entry of `REFERENCE_TAG`.
abbrev pub reference_tag : String
reference_tag = "qwen3.5:9b-q4_K_M"

-- `[e for e in entries if p(e)]`.
unfoldable pub select : (RosterEntry → Bool) → List RosterEntry → List RosterEntry
select p [] = []
select p (e ∷ es) = let rest = select p es in if p e then e ∷ rest else rest

-- `next(e for e in ROSTER if e.tag == REFERENCE_TAG)`, as a list of one.
unfoldable pub reference_entry : List RosterEntry
unfolding roster select
reference_entry = take 1 (select (λ e. str_eq e.tag reference_tag) roster)

pub data Tier : Type 0 where
  quick medium full : Tier

abbrev pub tier_model_counts : Tier → Option ℕ
tier_model_counts quick = some 1
tier_model_counts medium = some 4
tier_model_counts full = none

-- `budget_gb is None or e.size_gb <= budget_gb`; a budget is a number.
unfoldable pub fits : Option Float → RosterEntry → Bool
fits none e = true
fits (some budget) e = not (is_less budget e.size_gb)

abbrev pub counted : Option ℕ → List RosterEntry → List RosterEntry
counted none es = es
counted (some n) es = take n es

unfoldable pub roster_for_tier : Tier → Option Float → List RosterEntry
unfolding roster reference_entry select
roster_for_tier quick budget = reference_entry
roster_for_tier tier budget = counted (tier_model_counts tier) (select (fits budget) roster)

-- With the tags that are there: the entries that are, and the missing ones.
unfoldable pub select_roster :
    Tier → List String → Option Float → List RosterEntry × List RosterEntry
unfolding roster_for_tier
select_roster tier available budget =
    let wanted = roster_for_tier tier budget in
    let is_there = λ (e : RosterEntry). any (λ tag. str_eq tag e.tag) available in
    (select is_there wanted, select (λ e. not (is_there e)) wanted)
