-- ===== src/Bench/Rouge/Score.antt =====
-- The score of a text against itself: `rouge_l_fmeasure` of
-- `hmasync_controller/bench/tasks/rouge_l.py`.
use native.Mathlib.Nat.{mul-div_cancel_left}
use async_energy_controller.Base.{
  ℕ, suc, ◌^◌, String, ◌≡◌, refl, ap, false, List, [], ◌∷◌, length, some, arith,
}
use async_energy_controller.Base.Int.{pos}
use async_energy_controller.Value.{finite, PyText}
use async_energy_controller.Value.Number.{round_mantissa}
use async_energy_controller.Bench.Rouge.{
  is_empty, tokenize, fmeasure, float_quotient, rouge_l_fmeasure, score,
}
use async_energy_controller.Bench.Rouge.Subsequence.{lcs_length_self}

quotient_self : (n : ℕ) → float_quotient (suc n) (suc n) ≡ 2 ^ 1074
unfolding round_mantissa
quotient_self n = ap round_mantissa (mul-div_cancel_left (2 ^ 1074) {n = suc n} (omega arith))

fmeasure_self : (n : ℕ) → fmeasure (suc n) (suc n) (suc n) ≡ 2 ^ 1074
unfolding fmeasure
fmeasure_self n = rw (quotient_self n) refl

score_self : (a : List String) → is_empty a ≡ false → score a a ≡ some (finite (pos (2 ^ 1074)))
unfolding score
score_self [] h = absurd (cc h)
score_self (x ∷ a) h =
    rw (lcs_length_self (x ∷ a)) (ap (λ (n : ℕ). some (finite (pos n))) (fmeasure_self (length a)))

-- A text with a token scores exactly 1 against itself.
rouge_l_fmeasure_self :
    (texts : PyText) (text : String)
    → is_empty (tokenize texts text) ≡ false
    → rouge_l_fmeasure texts text text ≡ some (finite (pos (2 ^ 1074)))
unfolding rouge_l_fmeasure
rouge_l_fmeasure_self texts text h = score_self (tokenize texts text) h
