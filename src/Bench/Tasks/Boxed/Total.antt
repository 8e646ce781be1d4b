-- ===== src/Bench/Tasks/Boxed/Total.antt =====
-- `extract_boxed_answers` of `hmasync_controller/bench/tasks/math500.py` returns: its fuel is enough.
use Prim.Native.Char.{Char}
use async_energy_controller.Base.{
  ℕ, zero, suc, ◌<◌, ◌≤◌, String, Bool, true, false, Option, none, some, List, [], ◌∷◌,
  if◌then◌else◌, ◌≡◌, refl, Option-cases, inl, inr, arith, text_length,
}
use async_energy_controller.Submission.Redact.{starts_with}
use async_energy_controller.Bench.Tasks.Boxed.{
  marker, find_marker, onto_payload, close, boxed_answers, extract_boxed_answers, text_from,
}

text_from-le : (n : ℕ) (s : String) → text_length (text_from n s) ≤ text_length s
text_from-le zero s = omega arith
text_from-le (suc n) String.[] = omega arith
text_from-le (suc n) (String.◌∷◌ c s) = omega (arith, text_from-le n s)

chosen-le :
    (n : ℕ) (b : Bool) (x content : String) (o : Option String)
    → (if b then some x else o) ≡ some content
    → text_length x ≤ n
    → (o ≡ some content → text_length content ≤ n)
    → text_length content ≤ n
chosen-le n true x content o h k l = ground arith
chosen-le n false x content o h k l = l h

find_marker-le :
    (s content : String) → find_marker s ≡ some content → text_length content ≤ text_length s
unfolding find_marker
find_marker-le String.[] content h = cc
find_marker-le (String.◌∷◌ c s) content h =
    let t = String.◌∷◌ c s in
    chosen-le (text_length t) (starts_with marker t) (text_from 7 t) content (find_marker s) h
      (text_from-le 7 t) (λ e. omega (arith, find_marker-le s content e))

onto_payload-lt :
    (c : Char) (o : Option (String × String)) (n : ℕ) (payload rest : String)
    → ((p : String) → o ≡ some (p, rest) → text_length rest < n)
    → onto_payload c o ≡ some (payload, rest)
    → text_length rest < suc n
onto_payload-lt c none n payload rest h e = cc
onto_payload-lt c (some (p, r)) n payload rest h e =
    let q : r ≡ rest = cc in omega (arith, h p (rw q refl))

close-lt :
    (depth : ℕ) (s payload rest : String)
    → close depth s ≡ some (payload, rest)
    → text_length rest < text_length s
unfolding close
close-lt depth String.[] payload rest h = cc
close-lt zero (String.◌∷◌ c s) payload rest h =
    let below = λ (d : ℕ).
      onto_payload-lt c (close d s) (text_length s) payload rest (λ p. close-lt d s p rest) in
    ground (arith, below 1, below 0)
close-lt (suc depth) (String.◌∷◌ c s) payload rest h =
    let below = λ (d : ℕ).
      onto_payload-lt c (close d s) (text_length s) payload rest (λ p. close-lt d s p rest) in
    ground (arith, below (suc (suc depth)), below (suc depth), below depth)

boxed_answers_total :
    (fuel : ℕ) (text : String)
    → text_length text < fuel
    → (payloads : List String) × (boxed_answers fuel text ≡ some payloads)
unfolding boxed_answers
boxed_answers_total zero text h = absurd (omega arith)
boxed_answers_total (suc fuel) text h = elim (Option-cases (find_marker text)) [
  | inl nothing ↦ ([], rw (boxed_answers, nothing))
  | inr (content, found) ↦ elim (Option-cases (close 0 content)) [
    | inl open_end ↦ ([], rw (boxed_answers, found, open_end))
    | inr ((payload, rest), closed) ↦
        let (payloads, e) = boxed_answers_total fuel rest (
          omega
            (arith, find_marker-le text content found, close-lt 0 content payload rest closed)) in
        (payload ∷ payloads, rw (boxed_answers, found, closed, e))
  ]
]

-- On every text the loop over the markers ends.
pub extract_boxed_answers_total :
    (text : String) → (payloads : List String) × (extract_boxed_answers text ≡ some payloads)
unfolding extract_boxed_answers
extract_boxed_answers_total text = boxed_answers_total (suc (text_length text)) text (omega arith)
