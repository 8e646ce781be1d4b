-- ===== src/Bench/Rouge/Tokens.antt =====
-- What the tokens of a text are: `tokenize` of `hmasync_controller/bench/tasks/rouge_l.py`.
use Prim.Native.Char.{code, Char}
use Prim.Native.String.append
use Prim.Native.String.{◌++◌ as text_append}
use async_energy_controller.Base.{
  String, ◌≡◌, refl, ap, ◌∙◌, sym, Bool, true, false, not, List, [], ◌∷◌, All, arith, if_elim,
  if◌then◌else◌, ◌⊎◌, inl, inr, if_ind,
}
use async_energy_controller.Value.{PyText}
use async_energy_controller.Executor.Schedule.{is_space}
use async_energy_controller.Bench.Rouge.{
  is_alphanum, blank_runs, split_spaces, onto_first, all_alphanum, is_token, valid_tokens, tokenize,
  space,
}

-- The letters and digits of a text, in their order.
abbrev pub letters : String → String
letters String.[] = ""
letters (String.◌∷◌ c s) = let rest = letters s in if is_alphanum c then String.◌∷◌ c rest else rest

abbrev pub joined : List String → String
joined [] = ""
joined (t ∷ ts) = text_append t (joined ts)

-- Every character is a letter, a digit or white space.
abbrev IsBlanked : String → Type 0
IsBlanked String.[] = Unit
IsBlanked (String.◌∷◌ c s) = ((is_alphanum c ≡ true) ⊎ (is_space (code c) ≡ true)) × IsBlanked s

alphanum-space : (c : Char) → is_alphanum c ≡ true → is_space (code c) ≡ false
unfolding is_alphanum is_space
alphanum-space c h = ground arith

space-alphanum : (c : Char) → is_space (code c) ≡ true → is_alphanum c ≡ false
unfolding is_alphanum is_space
space-alphanum c h = ground arith

blank_runs-IsBlanked : (b : Bool) (s : String) → IsBlanked (blank_runs b s)
unfolding blank_runs is_space
blank_runs-IsBlanked b String.[] = tt
blank_runs-IsBlanked b (String.◌∷◌ c s) =
    let rest = blank_runs (not (is_alphanum c)) s in
    let step = blank_runs-IsBlanked (not (is_alphanum c)) s in
    if_elim IsBlanked (is_alphanum c) (String.◌∷◌ c rest)
      (if b then rest else String.◌∷◌ space rest) (λ e. (inl e, step))
      (λ e. if_ind IsBlanked b rest (String.◌∷◌ space rest) step (inr refl, step))

blank-letters : (s : String) → letters (String.◌∷◌ space s) ≡ letters s
unfolding is_alphanum
blank-letters s = refl

letters-blank_runs : (b : Bool) (s : String) → letters (blank_runs b s) ≡ letters s
unfolding blank_runs
letters-blank_runs b String.[] = refl
letters-blank_runs b (String.◌∷◌ c s) =
    let rest = blank_runs (not (is_alphanum c)) s in
    if_elim (λ (t : String). letters t ≡ letters (String.◌∷◌ c s)) (is_alphanum c)
      (String.◌∷◌ c rest) (if b then rest else String.◌∷◌ space rest)
      (λ e. rw e (ap (λ (t : String). String.◌∷◌ c t) (letters-blank_runs false s)))
      (λ e.
        let blanked = blank_runs true s in
        let step = letters-blank_runs true s in
        rw e (
          if_ind (λ (t : String). letters t ≡ letters s) b blanked (String.◌∷◌ space blanked) step
            (blank-letters blanked ∙ step)))

joined-onto_first :
    (c : Char) (ts : List String) → joined (onto_first c ts) ≡ String.◌∷◌ c (joined ts)
joined-onto_first c [] = append.cons c "" "" ∙ ap (λ (t : String). String.◌∷◌ c t) (append.nil "")
joined-onto_first c (t ∷ ts) = append.cons c t (joined ts)

joined-split_spaces : (b : Bool) (s : String) → IsBlanked s → joined (split_spaces b s) ≡ letters s
unfolding split_spaces
joined-split_spaces b String.[] h = append.nil ""
joined-split_spaces b (String.◌∷◌ c s) (inl e, h) =
    let step = joined-split_spaces false s h in
    rw (alphanum-space c e, e)
      (joined-onto_first c (split_spaces false s) ∙ ap (λ (t : String). String.◌∷◌ c t) step)
joined-split_spaces b (String.◌∷◌ c s) (inr e, h) =
    let pieces = split_spaces true s in
    let step = joined-split_spaces true s h in
    rw (e, space-alphanum c e)
      (if_ind (λ (ts : List String). joined ts ≡ letters s) b pieces ("" ∷ pieces) step
        (append.nil (joined pieces) ∙ step))

-- Only letters and digits.
abbrev IsPlain : String → Type 0
IsPlain t = all_alphanum t ≡ true

onto_first-IsPlain :
    (c : Char) (ts : List String)
    → is_alphanum c ≡ true
    → All IsPlain ts
    → All IsPlain (onto_first c ts)
onto_first-IsPlain c [] e h = (rw e refl, tt)
onto_first-IsPlain c (t ∷ ts) e h = (rw e h.0, h.1)

split_spaces-IsPlain : (b : Bool) (s : String) → IsBlanked s → All IsPlain (split_spaces b s)
unfolding split_spaces
split_spaces-IsPlain b String.[] h = (refl, tt)
split_spaces-IsPlain b (String.◌∷◌ c s) (inl e, h) =
    rw (alphanum-space c e)
      (onto_first-IsPlain c (split_spaces false s) e (split_spaces-IsPlain false s h))
split_spaces-IsPlain b (String.◌∷◌ c s) (inr e, h) =
    let pieces = split_spaces true s in
    let step = split_spaces-IsPlain true s h in
    rw e (if_ind (All IsPlain) b pieces ("" ∷ pieces) step (refl, step))

joined-valid_tokens : (ts : List String) → All IsPlain ts → joined (valid_tokens ts) ≡ joined ts
unfolding valid_tokens is_token
joined-valid_tokens [] h = refl
joined-valid_tokens (String.[] ∷ ts) h = joined-valid_tokens ts h.1 ∙ sym (append.nil (joined ts))
joined-valid_tokens (String.◌∷◌ c t ∷ ts) h =
    rw h.0 (ap (text_append (String.◌∷◌ c t)) (joined-valid_tokens ts h.1))

valid_tokens-IsToken : (ts : List String) → All (λ t. is_token t ≡ true) (valid_tokens ts)
unfolding valid_tokens
valid_tokens-IsToken [] = tt
valid_tokens-IsToken (t ∷ ts) =
    let rest = valid_tokens ts in
    if_elim (All (λ u. is_token u ≡ true)) (is_token t) (t ∷ rest) rest
      (λ e. (e, valid_tokens-IsToken ts)) (λ e. valid_tokens-IsToken ts)

-- Each token is a letter or digit or more and nothing else, and the tokens one after the other are
-- all the letters and digits of the text in lower case, in their order.
tokenize_lem :
    (texts : PyText) (text : String)
    → All (λ t. is_token t ≡ true) (tokenize texts text)
      × (joined (tokenize texts text) ≡ letters (texts.lower text))
unfolding tokenize
tokenize_lem texts text =
    let s = blank_runs false (texts.lower text) in
    let h = blank_runs-IsBlanked false (texts.lower text) in
    (
      valid_tokens-IsToken (split_spaces false s),
      joined-valid_tokens (split_spaces false s) (split_spaces-IsPlain false s h)
          ∙ joined-split_spaces false s h
          ∙ letters-blank_runs false (texts.lower text),
    )
