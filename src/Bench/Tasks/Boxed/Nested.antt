-- ===== src/Bench/Tasks/Boxed/Nested.antt =====
-- What `extract_boxed_answers` of `hmasync_controller/bench/tasks/math500.py` finds.
use Prim.Native.Char.{Char}
use Prim.Native.String.append
use Prim.Native.String.{◌++◌ as text_append}
use text.Mathlib.TextLemmas.{append_assoc}
use async_energy_controller.Base.{
  ℕ, zero, suc, String, true, false, Option, none, some, ◌≡◌, refl, sym, arith,
}
use async_energy_controller.Bench.Tasks.Boxed.{is_open, is_close, onto_payload, close}

-- A text in which each brace has its partner.
pub data Balanced : String → Type 0 where
  empty : Balanced ""
  plain :
      (c : Char) (s : String)
      → is_open c ≡ false
      → is_close c ≡ false
      → Balanced s
      → Balanced (String.◌∷◌ c s)
  braced :
      (o c : Char) (inner s : String)
      → is_open o ≡ true
      → is_close c ≡ true
      → Balanced inner
      → Balanced s
      → Balanced (String.◌∷◌ o (text_append inner (String.◌∷◌ c s)))

abbrev pub prefixed : String → Option (String × String) → Option (String × String)
prefixed p none = none
prefixed p (some (payload, rest)) = some (text_append p payload, rest)

prefixed-onto :
    (c : Char) (p : String) (o : Option (String × String))
    → onto_payload c (prefixed p o) ≡ prefixed (String.◌∷◌ c p) o
prefixed-onto c p none = refl
prefixed-onto c p (some (payload, rest)) = rw (append.cons c p payload)

prefixed_nil : (o : Option (String × String)) → prefixed "" o ≡ o
prefixed_nil none = refl
prefixed_nil (some (payload, rest)) = rw (append.nil payload)

prefixed-append :
    (p q : String) (o : Option (String × String))
    → prefixed p (prefixed q o) ≡ prefixed (text_append p q) o
prefixed-append p q none = refl
prefixed-append p q (some (payload, rest)) = rw (append_assoc p q payload)

close-open :
    (depth : ℕ) (c : Char) (s : String)
    → is_open c ≡ true
    → close depth (String.◌∷◌ c s) ≡ onto_payload c (close (suc depth) s)
unfolding close
close-open zero c s h = rw h
close-open (suc depth) c s h = rw h

close-plain :
    (depth : ℕ) (c : Char) (s : String)
    → is_open c ≡ false
    → is_close c ≡ false
    → close depth (String.◌∷◌ c s) ≡ onto_payload c (close depth s)
unfolding close
close-plain zero c s h k = rw (h, k)
close-plain (suc depth) c s h k = rw (h, k)

not_both : (c : Char) → is_close c ≡ true → is_open c ≡ false
not_both c h = ground arith

close-close :
    (depth : ℕ) (c : Char) (s : String)
    → is_close c ≡ true
    → close (suc depth) (String.◌∷◌ c s) ≡ onto_payload c (close depth s)
unfolding close
close-close depth c s h = rw (not_both c h, h)

pub close_end :
    (c : Char) (s : String) → is_close c ≡ true → close 0 (String.◌∷◌ c s) ≡ some ("", s)
unfolding close
close_end c s h = rw (not_both c h, h)

-- A balanced text is part of the payload, at any depth.
pub close-Balanced :
    (p : String)
    → Balanced p
    → (depth : ℕ) (t : String) → close depth (text_append p t) ≡ prefixed p (close depth t)
close-Balanced _ empty depth t = rw (append.nil t) (sym (prefixed_nil (close depth t)))
close-Balanced _ (plain c s o k b) depth t =
    rw (append.cons c s t, close-plain depth c (text_append s t) o k, close-Balanced s b depth t)
      (prefixed-onto c s (close depth t))
close-Balanced _ (braced o c inner s h k b d) depth t =
    let behind = String.◌∷◌ c s in
    let later = close depth t in
    rw
      (
        append.cons o (text_append inner behind) t,
        append_assoc inner behind t,
        append.cons c s t,
        close-open depth o (text_append inner (String.◌∷◌ c (text_append s t))) h,
        close-Balanced inner b (suc depth) (String.◌∷◌ c (text_append s t)),
        close-close depth c (text_append s t) k,
        close-Balanced s d depth t,
        prefixed-onto c s later,
        prefixed-append inner behind later,
      )
      (prefixed-onto o (text_append inner behind) later)
