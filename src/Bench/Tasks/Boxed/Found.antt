-- ===== src/Bench/Tasks/Boxed/Found.antt =====
-- The boxes of a text that is written from them: `extract_boxed_answers` of
-- `hmasync_controller/bench/tasks/math500.py`.
use Prim.Native.Char.{code, Char}
use Prim.Native.String.append
use Prim.Native.String.{◌++◌ as text_append}
use async_energy_controller.Base.{String, false, none, some, ◌==◌, ◌≡◌, [], ◌∷◌, List, ◌⊎◌}
use async_energy_controller.Bench.Tasks.Boxed.{marker, find_marker, close}
use async_energy_controller.Bench.Tasks.Boxed.Nested.{Balanced}

-- No character of the text is this one.
abbrev IsWithout : Char → String → Type 0
IsWithout d String.[] = Unit
IsWithout d (String.◌∷◌ c s) = ((code c == code d) ≡ false) × IsWithout d s

abbrev backslash : Char
backslash = "\\"

abbrev marked : String → String
marked x = String.◌∷◌ "\\" (
    String.◌∷◌ "b"
      (String.◌∷◌ "o" (String.◌∷◌ "x" (String.◌∷◌ "e" (String.◌∷◌ "d" (String.◌∷◌ "{" x))))))

-- What stands before a box, and its payload.
abbrev pub Segment : Type 0
Segment = String × String

abbrev pub boxed : String → String → String
boxed payload rest = text_append marker (text_append payload (String.◌∷◌ "}" rest))

abbrev pub written : List Segment → String → String
written [] tail = tail
written ((before, payload) ∷ segments) tail =
    text_append before (boxed payload (written segments tail))

abbrev pub payloads_of : List Segment → List String
payloads_of [] = []
payloads_of ((before, payload) ∷ segments) = payload ∷ payloads_of segments

abbrev pub AreBoxes : List Segment → Type 0
AreBoxes [] = Unit
AreBoxes ((before, payload) ∷ segments) =
    (find_marker before ≡ none) × Balanced payload × AreBoxes segments

-- No marker, or one whose brace is not closed.
abbrev pub IsTail : String → Type 0
IsTail tail =
    (find_marker tail ≡ none)
    ⊎ ((content : String) × (find_marker tail ≡ some content) × (close 0 content ≡ none))
