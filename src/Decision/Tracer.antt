-- ===== src/Decision/Tracer.antt =====
-- The tracer of internal/decision/decision.go: a decision is built while its steps are recorded.
use flickr.Base.{Bool, true, List, [], ◌∷◌, ◌++◌, Bytes, if◌then◌else◌}
use flickr.Model.{TraceStep}

-- A computation that may append to `tr.steps`.
abbrev pub Traced : Type 0 → Type 0
Traced A = List TraceStep → A × List TraceStep

infixl 5 ◌>>=◌ ◌>>◌
abbrev pub ◌>>=◌ : {A B : Type 0} → Traced A → (A → Traced B) → Traced B
◌>>=◌ m f steps = let (a, steps') = m steps in f a steps'

abbrev pub ◌>>◌ : {A B : Type 0} → Traced A → Traced B → Traced B
m >> n = m >>= λ _. n

abbrev pub pure : {A : Type 0} → A → Traced A
pure a steps = (a, steps)

abbrev pub step : Bytes → Bool → Bytes → TraceStep
step name passed detail = record { check = name; passed = passed; detail = detail }

-- Records one pass/fail step and returns `passed`.
unfoldable pub check : Bytes → Bool → Bytes → Traced Bool
check name passed detail steps = (passed, steps ++ step name passed detail ∷ [])

-- A check that is made only under a condition, and that passes where it is not made.
unfoldable pub check_if : Bool → Bytes → Bool → Bytes → Traced Bool
check_if made name passed detail steps =
    (if made then passed else true, if made then steps ++ step name passed detail ∷ [] else steps)

-- A step that informs rather than gates.
unfoldable pub note : Bytes → Bool → Bytes → Traced (Unit {0})
note name passed detail steps = (tt, steps ++ step name passed detail ∷ [])

unfoldable pub note_if : Bool → Bytes → Bool → Bytes → Traced (Unit {0})
note_if made name passed detail steps =
    (tt, if made then steps ++ step name passed detail ∷ [] else steps)
