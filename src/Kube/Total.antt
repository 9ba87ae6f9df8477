-- ===== src/Kube/Total.antt =====
-- Runs that end without an error, and what then holds of their results.
use aws_node_termination_han.Common.{◌≡◌, refl, Bool, true, false, List, if◌then◌else◌}
use aws_node_termination_han.Kube.{Result, ok, Request, M, and_then, ◌>>=◌, attempt}

-- The run ends, whatever was asked before, with a result that satisfies `Q`.
abbrev pub Yields : {A : Type 0} → (A → Type 0) → M A → Type 0
Yields {A} Q m = (h : List Request) → (a : A) × ((m h).0 ≡ ok a) × Q a

abbrev pub Anything : {A : Type 0} → A → Type 0
Anything a = Unit {0}

and_then-Yields :
    {A B : Type 0} {R : B → Type 0} (r : Result A × List Request) (f : A → M B) (a : A)
    → r.0 ≡ ok a
    → Yields R (f a)
    → (b : B) × ((and_then r f).0 ≡ ok b) × R b
and_then-Yields (r, h) f a e y = let (b, run, q) = y h in (b, rw (e, and_then) run, q)

pub >>=-Yields :
    {A B : Type 0} {Q : A → Type 0} {R : B → Type 0} (m : M A) (f : A → M B)
    → Yields Q m
    → ((a : A) → Q a → Yields R (f a))
    → Yields R (m >>= f)
>>=-Yields m f y z h = let (a, run, q) = y h in and_then-Yields (m h) f a run (z a q)

pub attempt-Yields : {A : Type 0} (m : M A) → Yields Anything (attempt m)
attempt-Yields m h = ((m h).0, refl, tt)

pub if-Yields :
    {A : Type 0} {Q : A → Type 0} (b : Bool) (m k : M A)
    → Yields Q m
    → Yields Q k
    → Yields Q (if b then m else k)
if-Yields true m k y z = y
if-Yields false m k y z = z
