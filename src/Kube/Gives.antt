-- ===== src/Kube/Gives.antt =====
-- What holds of the result of a run, if it ends without an error, whatever was asked before.
use mathlib.Core.Path.{subst}
use aws_node_termination_han.Common.{Bool, true, false, List, if◌then◌else◌, ◌≡◌, refl}
use aws_node_termination_han.Kube.{
  Error, Result, ok, err, Request, M, and_then, return, fail, ◌>>=◌, attempt, rethrow, on_error,
}
use aws_node_termination_han.Kube.Runs.{Satisfies}
use aws_node_termination_han.Kube.Total.{Anything}

pub record Gives {A : Type 0} (Q : A → Type 0) (m : M A) : Type 0 where
  pub gives : (h : List Request) → Satisfies Q (m h).0

anything : {A : Type 0} (r : Result A) → Satisfies Anything r
anything (ok a) = tt
anything (err e) = tt

pub any-Gives : {A : Type 0} (m : M A) → Gives Anything m
any-Gives m = record { gives = λ h. anything (m h).0 }

and_then-Gives :
    {A B : Type 0} {Q : A → Type 0} (R : B → Type 0) (r : Result A × List Request) (f : A → M B)
    → Satisfies Q r.0
    → ((a : A) → Q a → Gives R (f a))
    → Satisfies R (and_then r f).0
and_then-Gives R (ok a, h) f q g = (g a q).gives h
and_then-Gives R (err e, h) f q g = tt

pub >>=-Gives :
    {A B : Type 0} {Q : A → Type 0} {R : B → Type 0} (m : M A) (f : A → M B)
    → Gives Q m
    → ((a : A) → Q a → Gives R (f a))
    → Gives R (m >>= f)
>>=-Gives {R = R} m f q g = record { gives = λ h. and_then-Gives R (m h) f (q.gives h) g }

-- Of a first part nothing need be known.
pub skip-Gives :
    {A B : Type 0} {R : B → Type 0} (m : M A) (f : A → M B)
    → ((a : A) → Gives R (f a))
    → Gives R (m >>= f)
skip-Gives m f g = >>=-Gives {Q = Anything} m f (any-Gives m) (λ a _. g a)

rethrow-Gives :
    {A : Type 0} (Q : A → Type 0) (f : Error → Error) (r : Result A × List Request)
    → Satisfies Q r.0
    → Satisfies Q (rethrow f r).0
rethrow-Gives Q f (ok a, h) q = q
rethrow-Gives Q f (err e, h) q = tt

pub on_error-Gives :
    {A : Type 0} {Q : A → Type 0} (f : Error → Error) (m : M A) → Gives Q m → Gives Q (on_error f m)
on_error-Gives {Q = Q} f m q = record { gives = λ h. rethrow-Gives Q f (m h) (q.gives h) }

pub return-Gives : {A : Type 0} {Q : A → Type 0} (a : A) → Q a → Gives Q (return a)
return-Gives a q = record { gives = λ h. q }

pub fail-Gives : {A : Type 0} {Q : A → Type 0} (e : Error) → Gives Q (fail e)
fail-Gives e = record { gives = λ h. tt }

pub attempt-Gives :
    {A : Type 0} {Q : A → Type 0} (m : M A) → Gives Q m → Gives (Satisfies Q) (attempt m)
attempt-Gives m q = record { gives = q.gives }

pub if-Gives :
    {A : Type 0} {Q : A → Type 0} (b : Bool) (m k : M A)
    → (b ≡ true → Gives Q m)
    → (b ≡ false → Gives Q k)
    → Gives Q (if b then m else k)
if-Gives true m k y z = y (λ i. true)
if-Gives false m k y z = z (λ i. false)

ok-injective : {A : Type 0} {a b : A} → ok a ≡ ok b → a ≡ b
ok-injective e = cc e

-- A result that was given satisfies what the run gives.
pub given : {A : Type 0} (Q : A → Type 0) (r : Result A) (a : A) → r ≡ ok a → Satisfies Q r → Q a
given Q (ok b) a e q = subst Q (ok-injective e) q
given Q (err x) a e q = cc e

-- A run that ends well has ended its first part well.
pub >>=-ok :
    {A B : Type 0} (r : Result A × List Request) (f : A → M B) (b : B)
    → (and_then r f).0 ≡ ok b
    → (a : A) × (r.0 ≡ ok a) × ((f a r.1).0 ≡ ok b)
>>=-ok (ok a, h) f b e = (a, refl, e)
>>=-ok (err x, h) f b e = cc e
