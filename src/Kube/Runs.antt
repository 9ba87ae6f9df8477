-- ===== src/Kube/Runs.antt =====
-- The requests of a run together with what holds of its result, if it ends without an error.
use aws_node_termination_han.Common.{Bool, true, false, List, ◌∷◌, if◌then◌else◌, ◌≡◌, refl}
use aws_node_termination_han.Kube.{
  Error, Result, ok, err, Request, M, and_then, return, fail, ◌>>=◌, ◌>>◌, tell, attempt, lift, ask,
  rethrow, on_error,
}
use aws_node_termination_han.Kube.Total.{Anything}
use aws_node_termination_han.Kube.Trace.{Extends, same, more, Extends-trans, on_error-Sends}

abbrev pub Satisfies : {A : Type 0} → (A → Type 0) → Result A → Type 0
Satisfies Q (ok a) = Q a
Satisfies Q (err e) = Unit

-- Every request satisfies `P`, and the result satisfies `Q`.
pub record Runs {A : Type 0} (P : Request → Type 0) (Q : A → Type 0) (m : M A) : Type 0 where
  pub sends : (h : List Request) → Extends P h (m h).1
  pub gives : (h : List Request) → Satisfies Q (m h).0

lifted-gives : {A : Type 0} (r : Result A) → Satisfies (λ a. r ≡ ok a) r
lifted-gives (ok a) = refl
lifted-gives (err e) = tt

anything : {A : Type 0} (r : Result A) → Satisfies Anything r
anything (ok a) = tt
anything (err e) = tt

found_answer :
    {A : Type 0} (answer : List Request → Result A) (q : Request) (h : List Request) (r : Result A)
    → answer (q ∷ h) ≡ r
    → Satisfies (λ a. (h : List Request) × (answer (q ∷ h) ≡ ok a)) r
found_answer answer q h (ok a) e = (h, e)
found_answer answer q h (err x) e = tt

rethrow-gives :
    {A : Type 0} (Q : A → Type 0) (f : Error → Error) (r : Result A × List Request)
    → Satisfies Q r.0
    → Satisfies Q (rethrow f r).0
rethrow-gives Q f (ok a, h) q = q
rethrow-gives Q f (err e, h) q = tt

weakened :
    {A : Type 0} (Q R : A → Type 0) (r : Result A)
    → ((a : A) → Q a → R a)
    → Satisfies Q r
    → Satisfies R r
weakened Q R (ok a) f q = f a q
weakened Q R (err e) f q = tt

module _ {P : Request → Type 0} where
  and_then-sends :
      {A B : Type 0} {Q : A → Type 0} (R : B → Type 0) {h : List Request}
      (r : Result A × List Request) (f : A → M B)
      → Extends P h r.1
      → Satisfies Q r.0
      → ((a : A) → Q a → Runs P R (f a))
      → Extends P h (and_then r f).1
  and_then-sends R (ok a, h') f e q g = Extends-trans e ((g a q).sends h')
  and_then-sends R (err x, h') f e q g = e

  and_then-gives :
      {A B : Type 0} {Q : A → Type 0} (R : B → Type 0) (r : Result A × List Request) (f : A → M B)
      → Satisfies Q r.0
      → ((a : A) → Q a → Runs P R (f a))
      → Satisfies R (and_then r f).0
  and_then-gives R (ok a, h') f q g = (g a q).gives h'
  and_then-gives R (err x, h') f q g = tt

  pub >>=-Runs :
      {A B : Type 0} {Q : A → Type 0} {R : B → Type 0} (m : M A) (f : A → M B)
      → Runs P Q m
      → ((a : A) → Q a → Runs P R (f a))
      → Runs P R (m >>= f)
  >>=-Runs {R = R} m f r g = record {
    sends = λ h. and_then-sends R (m h) f (r.sends h) (r.gives h) g;
    gives = λ h. and_then-gives R (m h) f (r.gives h) g;
  }

  pub attempt-Runs :
      {A : Type 0} {Q : A → Type 0} (m : M A) → Runs P Q m → Runs P (Satisfies Q) (attempt m)
  attempt-Runs m r = record { sends = r.sends; gives = r.gives }

  pub return-Runs : {A : Type 0} {Q : A → Type 0} (a : A) → Q a → Runs P Q (return a)
  return-Runs a q = record { sends = λ h. same; gives = λ h. q }

  pub fail-Runs : {A : Type 0} {Q : A → Type 0} (e : Error) → Runs P Q (fail e)
  fail-Runs e = record { sends = λ h. same; gives = λ h. tt }

  pub tell-Runs :
      {A : Type 0} {Q : A → Type 0} (q : Request) (m : M A)
      → P q
      → Runs P Q m
      → Runs P Q (tell q >> m)
  tell-Runs q m p r = record {
    sends = λ h. Extends-trans (more p same) (r.sends (q ∷ h));
    gives = λ h. r.gives (q ∷ h);
  }

  pub lift-Runs : {A : Type 0} (r : Result A) → Runs P (λ a. r ≡ ok a) (lift r)
  lift-Runs r = record { sends = λ h. same; gives = λ h. lifted-gives r }

  pub ask-Runs :
      {A : Type 0} (q : Request) (answer : List Request → Result A)
      → P q
      → Runs P Anything (ask q answer)
  ask-Runs q answer p = record { sends = λ h. more p same; gives = λ h. anything (answer (q ∷ h)) }

  -- With where the answer was given.
  pub answered-Runs :
      {A : Type 0} (q : Request) (answer : List Request → Result A)
      → P q
      → Runs P (λ a. (h : List Request) × (answer (q ∷ h) ≡ ok a)) (ask q answer)
  answered-Runs q answer p = record {
    sends = λ h. more p same;
    gives = λ h. found_answer answer q h (answer (q ∷ h)) refl;
  }

  pub on_error-Runs :
      {A : Type 0} {Q : A → Type 0} (f : Error → Error) (m : M A)
      → Runs P Q m
      → Runs P Q (on_error f m)
  on_error-Runs {Q = Q} f m r = record {
    sends = on_error-Sends f m r.sends;
    gives = λ h. rethrow-gives Q f (m h) (r.gives h);
  }

  pub Runs-map :
      {A : Type 0} {Q R : A → Type 0} (m : M A) → ((a : A) → Q a → R a) → Runs P Q m → Runs P R m
  Runs-map {Q = Q} {R = R} m f r = record {
    sends = r.sends;
    gives = λ h. weakened Q R (m h).0 f (r.gives h);
  }

  pub if-Runs :
      {A : Type 0} {Q : A → Type 0} (b : Bool) (m k : M A)
      → (b ≡ true → Runs P Q m)
      → (b ≡ false → Runs P Q k)
      → Runs P Q (if b then m else k)
  if-Runs true m k y z = y (λ i. true)
  if-Runs false m k y z = z (λ i. false)
