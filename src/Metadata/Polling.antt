-- ===== src/Metadata/Polling.antt =====
-- cmd/node-termination-handler.go: the goroutine that polls a monitor every two seconds.
use aws_node_termination_han.Common.{
  ℕ, zero, suc, ◌≡◌, refl, String, Bool, true, false, ◌&&◌, ◌||◌, ◌+◌, ◌≤◌, sym, ◌∙◌, arith,
  str_eq_refl, Option, none, some, List, [], ◌∷◌, if◌then◌else◌, str_eq, str_eq_iff, leb,
  Bool-cases, and_case, inl, inr,
}

abbrev pub duplicate_err_threshold : ℕ
duplicate_err_threshold = 3

-- The text of the last error that was not a repetition, and how often it was repeated.
pub record Polling : Type 0 where
  pub previous_err : Option String
  pub duplicate_err_count : ℕ

abbrev pub polling : Polling
polling = record { previous_err = none; duplicate_err_count = 0 }

abbrev pub repeats : Option String → String → Bool
repeats none text = false
repeats (some previous) text = str_eq text previous

-- The state after an error.
abbrev pub count_error : String → Polling → Polling
count_error text p =
    if repeats p.previous_err text
    then record p { duplicate_err_count = suc p.duplicate_err_count }
    else record { previous_err = some text; duplicate_err_count = 0 }

-- The rounds, each with the text of its error if it has one: whether the process panics.
unfoldable pub panics : List (Option String) → Polling → Bool
panics [] p = false
panics (none ∷ rounds) p = panics rounds p
panics (some text ∷ rounds) p =
    let p' = count_error text p in
    let rest = panics rounds p' in
    if leb duplicate_err_threshold p'.duplicate_err_count then true else rest

-- The errors of the rounds that had one.
abbrev pub errors : List (Option String) → List String
errors [] = []
errors (none ∷ rounds) = errors rounds
errors (some text ∷ rounds) = text ∷ errors rounds

-- The first so many errors are there and have the text.
abbrev pub starts_alike : ℕ → String → List String → Bool
starts_alike zero text l = true
starts_alike (suc k) text [] = false
starts_alike (suc k) text (t ∷ l) = str_eq t text && starts_alike k text l

-- An error is followed by three of the same text.
abbrev pub four_alike : List String → Bool
four_alike [] = false
four_alike (text ∷ l) = starts_alike 3 text l || four_alike l

fewer :
    (j m : ℕ) (text : String) (l : List String)
    → j ≤ m
    → starts_alike m text l ≡ true
    → starts_alike j text l ≡ true
fewer zero m text l p e = refl
fewer (suc j) zero text l p e = ground (arith, p)
fewer (suc j) (suc m) text [] p e = cc
fewer (suc j) (suc m) text (t ∷ l) p e =
    let (a, b) = and_case (str_eq t text) (starts_alike m text l) e in
    rw a (fewer j m text l (omega (arith, p)) b)

absorb : (a b c : Bool) → (b ≡ true → a ≡ true) → a || (b || c) ≡ a || c
absorb true b c f = refl
absorb false true c f = cc (f refl)
absorb false false c f = refl

abbrev at : String → ℕ → Polling
at text k = record { previous_err = some text; duplicate_err_count = k }

-- With `k` repetitions so far, the polling panics at the next `j + 1` of them.
abbrev Waits : List (Option String) → Type 0
Waits rounds =
    (text : String) (k j : ℕ)
    → k + suc j ≡ 3
    → panics rounds (at text k)
      ≡ starts_alike (suc j) text (errors rounds) || four_alike (errors rounds)

repeated :
    (rounds : List (Option String)) (text : String) (k j : ℕ)
    → k + suc j ≡ 3
    → Waits rounds
    → panics (some text ∷ rounds) (at text k)
      ≡ starts_alike (suc j) text (text ∷ errors rounds) || four_alike (text ∷ errors rounds)
unfolding panics
repeated rounds text k zero e w =
    let last : leb 3 (suc k) ≡ true = ground (arith, e) in rw (str_eq_refl text, last) refl
repeated rounds text k (suc j) e w =
    let early : leb 3 (suc k) ≡ false = ground (arith, e) in
    rw (str_eq_refl text, early)
      (w text (suc k) j (omega (arith, e))
        ∙ sym (
            absorb (starts_alike (suc j) text (errors rounds)) (starts_alike 3 text (errors rounds))
              _ (fewer (suc j) 3 text (errors rounds) (omega (arith, e)))))

panics_after : (rounds : List (Option String)) → Waits rounds
unfolding panics
panics_after [] text k j e = refl
panics_after (none ∷ rounds) text k j e = panics_after rounds text k j e
panics_after (some t ∷ rounds) text k j e = elim (Bool-cases (str_eq t text)) [
  | inl s ↦ rw ((str_eq_iff t text).0 s) (repeated rounds text k j e (panics_after rounds))
  | inr s ↦ rw s (panics_after rounds t 0 2 (omega arith))
]

-- A monitor's polling panics exactly if four errors in a row have the same text, where rounds without
-- an error between them do not interrupt the row.
pub panics_lem :
    (rounds : List (Option String)) → panics rounds polling ≡ four_alike (errors rounds)
unfolding panics
panics_lem [] = refl
panics_lem (none ∷ rounds) = panics_lem rounds
panics_lem (some text ∷ rounds) = panics_after rounds text 0 2 (omega arith)
