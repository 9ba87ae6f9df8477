-- ===== src/SpotGuard/Search.antt =====
-- pkg/spotguard/spotguard.go: the search for a text in another, `contains`, `indexOf` and `toLower`. A
-- position is a number of bytes, as in the source. A slice of the source that splits a character
-- is no text here, and equals none in either.
use Prim.Native.Char.{Char, code, len_utf8}
use Prim.Native.String.{◌++◌, len, slice}
use Prim.Native.String.append
use Prim.Native.String.slice
use aws_node_termination_han.Common.{
  ℕ, zero, suc, ◌+◌, ◌-◌, ◌≤◌, ◌==◌, ◌≡◌, ◌↔◌, refl, sym, ap, ◌∙◌, arith, String, Bool, true, false,
  ◌&&◌, ◌||◌, Option, none, some, if◌then◌else◌, str_eq, str_eq_iff, str_eq_refl, leb, ltb, is_some,
  Bool-cases, and_case, or_case, inl, inr,
}
use text.Mathlib.TextEquality.{slice-prefix}
use text.Mathlib.TextPositions.{len-append, slice_all, slice-append_middle}

-- The positions that are left to try, and the next one.
unfoldable pub search_from : ℕ → ℕ → String → String → Option ℕ
search_from zero i str substr = none
search_from (suc k) i str substr =
    let rest = search_from k (suc i) str substr in
    if str_eq (slice str i (i + len substr)) substr then some i else rest

unfoldable pub index_of : String → String → Option ℕ
index_of str substr =
    if leb (len substr) (len str)
    then search_from (suc (len str - len substr)) 0 str substr
    else none

unfoldable pub contains : String → String → Bool
contains str substr =
    leb (len substr) (len str)
    && (str_eq str substr
        || ltb (len substr) (len str)
          && (str_eq (slice str 0 (len substr)) substr
              || (str_eq (slice str (len str - len substr) (len str)) substr
                  || is_some (index_of str substr))))

-- The letters from A to Z, and no others.
abbrev pub lower_in : Char → String → String → Char
lower_in c (String.◌∷◌ u uppers) (String.◌∷◌ l lowers) =
    let rest = lower_in c uppers lowers in if code c == code u then l else rest
lower_in c _ _ = c

unfoldable pub to_lower : String → String
to_lower String.[] = String.[]
to_lower (String.◌∷◌ c s) =
    String.◌∷◌ (lower_in c "ABCDEFGHIJKLMNOPQRSTUVWXYZ" "abcdefghijklmnopqrstuvwxyz") (to_lower s)

-- The text lies in the other, with some text before it and some after.
abbrev pub LiesIn : String → String → Type 0
LiesIn t s = (u : String) × (v : String) × (s ≡ u ++ (t ++ v))

skipped :
    (c : Char) (s : String) (a b : ℕ)
    → LiesIn (slice s (suc a - len_utf8 c) (b - len_utf8 c)) s
    → LiesIn (slice (String.◌∷◌ c s) (suc a) b) (String.◌∷◌ c s)
skipped c s a b (u, v, e) = (
  String.◌∷◌ c u,
  v,
  ap (String.◌∷◌ c) e
      ∙ sym (append.cons c u _)
      ∙ ap (λ x. String.◌∷◌ c u ++ (x ++ v)) (sym (slice.cons-suc c s a b)),
)

slice-LiesIn : (s : String) (a b : ℕ) → LiesIn (slice s a b) s
slice-LiesIn s zero b =
    let (v, e) = slice-prefix s b in (String.[], v, sym e ∙ sym (append.nil (slice s 0 b ++ v)))
slice-LiesIn String.[] (suc a) b = (
  String.[],
  String.[],
  sym (append.nil String.[])
      ∙ sym (append.nil (String.[] ++ String.[]))
      ∙ ap (λ x. String.[] ++ (x ++ String.[])) (sym (slice.nil (suc a) b)),
)
slice-LiesIn (String.◌∷◌ c s) (suc a) b =
    skipped c s a b (slice-LiesIn s (suc a - len_utf8 c) (b - len_utf8 c))

found-LiesIn : (s t : String) (a b : ℕ) → str_eq (slice s a b) t ≡ true → LiesIn t s
found-LiesIn s t a b e =
    let (u, v, split) = slice-LiesIn s a b in
    (u, v, split ∙ ap (λ x. u ++ (x ++ v)) ((str_eq_iff (slice s a b) t).0 e))

search-LiesIn : (k i : ℕ) (s t : String) → is_some (search_from k i s t) ≡ true → LiesIn t s
unfolding search_from
search-LiesIn zero i s t e = cc e
search-LiesIn (suc k) i s t e = elim (Bool-cases (str_eq (slice s i (i + len t)) t)) [
  | inl hit ↦ found-LiesIn s t i (i + len t) hit
  | inr miss ↦ search-LiesIn k (suc i) s t (rw miss at e)
]

plus_zero : (i : ℕ) → i ≡ i + 0
plus_zero i = omega arith

plus_suc : (i d : ℕ) → suc i + d ≡ i + suc d
plus_suc i d = omega arith

zero_plus : (i : ℕ) → 0 + i ≡ i
zero_plus i = omega arith

-- A position that is among those to try, at which the text lies.
search_hits :
    (k i d : ℕ) (s t : String)
    → suc d ≤ k
    → slice s (i + d) (i + d + len t) ≡ t
    → is_some (search_from k i s t) ≡ true
unfolding search_from
search_hits zero i d s t p e = ground (arith, p)
search_hits (suc k) i zero s t p e =
    let hit : slice s i (i + len t) ≡ t = ap (λ x. slice s x (x + len t)) (plus_zero i) ∙ e in
    rw (hit, str_eq_refl t) refl
search_hits (suc k) i (suc d) s t p e =
    let later =
      search_hits k (suc i) d s t (omega (arith, p))
        (ap (λ x. slice s x (x + len t)) (plus_suc i d) ∙ e) in
    elim (Bool-cases (str_eq (slice s i (i + len t)) t)) [
      | inl hit ↦ rw hit refl
      | inr miss ↦ rw miss later
    ]

-- The lengths of the three parts.
lengths : (s t u v : String) → s ≡ u ++ (t ++ v) → len s ≡ len u + (len t + len v)
lengths s t u v e = ap len e ∙ len-append u (t ++ v) ∙ ap (λ k. len u + k) (len-append t v)

index_of_hits : (s t : String) → LiesIn t s → is_some (index_of s t) ≡ true
unfolding index_of
index_of_hits s t (u, v, e) =
    let n = lengths s t u v e in
    let fits : leb (len t) (len s) ≡ true = ground (arith, n) in
    rw fits (
      search_hits (suc (len s - len t)) 0 (len u) s t (omega (arith, n)) (
        ap (λ x. slice s x (x + len t)) (zero_plus (len u))
        ∙ ap (λ w. slice w (len u) (len u + len t)) e
        ∙ slice-append_middle u t v))

-- With no room before and after it, it is the whole text.
whole : (s t u v : String) → s ≡ u ++ (t ++ v) → len s ≤ len t → s ≡ t
whole s t u v e p =
    let n = lengths s t u v e in
    let same_length : len s ≡ 0 + len t = omega (arith, n, p) in
    let at_start : 0 ≡ len u = omega (arith, n, p) in
    sym (slice_all s)
    ∙ ap (λ k. slice s 0 k) same_length
    ∙ ap (λ k. slice s k (k + len t)) at_start
    ∙ ap (λ w. slice w (len u) (len u + len t)) e
    ∙ slice-append_middle u t v

last_true : (a b c : Bool) → a || (b || (c || true)) ≡ true
last_true true b c = refl
last_true false true c = refl
last_true false false true = refl
last_true false false false = refl

index-LiesIn : (s t : String) → is_some (index_of s t) ≡ true → LiesIn t s
unfolding index_of
index-LiesIn s t e = elim (Bool-cases (leb (len t) (len s))) [
  | inl fits ↦ search-LiesIn (suc (len s - len t)) 0 s t (rw fits at e)
  | inr longer ↦ cc (rw longer at e)
]

contains-LiesIn : (s t : String) → contains s t ≡ true → LiesIn t s
unfolding contains
contains-LiesIn s t e = elim (or_case (str_eq s t) _ (and_case (leb (len t) (len s)) _ e).1) [
  | inl same ↦ found-LiesIn s t 0 (len s) (rw (slice_all s) same)
  | inr longer ↦
      elim (or_case (str_eq (slice s 0 (len t)) t) _ (and_case (ltb (len t) (len s)) _ longer).1) [
        | inl first ↦ found-LiesIn s t 0 (len t) first
        | inr later ↦ elim (or_case (str_eq (slice s (len s - len t) (len s)) t) _ later) [
          | inl last ↦ found-LiesIn s t (len s - len t) (len s) last
          | inr inside ↦ index-LiesIn s t inside
        ]
      ]
]

contains_hits : (s t : String) → LiesIn t s → contains s t ≡ true
unfolding contains
contains_hits s t (u, v, e) =
    let n = lengths s t u v e in
    let fits : leb (len t) (len s) ≡ true = ground (arith, n) in
    elim (Bool-cases (ltb (len t) (len s))) [
      | inl longer ↦
          rw (fits, longer, index_of_hits s t (u, v, e))
            (last_true (str_eq s t) (str_eq (slice s 0 (len t)) t)
              (str_eq (slice s (len s - len t) (len s)) t))
      | inr equal ↦ rw (fits, (str_eq_iff s t).1 (whole s t u v e (ground (arith, equal)))) refl
    ]

-- The search finds a text exactly where it lies, with some text before it and some after it; the
-- case of the letters counts.
pub contains_lem : (s t : String) → (contains s t ≡ true) ↔ LiesIn t s
contains_lem s t = (contains-LiesIn s t, contains_hits s t)
