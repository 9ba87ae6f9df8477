-- ===== src/Common/Lists.antt =====
-- Lists measured by native numbers, searched and filtered by Boolean tests.
use Prim.Native.Nat.{ℕ, suc, ◌+◌}
use mathlib.Core.Path.{◌≡◌, refl, sym, ap, ◌∙◌}
use mathlib.Core.Logic.{◌⊎◌, inl, inr}
use mathlib.Core.Bool.{Bool, true, false}
use mathlib.Core.List.{List, [], ◌∷◌, ◌++◌, Memᴰ}
use native.Mathlib.Omega.{arith}
use aws_node_termination_han.Common.Tests.{Bool-cases, if◌then◌else◌}

module _ {ℓ} {A : Type ℓ} where
  abbrev pub length : List A → ℕ
  length [] = 0
  length (x ∷ xs) = suc (length xs)

  pub length-append : (xs ys : List A) → length (xs ++ ys) ≡ length xs + length ys
  length-append [] ys = omega arith
  length-append (x ∷ xs) ys = omega (arith, length-append xs ys)

  -- The elements that pass a test, in order.
  abbrev pub select : (A → Bool) → List A → List A
  select p [] = []
  select p (x ∷ xs) = if p x then x ∷ select p xs else select p xs

  abbrev pub any : (A → Bool) → List A → Bool
  any p [] = false
  any p (x ∷ xs) = if p x then true else any p xs

module _ {ℓ κ} {A : Type ℓ} where
  -- A predicate of every element.
  abbrev pub All : (A → Type κ) → List A → Type κ
  All P [] = Unit
  All P (x ∷ xs) = P x × All P xs

-- A member of a list is its head, or a member of its tail.
pub Mem-cases {ℓ} : {A : Type ℓ} {x y : A} {l : List A} → Memᴰ x (y ∷ l) → (x ≡ y) ⊎ Memᴰ x l
Mem-cases (Memᴰ.head e) = inl e
Mem-cases (Memᴰ.tail r) = inr r

pub Mem-any {ℓ} :
    {A : Type ℓ} (p : A → Bool) {x : A} (l : List A) → Memᴰ x l → p x ≡ true → any p l ≡ true
Mem-any p [] m h = elim m [ ]
Mem-any p {x} (y ∷ l) m h = elim (Mem-cases m) [
  | inl e ↦ rw (ap p (sym e) ∙ h)
  | inr r ↦ ground (arith, Mem-any p l r h)
]

pub any-Mem {ℓ} :
    {A : Type ℓ} (p : A → Bool) (l : List A) → any p l ≡ true → (x : A) × Memᴰ x l × (p x ≡ true)
any-Mem p [] h = cc
any-Mem p (y ∷ l) h = elim (Bool-cases (p y)) [
  | inl e ↦ (y, Memᴰ.head refl, e)
  | inr e ↦ let (x, m, q) = any-Mem p l (rw e at h) in (x, Memᴰ.tail m, q)
]
