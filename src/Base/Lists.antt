-- ===== src/Base/Lists.antt =====
-- Lists measured by native numbers, `All`, and membership as a family that can be matched.
use Prim.Native.Nat.{ℕ, zero, suc, ◌+◌}
use mathlib.Core.Path.{◌≡◌, refl}
use mathlib.Core.Logic.{◌⊎◌, inl, inr}
use mathlib.Core.List.{List, [], ◌∷◌, ◌++◌}
use native.Mathlib.Omega.{arith}

module _ {ℓ} {A : Type ℓ} where
  abbrev pub length : List A → ℕ
  length [] = 0
  length (x ∷ xs) = suc (length xs)

  abbrev pub take : ℕ → List A → List A
  take zero xs = []
  take (suc n) [] = []
  take (suc n) (x ∷ xs) = x ∷ take n xs

  abbrev pub drop : ℕ → List A → List A
  drop zero xs = xs
  drop (suc n) [] = []
  drop (suc n) (x ∷ xs) = drop n xs

  pub length-append : (xs ys : List A) → length (xs ++ ys) ≡ length xs + length ys
  length-append [] ys = omega arith
  length-append (x ∷ xs) ys = omega (arith, length-append xs ys)

  pub take-append : (xs ys : List A) → take (length xs) (xs ++ ys) ≡ xs
  take-append [] ys = refl
  take-append (x ∷ xs) ys = λ i. x ∷ take-append xs ys i

  pub drop-append : (xs ys : List A) → drop (length xs) (xs ++ ys) ≡ ys
  drop-append [] ys = refl
  drop-append (x ∷ xs) ys = drop-append xs ys

  -- Where an element stands in a list.
  pub data Occurs (a : A) : List A → Type ℓ where
    here : {xs : List A} → Occurs a (a ∷ xs)
    there : {x : A} {xs : List A} → Occurs a xs → Occurs a (x ∷ xs)

module _ {ℓ} {A : Type ℓ} where
  pub Occurs-cons : {a x : A} {xs : List A} → Occurs a (x ∷ xs) → (a ≡ x) ⊎ Occurs a xs
  Occurs-cons here = inl refl
  Occurs-cons (there o) = inr o

  pub Occurs-append : {a : A} (xs ys : List A) → Occurs a (xs ++ ys) → Occurs a xs ⊎ Occurs a ys
  Occurs-append [] ys o = inr o
  Occurs-append (x ∷ xs) ys here = inl here
  Occurs-append (x ∷ xs) ys (there o) = elim (Occurs-append xs ys o) [
    | inl p ↦ inl (there p)
    | inr q ↦ inr q
  ]

  pub Occurs-append_left : {a : A} (xs ys : List A) → Occurs a xs → Occurs a (xs ++ ys)
  Occurs-append_left [] ys o = elim o [ ]
  Occurs-append_left (x ∷ xs) ys here = here
  Occurs-append_left (x ∷ xs) ys (there o) = there (Occurs-append_left xs ys o)

  pub Occurs-append_right : {a : A} (xs ys : List A) → Occurs a ys → Occurs a (xs ++ ys)
  Occurs-append_right [] ys o = o
  Occurs-append_right (x ∷ xs) ys o = there (Occurs-append_right xs ys o)

module _ {ℓ κ} {A : Type ℓ} (P : A → Type κ) where
  abbrev pub All : List A → Type κ
  All [] = Unit
  All (x ∷ xs) = P x × All xs

  pub All-append : (xs ys : List A) → All xs → All ys → All (xs ++ ys)
  All-append [] ys _ hy = hy
  All-append (x ∷ xs) ys (px, hx) hy = (px, All-append xs ys hx hy)
