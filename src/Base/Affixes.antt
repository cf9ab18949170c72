-- ===== src/Base/Affixes.antt =====
-- What the tests for a prefix and for a suffix decide, and trimming of one byte.
use istio_forward_proxy.Base.Strings.{Bytes, equal, equal_iff, has_prefix, has_suffix, trim_suffix}
use istio_forward_proxy.Base.Tests.{Bool-cases}
use mathlib.Core.Bool.{true, false}
use mathlib.Core.List.{[], ◌∷◌, ◌++◌}
use mathlib.Core.Logic.{inl, inr}
use mathlib.Core.Path.{◌≡◌, refl, ap}
use Prim.Native.Nat.{ℕ}
use native.Mathlib.Omega.{arith}

pub equal_refl : (s : Bytes) → equal s s ≡ true
equal_refl s = (equal_iff s s).1 refl

pub has_prefix_sound : (s t : Bytes) → has_prefix s t ≡ true → (r : Bytes) × (s ≡ t ++ r)
unfolding has_prefix
has_prefix_sound s [] h = (s, refl)
has_prefix_sound (a ∷ s) (b ∷ t) h =
    let (r, e) = has_prefix_sound s t (ground arith) in
    let same : a ≡ b = ground arith in (r, λ i. same i ∷ e i)
has_prefix_sound [] (b ∷ t) h = cc

pub has_prefix-append : (t r : Bytes) → has_prefix (t ++ r) t ≡ true
unfolding has_prefix
has_prefix-append [] [] = refl
has_prefix-append [] (x ∷ r) = refl
has_prefix-append (b ∷ t) r = ground (arith, has_prefix-append t r)

pub has_suffix_sound : (s t : Bytes) → has_suffix s t ≡ true → (r : Bytes) × (s ≡ r ++ t)
unfolding has_suffix
has_suffix_sound [] t h = ([], (equal_iff [] t).0 h)
has_suffix_sound (a ∷ s) t h = elim (Bool-cases (equal (a ∷ s) t)) [
  | inl same ↦ ([], (equal_iff (a ∷ s) t).0 same)
  | inr other ↦ let (r, e) = has_suffix_sound s t (ground arith) in (a ∷ r, ap (λ u. a ∷ u) e)
]

pub has_suffix_self : (t : Bytes) → has_suffix t t ≡ true
unfolding has_suffix
has_suffix_self [] = equal_refl []
has_suffix_self (b ∷ t) = rw (equal_refl (b ∷ t))

pub has_suffix-append : (r t : Bytes) → has_suffix (r ++ t) t ≡ true
unfolding has_suffix
has_suffix-append [] t = has_suffix_self t
has_suffix-append (a ∷ r) t = ground (arith, has_suffix-append r t)

-- A text that ends in the byte loses it, and nothing else.
pub trim_suffix-append : (s : Bytes) (c : ℕ) → trim_suffix (s ++ c ∷ []) c ≡ s
unfolding trim_suffix
trim_suffix-append [] c = ground arith
trim_suffix-append (a ∷ []) c = ground arith
trim_suffix-append (a ∷ b ∷ s) c = ap (λ u. a ∷ u) (trim_suffix-append (b ∷ s) c)

-- Any other text is left alone.
pub trim_suffix_other : (s : Bytes) (c : ℕ) → has_suffix s (c ∷ []) ≡ false → trim_suffix s c ≡ s
unfolding trim_suffix has_suffix equal
trim_suffix_other [] c h = refl
trim_suffix_other (a ∷ []) c h = ground arith
trim_suffix_other (a ∷ b ∷ s) c h = ap (λ u. a ∷ u) (trim_suffix_other (b ∷ s) c (ground arith))
