-- ===== src/Base/Strings.antt =====
-- Go's strings as lists of bytes, and the functions of the packages strings and bytes that the
-- program calls, as far as they work byte by byte.
use Prim.Native.Char.{code}
use Prim.Native.Nat.{ℕ, ◌+◌}
use Prim.Native.String.{String}
use mathlib.Core.Path.{◌≡◌}
use mathlib.Core.Logic.{◌↔◌}
use mathlib.Core.Bool.{Bool, true, false, ◌&&◌}
use mathlib.Core.List.{List, [], ◌∷◌, map}
use native.Mathlib.Omega.{arith}
use istio_forward_proxy.Base.Tests.{◌==◌, leb, ltb, if◌then◌else◌}

abbrev pub Bytes : Type 0
Bytes = List ℕ

-- The code points of a literal; these are its bytes, since the literals are ASCII.
abbrev pub codes : String → Bytes
codes String.[] = []
codes (String.◌∷◌ c s) = code c ∷ codes s

-- s == t
unfoldable pub equal : Bytes → Bytes → Bool
equal [] [] = true
equal (a ∷ s) (b ∷ t) = a == b && equal s t
equal [] (b ∷ t) = false
equal (a ∷ s) [] = false

-- len(s) == 0
abbrev pub is_empty {ℓ} : {A : Type ℓ} → List A → Bool
is_empty [] = true
is_empty (x ∷ xs) = false

-- strings.HasPrefix(s, prefix)
unfoldable pub has_prefix : Bytes → Bytes → Bool
has_prefix s [] = true
has_prefix (a ∷ s) (b ∷ prefix) = a == b && has_prefix s prefix
has_prefix [] (b ∷ prefix) = false

-- strings.HasSuffix(s, suffix): some tail of s is the suffix.
unfoldable pub has_suffix : Bytes → Bytes → Bool
has_suffix [] suffix = equal [] suffix
has_suffix (a ∷ s) suffix =
    let later = has_suffix s suffix in if equal (a ∷ s) suffix then true else later

-- strings.TrimSuffix(s, suffix) at a suffix of one byte.
unfoldable pub trim_suffix : Bytes → ℕ → Bytes
trim_suffix [] c = []
trim_suffix (a ∷ []) c = if a == c then [] else a ∷ []
trim_suffix (a ∷ b ∷ s) c = a ∷ trim_suffix (b ∷ s) c

abbrev pub lower_byte : ℕ → ℕ
lower_byte c = if leb b'A' c && leb c b'Z' then c + 32 else c

unfoldable pub is_ascii : Bytes → Bool
is_ascii [] = true
is_ascii (c ∷ s) = ltb c 128 && is_ascii s

-- strings.ToLower: byte by byte on ASCII text; on other text it maps code points by the tables of
-- the package unicode, which are the argument.
unfoldable pub to_lower : (Bytes → Bytes) → Bytes → Bytes
to_lower unicode_lower s = if is_ascii s then map lower_byte s else unicode_lower s

-- strings.EqualFold(s, t) for an ASCII text t without the letters k and s, the only ones to which
-- Unicode folds a character outside ASCII.
unfoldable pub equal_fold : Bytes → Bytes → Bool
equal_fold s t = equal (map lower_byte s) (map lower_byte t)

pub equal_iff : (s t : Bytes) → (equal s t ≡ true) ↔ (s ≡ t)
unfolding equal
equal_iff [] [] = ground arith
equal_iff (a ∷ s) (b ∷ t) = ground (arith, equal_iff s t)
equal_iff [] (b ∷ t) = ground arith
equal_iff (a ∷ s) [] = ground arith
