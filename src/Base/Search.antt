-- ===== src/Base/Search.antt =====
-- Finding a byte or a text: strings.Index and the functions of the package bytealg behind
-- net.SplitHostPort.
use Prim.Native.Nat.{ℕ, suc}
use mathlib.Core.Bool.{Bool, false, ◌||◌}
use mathlib.Core.Option
use mathlib.Core.Option.{Option, none, some}
use mathlib.Core.List.{[], ◌∷◌}
use istio_forward_proxy.Base.Tests.{◌==◌, if◌then◌else◌}
use istio_forward_proxy.Base.Strings.{Bytes, has_prefix}

-- IndexByteString(s, c) ≥ 0
unfoldable pub contains : Bytes → ℕ → Bool
contains [] c = false
contains (a ∷ s) c = a == c || contains s c

-- IndexByteString(s, c), `none` for -1
unfoldable pub index_byte : Bytes → ℕ → Option ℕ
index_byte [] c = none
index_byte (a ∷ s) c =
    let later = Option.map suc (index_byte s c) in if a == c then some 0 else later

-- LastIndexByteString(s, c), `none` for -1
unfoldable pub last_index_byte : Bytes → ℕ → Option ℕ
last_index_byte [] c = none
last_index_byte (a ∷ s) c = elim (last_index_byte s c) [
  | some i ↦ some (suc i)
  | none ↦ if a == c then some 0 else none
]

-- strings.Index(s, substr), `none` for -1
unfoldable pub index : Bytes → Bytes → Option ℕ
index [] substr = if has_prefix [] substr then some 0 else none
index (a ∷ s) substr =
    let later = Option.map suc (index s substr) in
    if has_prefix (a ∷ s) substr then some 0 else later
