-- ===== src/Http/Header.antt =====
-- http.Header of Go's standard library: a map from canonical names to lists of values.
use istio_forward_proxy.Base.{
  ℕ, ◌+◌, ◌-◌, Bool, true, ◌&&◌, ◌||◌, List, [], ◌∷◌, Option, none, some, Bytes, codes, contains,
  leb, ◌==◌, if◌then◌else◌, Map, lookup, insert, remove,
}

abbrev pub is_lower : ℕ → Bool
is_lower c = leb b'a' c && leb c b'z'

abbrev pub is_upper : ℕ → Bool
is_upper c = leb b'A' c && leb c b'Z'

abbrev pub is_digit : ℕ → Bool
is_digit c = leb b'0' c && leb c b'9'

-- validHeaderFieldByte of net/textproto: the bytes of a token
unfoldable pub valid_field_byte : ℕ → Bool
unfolding contains
valid_field_byte c = is_lower c || is_upper c || is_digit c || contains (codes "!#$%&'*+-.^_`|~") c

unfoldable pub valid_field : Bytes → Bool
valid_field [] = true
valid_field (c ∷ s) = valid_field_byte c && valid_field s

-- What the loop of canonicalMIMEHeaderKey makes of one byte.
abbrev pub recase : Bool → ℕ → ℕ
recase upper c =
    if upper then if is_lower c then c - 32 else c else if is_upper c then c + 32 else c

-- The loop itself.
unfoldable pub capitalize : Bool → Bytes → Bytes
capitalize upper [] = []
capitalize upper (c ∷ s) = recase upper c ∷ capitalize (recase upper c == b'-') s

-- http.CanonicalHeaderKey
unfoldable pub canonical_key : Bytes → Bytes
canonical_key s = if valid_field s then capitalize true s else s

abbrev pub Header : Type 0
Header = Map (List Bytes)

abbrev pub first_value : Option (List Bytes) → Bytes
first_value none = []
first_value (some []) = []
first_value (some (v ∷ vs)) = v

-- Header.Get
unfoldable pub get : Header → Bytes → Bytes
get h name = first_value (lookup (canonical_key name) h)

-- Header.Set
unfoldable pub set : Header → Bytes → Bytes → Header
set h name value = insert (canonical_key name) (value ∷ []) h

-- Header.Del
unfoldable pub del : Header → Bytes → Header
del h name = remove (canonical_key name) h
