-- ===== src/Main/Settings.antt =====
-- cmd/main.go: envOr, envOrBool, parseLogLevel, headerNameFromEnv and the loop of parseFlags over
-- the environment.
use istio_forward_proxy.Base.{
  ℕ, ◌+◌, ◌-◌, Bool, true, false, ◌&&◌, ◌||◌, List, [], ◌∷◌, Option, none, some, Bytes, codes,
  equal, has_prefix, is_empty, drop, take, length, index_byte, insert, Map, leb, ◌==◌,
  if◌then◌else◌, ltb,
}

-- envOr; the argument is what os.Getenv returned.
unfoldable pub env_or : Bytes → Bytes → Bytes
env_or v default = if is_empty v then default else v

-- envOrBool
unfoldable pub env_or_bool : Bytes → Bool → Bool
env_or_bool v default =
    if equal v (codes "true") || equal v (codes "1") || equal v (codes "yes")
    then true
    else if equal v (codes "false") || equal v (codes "0") || equal v (codes "no")
    then false
    else default

-- slog.Level
pub data Level : Type 0 where
  level_debug level_info level_warn level_error : Level

-- parseLogLevel
unfoldable pub parse_log_level : Bytes → Level
parse_log_level s =
    if equal s (codes "debug")
    then level_debug
    else if equal s (codes "warn")
    then level_warn
    else if equal s (codes "error")
    then level_error
    else level_info

-- One byte of headerNameFromEnv that is not an underscore.
abbrev pub recase_env : Bool → ℕ → ℕ
recase_env upper c =
    if upper
    then if leb b'a' c && leb c b'z' then c - 32 else c
    else if leb b'A' c && leb c b'Z'
    then c + 32
    else c

-- The loop of headerNameFromEnv.
unfoldable pub header_name_loop : Bool → Bytes → Bytes
header_name_loop upper [] = []
header_name_loop upper (c ∷ s) =
    let next = header_name_loop true s in
    let later = header_name_loop false s in
    if c == b'_' then b'-' ∷ next else recase_env upper c ∷ later

-- headerNameFromEnv
unfoldable pub header_name_from_env : Bytes → Bytes
header_name_from_env s = header_name_loop true s

abbrev pub extra_prefix : Bytes
extra_prefix = codes "EXTRA_HEADER_"

-- The inner loop of parseFlags: the text before the first `=`, and the text behind it.
unfoldable pub cut : Bytes → Option (Bytes × Bytes)
cut rest = elim (index_byte rest b'=') [
  | none ↦ none
  | some i ↦ some (take i rest, drop (i + 1) rest)
]

abbrev pub set_extra : Option (Bytes × Bytes) → Map Bytes → Map Bytes
set_extra none extra = extra
set_extra (some (name, value)) extra = insert (header_name_from_env name) value extra

-- The body of the loop of parseFlags over os.Environ().
unfoldable pub add_extra : Bytes → Map Bytes → Map Bytes
add_extra e extra =
    if ltb (length extra_prefix) (length e) && has_prefix e extra_prefix
    then set_extra (cut (drop (length extra_prefix) e)) extra
    else extra

-- The loop itself.
unfoldable pub extra_headers : List Bytes → Map Bytes → Map Bytes
extra_headers [] extra = extra
extra_headers (e ∷ environ) extra = extra_headers environ (add_extra e extra)
