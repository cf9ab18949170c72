-- ===== src/Net.antt =====
-- The targets of requests: internal/proxy/handler.go, splitHostPort and defaultPortForScheme, over
-- net.SplitHostPort and strconv.ParseUint of the standard library, which the program calls.
pub mod RoundTrip
mod Addresses
use istio_forward_proxy.Base.{
  ℕ, zero, suc, ◌/◌, ◌%◌, ◌+◌, ◌-◌, ◌*◌, ◌<◌, ◌^◌, Bool, ◌||◌, List, [], ◌∷◌, Option, none, some,
  Bytes, codes, equal, ltb, ◌==◌, if◌then◌else◌, contains, index_byte, last_index_byte, take, drop,
  length,
}

-- net.SplitHostPort on an address that starts with a bracket: `last` is the index of its last
-- colon and `close` that of its first closing bracket.
unfoldable pub split_bracketed : Bytes → ℕ → ℕ → Option (Bytes × Bytes)
split_bracketed hostport last close =
    if close + 1 == last
    then if contains (drop 1 hostport) b'[' || contains (drop (close + 1) hostport) b']'
      then none
      else some (drop 1 (take close hostport), drop (last + 1) hostport)
    else none

-- net.SplitHostPort on another address.
unfoldable pub split_plain : Bytes → ℕ → Option (Bytes × Bytes)
split_plain hostport last =
    if contains (take last hostport) b':' || contains hostport b'[' || contains hostport b']'
    then none
    else some (take last hostport, drop (last + 1) hostport)

unfoldable pub starts_bracketed : Bytes → Bool
starts_bracketed hostport = equal (take 1 hostport) (b'[' ∷ [])

-- net.SplitHostPort; its callers use no part of the error.
unfoldable pub net_split_host_port : Bytes → Option (Bytes × Bytes)
unfolding split_bracketed split_plain starts_bracketed
net_split_host_port hostport = elim (last_index_byte hostport b':') [
  | none ↦ none
  | some last ↦
      if starts_bracketed hostport
      then elim (index_byte hostport b']') [
        | none ↦ none
        | some close ↦ split_bracketed hostport last close
      ]
      else split_plain hostport last
]

abbrev pub max_uint32 : ℕ
max_uint32 = 2 ^ 32 - 1

-- The digits read so far stand for `n`.
unfoldable pub read_digits : Bytes → ℕ → Option ℕ
read_digits [] n = some n
read_digits (c ∷ s) n =
    let m = n * 10 + (c - b'0') in
    let rest = read_digits s m in
    if ltb c b'0' || ltb b'9' c then none else if ltb max_uint32 m then none else rest

-- strconv.ParseUint(s, 10, 32); both errors, of syntax and of range, are `none`.
unfoldable pub parse_uint : Bytes → Option ℕ
unfolding read_digits
parse_uint [] = none
parse_uint (c ∷ s) = read_digits (c ∷ s) 0

-- splitHostPort
unfoldable pub split_host_port : Bytes → ℕ → Bytes × ℕ
split_host_port hostport default_port = elim (net_split_host_port hostport) [
  | none ↦ (hostport, default_port)
  | some (host, port_str) ↦ elim (parse_uint port_str) [
    | none ↦ (host, default_port)
    | some p ↦ (host, p)
  ]
]

-- defaultPortForScheme
unfoldable pub default_port_for_scheme : Bytes → ℕ
default_port_for_scheme scheme = if equal scheme (codes "https") then 443 else 80

-- The digits of `n` before those in `acc`; one digit for each unit of fuel.
unfoldable pub decimal_from : ℕ → ℕ → Bytes → Bytes
decimal_from zero n acc = acc
decimal_from (suc fuel) n acc =
    let rest = decimal_from fuel (n / 10) ((b'0' + n % 10) ∷ acc) in
    if ltb n 10 then (b'0' + n) ∷ acc else rest

-- The verb %d of the package fmt; a number has at most as many digits as it has units, and one.
unfoldable pub decimal : ℕ → Bytes
unfolding decimal_from
decimal n = decimal_from (n + 1) n []
