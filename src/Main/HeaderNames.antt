-- ===== src/Main/HeaderNames.antt =====
-- The extra headers that the environment configures.
use istio_forward_proxy.Base.{
  ℕ, ◌+◌, Bool, true, false, List, [], ◌∷◌, ◌++◌, some, Bytes, contains, index_byte, map, ◌==◌,
  if◌then◌else◌, ◌≡◌, refl, sym, arith, length, drop, has_prefix-append, drop-append, take-append,
  length-append, ltb, lookup, insert, lookup-insert, equal_refl, Map, append_assoc,
}
use istio_forward_proxy.Http.Header.{canonical_key, capitalize, valid_field}
use istio_forward_proxy.Main.Settings.{
  header_name_from_env, header_name_loop, cut, add_extra, extra_headers, extra_prefix,
}

-- An underscore stands for a dash.
abbrev pub dash : ℕ → ℕ
dash c = if c == b'_' then b'-' else c

header_name_loop-capitalize :
    (upper : Bool) (s : Bytes)
    → contains s b'-' ≡ false
    → header_name_loop upper s ≡ capitalize upper (map dash s)
unfolding header_name_loop capitalize contains
header_name_loop-capitalize upper [] h = refl
header_name_loop-capitalize upper (c ∷ s) h =
    ground (arith, header_name_loop-capitalize true s, header_name_loop-capitalize false s)

-- A name from the environment that has no dash becomes the canonical form of the name with dashes
-- in place of its underscores, where that is a valid header name.
pub header_name_from_env-canonical_key :
    (s : Bytes)
    → contains s b'-' ≡ false
    → valid_field (map dash s) ≡ true
    → header_name_from_env s ≡ canonical_key (map dash s)
unfolding header_name_from_env canonical_key
header_name_from_env-canonical_key s plain valid =
    rw valid (header_name_loop-capitalize true s plain)

index_byte-append :
    (k v : Bytes) (c : ℕ) → contains k c ≡ false → index_byte (k ++ c ∷ v) c ≡ some (length k)
unfolding index_byte contains
index_byte-append [] v c h = let same : (c == c) ≡ true = ground arith in rw same refl
index_byte-append (a ∷ k) v c h = ground (arith, index_byte-append k v c)

drop_past : (s t : Bytes) (c : ℕ) → drop (length s + 1) (s ++ c ∷ t) ≡ t
drop_past s t c =
    let split : s ++ c ∷ t ≡ (s ++ c ∷ []) ++ t = sym (append_assoc s (c ∷ []) t) in
    let size : length s + 1 ≡ length (s ++ c ∷ []) = sym (length-append s (c ∷ [])) in
    rw (split, size) (drop-append (s ++ c ∷ []) t)

cut-append : (k v : Bytes) → contains k b'=' ≡ false → cut (k ++ b'=' ∷ v) ≡ some (k, v)
unfolding cut
cut-append k v h =
    rw (index_byte-append k v b'=' h, cut, take-append k (b'=' ∷ v), drop_past k v b'=') refl

add_extra-append :
    (k v : Bytes) (extra : Map Bytes)
    → contains k b'=' ≡ false
    → add_extra (extra_prefix ++ (k ++ b'=' ∷ v)) extra ≡ insert (header_name_from_env k) v extra
unfolding add_extra
add_extra-append k v extra h =
    let rest = k ++ b'=' ∷ v in
    let longer : ltb (length extra_prefix) (length (extra_prefix ++ rest)) ≡ true =
      (let n = length-append extra_prefix rest in
        let m = length-append k (b'=' ∷ v) in ground (arith, n, m)) in
    rw
      (longer, has_prefix-append extra_prefix rest, drop-append extra_prefix rest, cut-append k v h)
      refl

extra_headers-append :
    (before : List Bytes) (e : Bytes) (extra : Map Bytes)
    → extra_headers (before ++ e ∷ []) extra ≡ add_extra e (extra_headers before extra)
unfolding extra_headers
extra_headers-append [] e extra = refl
extra_headers-append (d ∷ before) e extra = extra_headers-append before e (add_extra d extra)

-- A variable of the environment whose name is EXTRA_HEADER_ and more text sets, behind all
-- variables before it, the header that this text names to the variable's value, `=` included.
pub extra_headers-lookup :
    (before : List Bytes) (k v : Bytes) (extra : Map Bytes)
    → contains k b'=' ≡ false
    → lookup
        (header_name_from_env k)
        (extra_headers (before ++ (extra_prefix ++ (k ++ b'=' ∷ v)) ∷ []) extra)
      ≡ some v
extra_headers-lookup before k v extra h =
    let name = header_name_from_env k in
    let done = extra_headers before extra in
    rw
      (
        extra_headers-append before (extra_prefix ++ (k ++ b'=' ∷ v)) extra,
        add_extra-append k v done h,
        lookup-insert name name v done,
        equal_refl name,
      )
      refl
