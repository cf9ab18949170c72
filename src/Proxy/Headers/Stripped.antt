-- ===== src/Proxy/Headers/Stripped.antt =====
-- Which canonical header names isHopByHop and the loop of buildUpstreamRequest take out.
use istio_forward_proxy.Base.{
  ℕ, true, List, [], ◌∷◌, Bytes, codes, contains, equal, equal_iff, equal_refl, is_ascii, to_lower,
  lower_byte, map, ltb, equal_fold, sym, arith, ◌≡◌, refl, ◌∙◌, Bool-cases, inl, inr,
}
use istio_forward_proxy.Http.Header.{canonical_key, capitalize, valid_field, valid_field_byte}
use istio_forward_proxy.Http.Canonical.{canonical_key_case}
use istio_forward_proxy.Proxy.Headers.{is_stripped, is_hop_by_hop, is_one_of, proxy_authorization}

-- The names that do not go on to the upstream, in canonical form.
abbrev pub removed : List Bytes
removed =
    codes "Connection"
    ∷ codes "Keep-Alive"
    ∷ codes "Proxy-Authenticate"
    ∷ proxy_authorization
    ∷ codes "Te"
    ∷ codes "Trailers"
    ∷ codes "Transfer-Encoding"
    ∷ codes "Upgrade"
    ∷ []

abbrev pub IsCanonical : Bytes → Type 0
IsCanonical k = canonical_key k ≡ k

ascii_of_valid : (c : ℕ) → valid_field_byte c ≡ true → ltb c 128 ≡ true
unfolding valid_field_byte contains
ascii_of_valid c h = ground arith

is_ascii-valid : (s : Bytes) → valid_field s ≡ true → is_ascii s ≡ true
unfolding valid_field is_ascii
is_ascii-valid [] h = refl
is_ascii-valid (c ∷ s) h = ground (arith, ascii_of_valid c, is_ascii-valid s)

-- Canonical names that agree in lower case are equal.
equal-lower :
    (n t : Bytes)
    → valid_field n ≡ true
    → IsCanonical n
    → IsCanonical t
    → equal (map lower_byte n) (map lower_byte t) ≡ equal n t
equal-lower n t v c d = elim (Bool-cases (equal n t)) [
  | inl same ↦
      let e : n ≡ t = (equal_iff n t).0 same in
      rw (e, equal_refl (map lower_byte t), equal_refl t) refl
  | inr other ↦ elim (Bool-cases (equal (map lower_byte n) (map lower_byte t))) [
    | inl folded ↦
        let e : n ≡ t =
          sym c
          ∙ canonical_key_case n t v ((equal_iff (map lower_byte n) (map lower_byte t)).0 folded)
          ∙ d in
        cc (e, equal_refl t)
    | inr unlike ↦ cc (unlike, other)
  ]
]

-- Each of the names is canonical.
removed-IsCanonical :
    IsCanonical (codes "Connection")
    × IsCanonical (codes "Keep-Alive")
    × IsCanonical (codes "Proxy-Authenticate")
    × IsCanonical proxy_authorization
    × IsCanonical (codes "Te")
    × IsCanonical (codes "Trailers")
    × IsCanonical (codes "Transfer-Encoding")
    × IsCanonical (codes "Upgrade")
unfolding canonical_key capitalize valid_field valid_field_byte contains
removed-IsCanonical = (refl, refl, refl, refl, refl, refl, refl, refl)

-- Of the valid canonical names, exactly the eight are stripped.
pub is_stripped-removed :
    (unicode_lower : Bytes → Bytes) (n : Bytes)
    → valid_field n ≡ true
    → IsCanonical n
    → is_stripped unicode_lower n ≡ is_one_of removed n
unfolding is_stripped is_hop_by_hop is_one_of to_lower equal_fold
is_stripped-removed unicode_lower n v c =
    let (a, b, d, e, f, g, h, k) = removed-IsCanonical in
    rw (is_ascii-valid n v) (
      ground (
        arith,
        equal-lower n (codes "Connection") v c a,
        equal-lower n (codes "Keep-Alive") v c b,
        equal-lower n (codes "Proxy-Authenticate") v c d,
        equal-lower n proxy_authorization v c e,
        equal-lower n (codes "Te") v c f,
        equal-lower n (codes "Trailers") v c g,
        equal-lower n (codes "Transfer-Encoding") v c h,
        equal-lower n (codes "Upgrade") v c k,
      ))
