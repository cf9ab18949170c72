-- ===== src/Proxy/Identity/Laws.antt =====
-- Where the identity in the audit log comes from.
use istio_forward_proxy.Base.{
  ℕ, suc, ◌+◌, true, false, List, [], ◌∷◌, ◌++◌, Option, none, some, Bytes, codes, index,
  has_prefix, take, drop, length, is_empty, ◌≡◌, ◌≢◌, refl, ap, ◌∙◌, arith, Bool-cases,
  Option-cases, inl, inr, Occurs, here, there, ◌⊎◌,
}
use istio_forward_proxy.Http.Header.{Header, get}
use istio_forward_proxy.Http.Message.{Url, Certificate, Request}
use istio_forward_proxy.Proxy.Handler.{Handler}
use istio_forward_proxy.Proxy.Identity.{
  is_spiffe, first_spiffe, spiffe_from_tls, spiffe_of_text, extract_spiffe_from_xfcc,
  spiffe_from_request, xfcc,
}

prefix_split : (s t : Bytes) → has_prefix s t ≡ true → s ≡ t ++ drop (length t) s
unfolding has_prefix
prefix_split s [] h = refl
prefix_split (a ∷ s) (b ∷ t) h =
    let same : a ≡ b = ground arith in
    let rest = prefix_split s t (ground arith) in λ i. same i ∷ rest i
prefix_split [] (b ∷ t) h = cc

-- strings.Index finds the text where it says.
index_sound :
    (s t : Bytes) (i : ℕ) → index s t ≡ some i → s ≡ take i s ++ (t ++ drop (i + length t) s)
unfolding index
index_sound [] t i h = elim (Bool-cases (has_prefix [] t)) [
  | inl p ↦
      let z : i ≡ 0 = ground arith in
      let start : 0 + length t ≡ length t = omega arith in rw (z, start) (prefix_split [] t p)
  | inr q ↦ ground arith
]
index_sound (a ∷ s) t i h = elim (Bool-cases (has_prefix (a ∷ s) t)) [
  | inl p ↦
      let z : i ≡ 0 = ground arith in
      let start : 0 + length t ≡ length t = omega arith in rw (z, start) (prefix_split (a ∷ s) t p)
  | inr q ↦ elim (Option-cases (index s t)) [
    | inl missing ↦ ground arith
    | inr (j, found) ↦
        let z : i ≡ suc j = ground arith in
        let next : suc j + length t ≡ suc (j + length t) = omega arith in
        rw (z, next) (ap (λ u. a ∷ u) (index_sound s t j found))
  ]
]

-- A URL of the certificates, by scheme spiffe.
pub record FromCertificate (r : Request) (id : Bytes) : Type 0 where
  pub cert : Certificate
  pub certs : List Certificate
  pub presented : r.peer_certificates ≡ some (cert ∷ certs)
  pub url : Url
  pub named : Occurs url cert.uris
  pub spiffe : is_spiffe url ≡ true
  pub printed : id ≡ url.text

-- A URL of scheme spiffe that the trusted header quotes behind its first `URI=`.
pub record FromHeader (parse_url : Bytes → Option Url) (h : Handler) (r : Request) (id : Bytes)
    : Type 0 where
  pub trusted : h.trust_xfcc_header ≡ true
  pub before : Bytes
  pub quoted : Bytes
  pub after : Bytes
  pub split : get r.header xfcc ≡ before ++ (codes "URI=\"" ++ (quoted ++ (codes "\"" ++ after)))
  pub url : Url
  pub parsed : parse_url quoted ≡ some url
  pub spiffe : is_spiffe url ≡ true
  pub printed : id ≡ url.text

first_spiffe_sound :
    (us : List Url) (id : Bytes)
    → first_spiffe us ≡ some id
    → (u : Url) × Occurs u us × (is_spiffe u ≡ true) × (id ≡ u.text)
unfolding first_spiffe
first_spiffe_sound [] id h = cc
first_spiffe_sound (u ∷ us) id h = elim (Bool-cases (is_spiffe u)) [
  | inl secure ↦ (u, here, secure, ground arith)
  | inr other ↦ let (v, o, s, e) = first_spiffe_sound us id (ground arith) in (v, there o, s, e)
]

spiffe_from_tls_sound :
    (certs : Option (List Certificate)) (id : Bytes)
    → spiffe_from_tls certs ≡ some id
    → (cert : Certificate) × (rest : List Certificate) × (certs ≡ some (cert ∷ rest))
      × (first_spiffe cert.uris ≡ some id)
unfolding spiffe_from_tls
spiffe_from_tls_sound none id h = cc
spiffe_from_tls_sound (some []) id h = cc
spiffe_from_tls_sound (some (cert ∷ rest)) id h = (cert, rest, refl, h)

module _ (parse_url : Bytes → Option Url) where
  -- A text that stands for an identity is the URL that it prints.
  spiffe_of_text_sound :
      (s : Bytes)
      → spiffe_of_text parse_url s ≢ []
      → (u : Url) × (parse_url s ≡ some u)
        × (is_spiffe u ≡ true)
        × (spiffe_of_text parse_url s ≡ u.text)
  unfolding spiffe_of_text
  spiffe_of_text_sound s ne = elim (Option-cases (parse_url s)) [
    | inl failed ↦ absurd (ne (rw (failed, spiffe_of_text) refl))
    | inr (u, parsed) ↦ elim (Bool-cases (is_spiffe u)) [
      | inl secure ↦ (u, parsed, secure, rw (parsed, spiffe_of_text, secure) refl)
      | inr other ↦ absurd (ne (rw (parsed, spiffe_of_text, other) refl))
    ]
  ]

  quoted_text :
      (v : Bytes)
      → extract_spiffe_from_xfcc parse_url v ≢ []
      → (before quoted after : Bytes) × (v
          ≡ before ++ (codes "URI=\"" ++ (quoted ++ (codes "\"" ++ after))))
        × (extract_spiffe_from_xfcc parse_url v ≡ spiffe_of_text parse_url quoted)
  unfolding extract_spiffe_from_xfcc
  quoted_text v ne = elim (Option-cases (index v (codes "URI=\""))) [
    | inl missing ↦ absurd (ne (rw (missing, extract_spiffe_from_xfcc) refl))
    | inr (i, found) ↦
        let rest = drop (i + length (codes "URI=\"")) v in
        elim (Option-cases (index rest (codes "\""))) [
          | inl unclosed ↦ absurd (ne (rw (found, extract_spiffe_from_xfcc, unclosed) refl))
          | inr (j, closed) ↦ (
            take i v,
            take j rest,
            drop (j + length (codes "\"")) rest,
            index_sound v (codes "URI=\"") i found
                ∙ ap (λ u. take i v ++ (codes "URI=\"" ++ u))
                    (index_sound rest (codes "\"") j closed),
            rw (found, extract_spiffe_from_xfcc, closed) refl,
          )
        ]
  ]

  -- An identity in the audit log is a URL of scheme spiffe: one of the first certificate of the
  -- connection, or, only where the handler trusts X-Forwarded-Client-Cert, one that this header
  -- quotes behind `URI=`.
  pub spiffe_from_request_sound :
      (h : Handler) (r : Request)
      → spiffe_from_request parse_url h r ≢ []
      → FromCertificate r (spiffe_from_request parse_url h r)
        ⊎ FromHeader parse_url h r (spiffe_from_request parse_url h r)
  unfolding spiffe_from_request
  spiffe_from_request_sound h r ne = elim (Option-cases (spiffe_from_tls r.peer_certificates)) [
    | inr (id, found) ↦
        let (cert, rest, presented, first) = spiffe_from_tls_sound r.peer_certificates id found in
        let (u, named, secure, printed) = first_spiffe_sound cert.uris id first in
        inl (record {
          cert = cert;
          certs = rest;
          presented = presented;
          url = u;
          named = named;
          spiffe = secure;
          printed = rw (found, spiffe_from_request) printed;
        })
    | inl missing ↦ elim (Bool-cases h.trust_xfcc_header) [
      | inr distrusted ↦ absurd (ne (rw (missing, spiffe_from_request, distrusted) refl))
      | inl trusted ↦ elim (Bool-cases (is_empty (get r.header xfcc))) [
        | inl blank ↦ absurd (ne (rw (missing, spiffe_from_request, trusted, blank) refl))
        | inr there_is ↦
            let v = get r.header xfcc in
            let taken : spiffe_from_request parse_url h r ≡ extract_spiffe_from_xfcc parse_url v =
              rw (missing, spiffe_from_request, trusted, there_is) refl in
            let (before, quoted, after, split, same) = quoted_text v (λ e. ne (taken ∙ e)) in
            let (u, parsed, secure, printed) =
              spiffe_of_text_sound quoted (λ e. ne (taken ∙ same ∙ e)) in
            inr (record {
              trusted = trusted;
              before = before;
              quoted = quoted;
              after = after;
              split = split;
              url = u;
              parsed = parsed;
              spiffe = secure;
              printed = taken ∙ same ∙ printed;
            })
      ]
    ]
  ]

  -- The verified certificate goes before the header: where it names a URL of scheme spiffe, or the
  -- header is not trusted, the identity is the same whatever headers the client sends.
  pub spiffe_from_request-header :
      (h : Handler) (r : Request) (header : Header)
      → (h.trust_xfcc_header ≡ false) ⊎ (spiffe_from_tls r.peer_certificates ≢ none)
      → spiffe_from_request parse_url h (record r { header = header })
        ≡ spiffe_from_request parse_url h r
  unfolding spiffe_from_request
  spiffe_from_request-header h r header proof =
      elim (Option-cases (spiffe_from_tls r.peer_certificates)) [
        | inr (id, found) ↦ rw (found, spiffe_from_request) refl
        | inl missing ↦ elim proof [
          | inl distrusted ↦ rw (missing, spiffe_from_request, distrusted) refl
          | inr verified ↦ absurd (verified missing)
        ]
      ]
