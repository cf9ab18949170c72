-- ===== src/ServiceEntry/Coverage.antt =====
-- Which requests pass where the ServiceEntries that cover a host agree on the port, and how the
-- order of the listing decides where they do not.
use istio_forward_proxy.Base.{
  ℕ, true, false, List, [], ◌∷◌, none, some, Bytes, codes, equal_iff, has_suffix, has_prefix_sound,
  has_prefix-append, has_suffix-append, drop, arith, ◌≡◌, ◌≢◌, ◌↔◌, refl, ap, sym, ◌∙◌,
  if◌then◌else◌, Bool-cases, Option-cases, inl, inr, Occurs, Occurs-cons, Occurs-append_left,
  Occurs-append_right, here, there, ◌⊎◌, is_empty,
}
use istio_forward_proxy.ServiceEntry.Defs.{
  HostEntry, Watcher, ServiceEntry, rebuild, allow_host, normalize, port_allowed, lists_port,
  entry_of,
}
use istio_forward_proxy.ServiceEntry.Spec.{
  Offer, is_wildcard, last_exact, first_wildcard, decide, offers_of, offers, Covers, exact,
  wildcard, Admits, IsListed,
}
use istio_forward_proxy.ServiceEntry.Refinement.{allow_host-rebuild}
use istio_forward_proxy.ServiceEntry.Safety.{
  last_exact-Backed, first_wildcard-Backed, offers-Source, allow_host_sound,
}

lists_port_complete : (ps : List ℕ) (port : ℕ) → Occurs port ps → lists_port ps port ≡ true
unfolding lists_port
lists_port_complete [] port o = elim o [ ]
lists_port_complete (p ∷ ps) port o = elim (Occurs-cons o) [
  | inl same ↦ ground arith
  | inr later ↦ ground (arith, lists_port_complete ps port later)
]

port_allowed_complete :
    (e : HostEntry) (port : ℕ) → Admits e.allowed_ports port → port_allowed e port ≡ true
unfolding port_allowed
port_allowed_complete e port (inl free) = rw free
port_allowed_complete e port (inr o) = go e.allowed_ports o
  where
    go : (ps : List ℕ) → Occurs port ps → (if is_empty ps then true else lists_port ps port) ≡ true
    go [] p = refl
    go (q ∷ qs) p = lists_port_complete (q ∷ qs) port p

-- The two tests of the specification miss no pattern that covers the host.
Covers-hit :
    (h host : Bytes)
    → Covers h host
    → ((is_wildcard h ≡ false) × (h ≡ host))
      ⊎ ((is_wildcard h ≡ true) × (has_suffix host (drop 1 h) ≡ true))
Covers-hit h host (exact e) = elim (Bool-cases (is_wildcard h)) [
  | inr plain ↦ inl (plain, e)
  | inl star ↦
      let (domain, f) = has_prefix_sound h (codes "*.") star in
      let spelled : host ≡ b'*' ∷ b'.' ∷ domain = sym e ∙ f in
      inr (star, rw (f, spelled) (has_suffix-append (b'*' ∷ []) (b'.' ∷ domain)))
]
Covers-hit h host (wildcard front domain e f) = inr (
  rw e (has_prefix-append (codes "*.") domain),
  rw (e, f) (has_suffix-append front (b'.' ∷ domain)),
)

last_exact_misses :
    (host : Bytes) (os : List Offer) (h : Bytes) (e : HostEntry)
    → last_exact host os ≡ none
    → Occurs (h, e) os
    → is_wildcard h ≡ false
    → h ≢ host
last_exact_misses host [] h e m o plain = elim o [ ]
last_exact_misses host ((g, f) ∷ os) h e m o plain = elim (Occurs-cons o) [
  | inl same ↦
      let same_name : h ≡ g = ap (λ (q : Offer). q.0) same in
      unfold last_exact in ground (arith, equal_iff g host)
  | inr later ↦ last_exact_misses host os h e (unfold last_exact in ground arith) later plain
]

first_wildcard_misses :
    (host : Bytes) (os : List Offer) (h : Bytes) (e : HostEntry)
    → first_wildcard host os ≡ none
    → Occurs (h, e) os
    → is_wildcard h ≡ true
    → has_suffix host (drop 1 h) ≡ false
first_wildcard_misses host [] h e m o star = elim o [ ]
first_wildcard_misses host ((g, f) ∷ os) h e m o star = elim (Occurs-cons o) [
  | inl same ↦
      let same_name : h ≡ g = ap (λ (q : Offer). q.0) same in unfold first_wildcard in ground arith
  | inr later ↦ first_wildcard_misses host os h e (unfold first_wildcard in ground arith) later star
]

decide_covered :
    (os : List Offer) (host : Bytes) (port : ℕ) (h : Bytes) (e : HostEntry)
    → ((g : Bytes) (f : HostEntry) → Occurs (g, f) os → Covers g host → Admits f.allowed_ports port)
    → Occurs (h, e) os
    → Covers h host
    → (decide os host port).0 ≡ true
decide_covered os host port h e agree o c = elim (Option-cases (last_exact host os)) [
  | inr (f, found) ↦
      let b = last_exact-Backed host os f found in
      let fine = port_allowed_complete f port (agree b.pattern f b.occurs b.covers) in
      unfold decide in ground arith
  | inl missing ↦ elim (Option-cases (first_wildcard host os)) [
    | inr (f, found) ↦
        let b = first_wildcard-Backed host os f found in
        let fine = port_allowed_complete f port (agree b.pattern f b.occurs b.covers) in
        unfold decide in ground arith
    | inl none_fits ↦ elim (Covers-hit h host c) [
      | inl (plain, same) ↦ absurd (last_exact_misses host os h e missing o plain same)
      | inr (star, fits) ↦ cc (fits, first_wildcard_misses host os h e none_fits o star)
    ]
  ]
]

module _ (unicode_lower : Bytes → Bytes) where
  -- Every listed ServiceEntry with a pattern that covers the host admits the port.
  abbrev pub AllAdmit : List ServiceEntry → Bytes → ℕ → Type 0
  AllAdmit ses host port =
      (se : ServiceEntry) (h : Bytes)
      → Occurs se ses
      → Occurs h se.hosts
      → Covers (normalize unicode_lower h) (normalize unicode_lower host)
      → Admits se.ports port

  offers_of_complete :
      (e : HostEntry) (hs : List Bytes) (h : Bytes)
      → Occurs h hs
      → Occurs (normalize unicode_lower h, e) (offers_of unicode_lower e hs)
  unfolding offers_of
  offers_of_complete e [] h o = elim o [ ]
  offers_of_complete e (g ∷ hs) h o = elim (Occurs-cons o) [
    | inl same ↦ rw same here
    | inr later ↦ there (offers_of_complete e hs h later)
  ]

  offers_complete :
      (ses : List ServiceEntry) (se : ServiceEntry) (h : Bytes)
      → Occurs se ses
      → Occurs h se.hosts
      → Occurs (normalize unicode_lower h, entry_of se) (offers unicode_lower ses)
  unfolding offers
  offers_complete [] se h o at = elim o [ ]
  offers_complete (s ∷ ses) se h o at = elim (Occurs-cons o) [
    | inl same ↦
        Occurs-append_left (offers_of unicode_lower (entry_of s) s.hosts) (offers unicode_lower ses)
          (rw (← same) (offers_of_complete (entry_of se) se.hosts h at))
    | inr later ↦
        Occurs-append_right (offers_of unicode_lower (entry_of s) s.hosts)
          (offers unicode_lower ses) (offers_complete ses se h later at)
  ]

  -- Where all ServiceEntries that cover a host admit the port, AllowHost lets the request through
  -- after a rebuild exactly when one of them covers the host.
  pub allow_host_iff :
      (ses : List ServiceEntry) (w : Watcher) (host : Bytes) (port : ℕ)
      → AllAdmit ses host port
      → ((allow_host unicode_lower (rebuild unicode_lower (some ses) w) host port).0 ≡ true)
        ↔ IsListed unicode_lower ses host port
  allow_host_iff ses w host port agree = (allow_host_sound unicode_lower ses w host port, complete)
    where
      agrees :
          (g : Bytes) (f : HostEntry)
          → Occurs (g, f) (offers unicode_lower ses)
          → Covers g (normalize unicode_lower host)
          → Admits f.allowed_ports port
      agrees g f o c =
          let s = offers-Source unicode_lower ses g f o in
          rw s.ports (agree s.owner s.name s.listed s.named (rw s.spelled at c))

      complete :
          IsListed unicode_lower ses host port
          → (allow_host unicode_lower (rebuild unicode_lower (some ses) w) host port).0 ≡ true
      complete l = rw (allow_host-rebuild unicode_lower ses w host port) (
          decide_covered (offers unicode_lower ses) (normalize unicode_lower host) port _
            (entry_of l.owner) agrees (offers_complete ses l.owner l.pattern l.listed l.named)
            l.covers)
