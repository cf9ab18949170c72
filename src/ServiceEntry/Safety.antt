-- ===== src/ServiceEntry/Safety.antt =====
-- What an allowed request has behind it, and what is refused.
use istio_forward_proxy.Base.{
  ℕ, true, List, [], ◌∷◌, ◌++◌, some, Bytes, codes, equal, equal_iff, has_suffix, has_prefix_sound,
  has_suffix_sound, drop, arith, ◌≡◌, refl, ap, ◌∙◌, if◌then◌else◌, Bool-cases, Option-cases, ◌&&◌,
  inl, inr, Occurs, Occurs-cons, Occurs-append, here, there, is_empty, ◌==◌,
}
use istio_forward_proxy.ServiceEntry.Defs.{
  HostEntry, Watcher, ServiceEntry, rebuild, allow_host, normalize, port_allowed, lists_port,
  entry_of,
}
use istio_forward_proxy.ServiceEntry.Spec.{
  Offer, is_wildcard, last_exact, first_wildcard, decide, verdict, offers_of, offers, Covers, exact,
  wildcard, Admits, IsListed,
}
use istio_forward_proxy.ServiceEntry.Refinement.{allow_host-rebuild}

lists_port_sound : (ps : List ℕ) (port : ℕ) → lists_port ps port ≡ true → Occurs port ps
unfolding lists_port
lists_port_sound [] port h = cc
lists_port_sound (p ∷ ps) port h = elim (Bool-cases (p == port)) [
  | inl same ↦ let e : p ≡ port = ground arith in rw e here
  | inr other ↦ there (lists_port_sound ps port (ground arith))
]

port_allowed_sound :
    (e : HostEntry) (port : ℕ) → port_allowed e port ≡ true → Admits e.allowed_ports port
unfolding port_allowed
port_allowed_sound e port h = go e.allowed_ports h
  where
    go : (ps : List ℕ) → (if is_empty ps then true else lists_port ps port) ≡ true → Admits ps port
    go [] p = inl refl
    go (q ∷ qs) p = inr (lists_port_sound (q ∷ qs) port p)

-- An offer that stands behind a decision.
pub record Backed (os : List Offer) (host : Bytes) (e : HostEntry) : Type 0 where
  pub pattern : Bytes
  pub occurs : Occurs (pattern, e) os
  pub covers : Covers pattern host

Backed-cons :
    (o : Offer) (os : List Offer) (host : Bytes) (e : HostEntry)
    → Backed os host e
    → Backed (o ∷ os) host e
Backed-cons o os host e b = record {
  pattern = b.pattern;
  occurs = there b.occurs;
  covers = b.covers;
}

Covers-suffix :
    (h host : Bytes) → is_wildcard h ≡ true → has_suffix host (drop 1 h) ≡ true → Covers h host
Covers-suffix h host star fits =
    let (domain, e) = has_prefix_sound h (codes "*.") star in
    let (front, f) = has_suffix_sound host (drop 1 h) fits in
    wildcard front domain e (f ∙ ap (λ (u : Bytes). front ++ drop 1 u) e)

pub last_exact-Backed :
    (host : Bytes) (os : List Offer) (e : HostEntry)
    → last_exact host os ≡ some e
    → Backed os host e
last_exact-Backed host [] e p = unfold last_exact in cc
last_exact-Backed host ((h, f) ∷ os) e p = elim (Option-cases (last_exact host os)) [
  | inr (g, found) ↦
      let same : g ≡ e = unfold last_exact in ground arith in
      Backed-cons (h, f) os host e (last_exact-Backed host os e (rw (← same) found))
  | inl later ↦
      let (name, same) : (equal h host ≡ true) × (f ≡ e) = unfold last_exact in ground arith in
      record { pattern = h; occurs = rw same here; covers = exact ((equal_iff h host).0 name) }
]

pub first_wildcard-Backed :
    (host : Bytes) (os : List Offer) (e : HostEntry)
    → first_wildcard host os ≡ some e
    → Backed os host e
first_wildcard-Backed host [] e p = unfold first_wildcard in cc
first_wildcard-Backed host ((h, f) ∷ os) e p =
    elim (Bool-cases (is_wildcard h && has_suffix host (drop 1 h))) [
      | inl fits ↦
          let same : f ≡ e = unfold first_wildcard in ground arith in
          record {
            pattern = h;
            occurs = rw same here;
            covers = Covers-suffix h host (ground arith) (ground arith);
          }
      | inr other ↦
          Backed-cons (h, f) os host e
            (first_wildcard-Backed host os e (unfold first_wildcard in ground arith))
    ]

verdict-Admits :
    (found e : HostEntry) (port : ℕ)
    → verdict found port ≡ (true, e)
    → (found ≡ e) × Admits found.allowed_ports port
verdict-Admits found e port h = (ground arith, port_allowed_sound found port (ground arith))

decide-Backed :
    (os : List Offer) (host : Bytes) (port : ℕ) (e : HostEntry)
    → decide os host port ≡ (true, e)
    → Backed os host e × Admits e.allowed_ports port
decide-Backed os host port e h = elim (Option-cases (last_exact host os)) [
  | inr (f, found) ↦
      let (same, admits) = verdict-Admits f e port (unfold decide in ground arith) in
      rw (← same) (last_exact-Backed host os f found, admits)
  | inl missing ↦ elim (Option-cases (first_wildcard host os)) [
    | inr (f, found) ↦
        let (same, admits) = verdict-Admits f e port (unfold decide in ground arith) in
        rw (← same) (first_wildcard-Backed host os f found, admits)
    | inl none_fits ↦ unfold decide in ground arith
  ]
]

module _ (unicode_lower : Bytes → Bytes) where
  -- Where an offer comes from.
  pub record Source (ses : List ServiceEntry) (pattern : Bytes) (e : HostEntry) : Type 0 where
    pub owner : ServiceEntry
    pub name : Bytes
    pub listed : Occurs owner ses
    pub named : Occurs name owner.hosts
    pub spelled : pattern ≡ normalize unicode_lower name
    pub ports : e.allowed_ports ≡ owner.ports

  Source-cons :
      (se : ServiceEntry) (ses : List ServiceEntry) (pattern : Bytes) (e : HostEntry)
      → Source ses pattern e
      → Source (se ∷ ses) pattern e
  Source-cons se ses pattern e s = record {
    owner = s.owner;
    name = s.name;
    listed = there s.listed;
    named = s.named;
    spelled = s.spelled;
    ports = s.ports;
  }

  offers_of_source :
      (e : HostEntry) (hs : List Bytes) (o : Offer)
      → Occurs o (offers_of unicode_lower e hs)
      → (h : Bytes) × Occurs h hs × (o ≡ (normalize unicode_lower h, e))
  unfolding offers_of
  offers_of_source e [] o p = elim p [ ]
  offers_of_source e (h ∷ hs) o p = elim (Occurs-cons p) [
    | inl same ↦ (h, here, same)
    | inr later ↦ let (g, at, same) = offers_of_source e hs o later in (g, there at, same)
  ]

  pub offers-Source :
      (ses : List ServiceEntry) (pattern : Bytes) (e : HostEntry)
      → Occurs (pattern, e) (offers unicode_lower ses)
      → Source ses pattern e
  unfolding offers entry_of
  offers-Source [] pattern e o = elim o [ ]
  offers-Source (se ∷ ses) pattern e o =
      elim (Occurs-append (offers_of unicode_lower (entry_of se) se.hosts) _ o) [
        | inl own ↦
            let (h, at, same) = offers_of_source (entry_of se) se.hosts (pattern, e) own in
            record {
              owner = se;
              name = h;
              listed = here;
              named = at;
              spelled = ap (λ (q : Offer). q.0) same;
              ports = ap (λ (q : Offer). q.1.allowed_ports) same;
            }
        | inr later ↦ Source-cons se ses pattern e (offers-Source ses pattern e later)
      ]

  -- A request that AllowHost lets through after a rebuild is one that a listed ServiceEntry covers:
  -- one of its hosts matches, exactly or by a wildcard before a dot, and its ports admit the port.
  pub allow_host_sound :
      (ses : List ServiceEntry) (w : Watcher) (host : Bytes) (port : ℕ)
      → (allow_host unicode_lower (rebuild unicode_lower (some ses) w) host port).0 ≡ true
      → IsListed unicode_lower ses host port
  allow_host_sound ses w host port h =
      let os = offers unicode_lower ses in
      let name = normalize unicode_lower host in
      let e = (decide os name port).1 in
      let allowed : decide os name port ≡ (true, e) =
        cc (h, allow_host-rebuild unicode_lower ses w host port) in
      let (b, admits) = decide-Backed os name port e allowed in
      let s = offers-Source ses b.pattern e b.occurs in
      record {
        owner = s.owner;
        pattern = s.name;
        listed = s.listed;
        named = s.named;
        covers = rw (← s.spelled) b.covers;
        admits = rw (← s.ports) admits;
      }
