-- ===== src/ServiceEntry/Refinement.antt =====
-- A rebuilt Watcher decides as the specification does.
use istio_forward_proxy.Base.{
  ℕ, Bool, false, List, [], ◌∷◌, ◌++◌, Option, none, some, Bytes, drop, lookup, lookup-insert,
  arith, ◌≡◌, refl, sym, append_assoc, append-nil, if◌then◌else◌, Bool-cases, inl, inr,
}
use istio_forward_proxy.ServiceEntry.Defs.{
  HostEntry, no_entry, WildcardEntry, Table, Watcher, ServiceEntry, add_host, add_hosts,
  add_entries, build, rebuild, allow_host, allow_name, match_wildcards, normalize, entry_of,
}
use istio_forward_proxy.ServiceEntry.Spec.{
  Offer, is_wildcard, last_exact, first_wildcard, decide, verdict, offers_of, offers,
}

add_all : List Offer → Table → Table
add_all [] t = t
add_all ((h, e) ∷ os) t = add_all os (add_host e h t)

add_all-append : (os ps : List Offer) (t : Table) → add_all (os ++ ps) t ≡ add_all ps (add_all os t)
unfolding add_all
add_all-append [] ps t = refl
add_all-append ((h, e) ∷ os) ps t = add_all-append os ps (add_host e h t)

abbrev or_else : Option HostEntry → Option HostEntry → Option HostEntry
or_else (some e) other = some e
or_else none other = other

lookup-add_all :
    (host : Bytes) (os : List Offer) (t : Table)
    → lookup host (add_all os t).hosts ≡ or_else (last_exact host os) (lookup host t.hosts)
unfolding add_all add_host last_exact
lookup-add_all host [] t = refl
lookup-add_all host ((h, e) ∷ os) t =
    ground (arith, lookup-add_all host os (add_host e h t), lookup-insert h host e t.hosts)

wildcards_of : List Offer → List WildcardEntry
wildcards_of [] = []
wildcards_of ((h, e) ∷ os) =
    let rest = wildcards_of os in
    if is_wildcard h then record { suffix = drop 1 h; entry = e } ∷ rest else rest

wildcards-add_all :
    (os : List Offer) (t : Table) → (add_all os t).wildcards ≡ t.wildcards ++ wildcards_of os
unfolding add_all add_host wildcards_of
wildcards-add_all [] t = sym (append-nil t.wildcards)
wildcards-add_all ((h, e) ∷ os) t = elim (Bool-cases (is_wildcard h)) [
  | inl star ↦ rw (wildcards-add_all os (add_host e h t)) (
      rw star
        (append_assoc t.wildcards (record { suffix = drop 1 h; entry = e } ∷ []) (wildcards_of os)))
  | inr plain ↦ rw (wildcards-add_all os (add_host e h t)) (rw plain)
]

abbrev answer : Option HostEntry → ℕ → Bool × HostEntry
answer (some e) port = verdict e port
answer none port = (false, no_entry)

match_wildcards-first :
    (os : List Offer) (host : Bytes) (port : ℕ)
    → match_wildcards (wildcards_of os) host port ≡ answer (first_wildcard host os) port
unfolding match_wildcards wildcards_of first_wildcard
match_wildcards-first [] host port = refl
match_wildcards-first ((h, e) ∷ os) host port = ground (arith, match_wildcards-first os host port)

module _ (unicode_lower : Bytes → Bytes) where
  add_hosts-add_all :
      (e : HostEntry) (hs : List Bytes) (t : Table)
      → add_hosts unicode_lower e hs t ≡ add_all (offers_of unicode_lower e hs) t
  unfolding add_hosts add_all offers_of
  add_hosts-add_all e [] t = refl
  add_hosts-add_all e (h ∷ hs) t = add_hosts-add_all e hs _

  add_entries-add_all :
      (ses : List ServiceEntry) (t : Table)
      → add_entries unicode_lower ses t ≡ add_all (offers unicode_lower ses) t
  unfolding add_entries offers
  add_entries-add_all [] t = unfold add_all in refl
  add_entries-add_all (se ∷ ses) t =
      rw (add_all-append, ← add_hosts-add_all (entry_of se) se.hosts t) (add_entries-add_all ses _)

  lookup-build :
      (ses : List ServiceEntry) (host : Bytes)
      → lookup host (build unicode_lower ses).hosts ≡ last_exact host (offers unicode_lower ses)
  unfolding build
  lookup-build ses host =
      rw (add_entries-add_all ses, lookup-add_all host (offers unicode_lower ses))
        (unfold lookup in ground arith)

  wildcards-build :
      (ses : List ServiceEntry)
      → (build unicode_lower ses).wildcards ≡ wildcards_of (offers unicode_lower ses)
  unfolding build
  wildcards-build ses =
      rw (add_entries-add_all ses, wildcards-add_all (offers unicode_lower ses)) refl

  -- After a rebuild from a successful listing, AllowHost answers, for every host and port, what the
  -- specification says of the listed patterns and the normalised host, whatever the state before.
  pub allow_host-rebuild :
      (ses : List ServiceEntry) (w : Watcher) (host : Bytes) (port : ℕ)
      → allow_host unicode_lower (rebuild unicode_lower (some ses) w) host port
        ≡ decide (offers unicode_lower ses) (normalize unicode_lower host) port
  unfolding allow_host allow_name rebuild decide
  allow_host-rebuild ses w host port = ground (
    arith,
    lookup-build ses (normalize unicode_lower host),
    wildcards-build ses,
    match_wildcards-first (offers unicode_lower ses) (normalize unicode_lower host) port,
  )
