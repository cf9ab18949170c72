-- ===== src/ServiceEntry/History.antt =====
-- Which listing decides after a history of callbacks, and which ServiceEntry within a listing.
use istio_forward_proxy.Base.{
  ℕ, false, List, [], ◌∷◌, ◌++◌, Option, none, some, Bytes, equal_refl, equal_iff, ◌≢◌, here, there,
  arith, ◌≡◌, refl, ap, sym, ◌∙◌, Option-cases, inl, inr, Occurs, Occurs-cons, append_assoc,
}
use istio_forward_proxy.ServiceEntry.Defs.{
  HostEntry, Watcher, ServiceEntry, InformerEvent, added, updated, deleted, new_watcher, rebuild,
  build, add_entries, handle_event, allow_host, normalize, entry_of,
}
use istio_forward_proxy.ServiceEntry.Spec.{
  Offer, is_wildcard, last_exact, decide, verdict, offers_of, offers,
}
use istio_forward_proxy.ServiceEntry.Refinement.{allow_host-rebuild}

abbrev pub listing_of : InformerEvent → Option (List ServiceEntry)
listing_of (added listing) = listing
listing_of (updated listing) = listing
listing_of (deleted listing) = listing

abbrev or_old : Option (List ServiceEntry) → List ServiceEntry → List ServiceEntry
or_old (some ses) old = ses
or_old none old = old

-- The last listing that did not fail, or the one before the history.
unfoldable pub latest : List InformerEvent → List ServiceEntry → List ServiceEntry
latest [] old = old
latest (e ∷ es) old = latest es (or_old (listing_of e) old)

last_exact-append :
    (host : Bytes) (os ps : List Offer) (e : HostEntry)
    → last_exact host ps ≡ some e
    → last_exact host (os ++ ps) ≡ some e
unfolding last_exact
last_exact-append host [] ps e h = h
last_exact-append host ((g, f) ∷ os) ps e h = rw (last_exact-append host os ps e h) refl

last_exact-stays :
    (host : Bytes) (os ps : List Offer)
    → last_exact host ps ≡ none
    → last_exact host (os ++ ps) ≡ last_exact host os
unfolding last_exact
last_exact-stays host [] ps m = m
last_exact-stays host ((g, f) ∷ os) ps m = rw (last_exact-stays host os ps m) refl

module _ (unicode_lower : Bytes → Bytes) where
  -- The state after a sequence of callbacks.
  unfoldable pub run : List InformerEvent → Watcher → Watcher
  run [] w = w
  run (e ∷ es) w = run es (handle_event unicode_lower e w)

  handle_event_lem :
      (e : InformerEvent) (w : Watcher)
      → handle_event unicode_lower e w ≡ rebuild unicode_lower (listing_of e) w
  unfolding handle_event
  handle_event_lem (added listing) w = refl
  handle_event_lem (updated listing) w = refl
  handle_event_lem (deleted listing) w = refl

  failed_listing : (w : Watcher) → rebuild unicode_lower none w ≡ w
  unfolding rebuild
  failed_listing w = refl

  decide-run :
      (es : List InformerEvent) (ses : List ServiceEntry) (w : Watcher) (host : Bytes) (port : ℕ)
      → allow_host unicode_lower (run es (rebuild unicode_lower (some ses) w)) host port
        ≡ decide (offers unicode_lower (latest es ses)) (normalize unicode_lower host) port
  unfolding run latest
  decide-run [] ses w host port = allow_host-rebuild unicode_lower ses w host port
  decide-run (e ∷ es) ses w host port = elim (Option-cases (listing_of e)) [
    | inl failed ↦
        rw (handle_event_lem e (rebuild unicode_lower (some ses) w), failed, failed_listing)
          (decide-run es ses w host port)
    | inr (later, listed) ↦
        rw (handle_event_lem e (rebuild unicode_lower (some ses) w), listed)
          (decide-run es later (rebuild unicode_lower (some ses) w) host port)
  ]

  -- From the start of the Watcher, whatever callbacks have run and whichever listings have failed,
  -- AllowHost decides by the last listing that succeeded, and by the empty one before the first.
  pub allow_host-run :
      (es : List InformerEvent) (host : Bytes) (port : ℕ)
      → allow_host unicode_lower (run es new_watcher) host port
        ≡ decide (offers unicode_lower (latest es [])) (normalize unicode_lower host) port
  allow_host-run es host port =
      let empty : rebuild unicode_lower (some []) new_watcher ≡ new_watcher =
        unfold rebuild build add_entries new_watcher in refl in
      ap (λ w. allow_host unicode_lower (run es w) host port) (sym empty)
      ∙ decide-run es [] new_watcher host port

  last_exact_own :
      (e : HostEntry) (hs : List Bytes) (host : Bytes) (f : HostEntry)
      → last_exact host (offers_of unicode_lower e hs) ≡ some f
      → f ≡ e
  unfolding last_exact offers_of
  last_exact_own e [] host f h = cc
  last_exact_own e (g ∷ hs) host f h = ground (arith, last_exact_own e hs host f)

  last_exact-offers_of :
      (e : HostEntry) (hs : List Bytes) (h host : Bytes)
      → Occurs h hs
      → normalize unicode_lower h ≡ host
      → is_wildcard host ≡ false
      → last_exact host (offers_of unicode_lower e hs) ≡ some e
  last_exact-offers_of e [] h host o same plain = elim o [ ]
  last_exact-offers_of e (g ∷ hs) h host o same plain =
      elim (Option-cases (last_exact host (offers_of unicode_lower e hs))) [
        | inr (f, found) ↦
            let own = last_exact_own e hs host f found in
            unfold last_exact offers_of in ground arith
        | inl missing ↦ elim (Occurs-cons o) [
          | inl here_named ↦
              let spelled : normalize unicode_lower g ≡ host =
                ap (normalize unicode_lower) (sym here_named) ∙ same in
              unfold last_exact offers_of in rw (missing, spelled, plain, equal_refl host) refl
          | inr later ↦ cc (missing, last_exact-offers_of e hs h host later same plain)
        ]
      ]

  -- No pattern of these ServiceEntries is the text of the host.
  abbrev pub NoExact : List ServiceEntry → Bytes → Type 0
  NoExact ses host =
      (se : ServiceEntry) (h : Bytes)
      → Occurs se ses
      → Occurs h se.hosts
      → normalize unicode_lower h ≢ normalize unicode_lower host

  offers-append :
      (ses ts : List ServiceEntry)
      → offers unicode_lower (ses ++ ts) ≡ offers unicode_lower ses ++ offers unicode_lower ts
  unfolding offers
  offers-append [] ts = refl
  offers-append (s ∷ ses) ts = rw (offers-append ses ts) (
      sym (
        append_assoc (offers_of unicode_lower (entry_of s) s.hosts) (offers unicode_lower ses)
          (offers unicode_lower ts)))

  last_exact_absent :
      (e : HostEntry) (hs : List Bytes) (os : List Offer) (host : Bytes)
      → ((h : Bytes) → Occurs h hs → normalize unicode_lower h ≢ host)
      → last_exact host os ≡ none
      → last_exact host (offers_of unicode_lower e hs ++ os) ≡ none
  unfolding last_exact offers_of
  last_exact_absent e [] os host absent m = m
  last_exact_absent e (g ∷ hs) os host absent m =
      let rest = last_exact_absent e hs os host (λ h o. absent h (there o)) m in
      let other = absent g here in ground (arith, equal_iff (normalize unicode_lower g) host)

  last_exact_missing :
      (ses : List ServiceEntry) (host : Bytes)
      → NoExact ses host
      → last_exact (normalize unicode_lower host) (offers unicode_lower ses) ≡ none
  unfolding offers last_exact
  last_exact_missing [] host absent = refl
  last_exact_missing (s ∷ ses) host absent =
      last_exact_absent (entry_of s) s.hosts (offers unicode_lower ses)
        (normalize unicode_lower host) (λ h. absent s h here)
        (last_exact_missing ses host (λ se h o. absent se h (there o)))

  -- Of the ServiceEntries with an exact pattern for a host, the one that is listed last decides
  -- alone, whatever is listed before it and behind it: its ports replace those of every other
  -- ServiceEntry with a pattern for the host.
  pub last_listed_decides :
      (ses : List ServiceEntry) (se : ServiceEntry) (ts : List ServiceEntry) (w : Watcher)
      (h host : Bytes) (port : ℕ)
      → Occurs h se.hosts
      → normalize unicode_lower h ≡ normalize unicode_lower host
      → is_wildcard (normalize unicode_lower host) ≡ false
      → NoExact ts host
      → allow_host unicode_lower (rebuild unicode_lower (some (ses ++ se ∷ ts)) w) host port
        ≡ verdict (entry_of se) port
  last_listed_decides ses se ts w h host port o same plain behind =
      let own =
        last_exact-offers_of (entry_of se) se.hosts h (normalize unicode_lower host) o same plain in
      let last =
        last_exact-stays (normalize unicode_lower host)
          (offers_of unicode_lower (entry_of se) se.hosts) (offers unicode_lower ts)
          (last_exact_missing ts host behind)
        ∙ own in
      let found =
        last_exact-append (normalize unicode_lower host) (offers unicode_lower ses)
          (offers unicode_lower (se ∷ ts)) (entry_of se) (unfold offers in last) in
      rw
        (allow_host-rebuild unicode_lower (ses ++ se ∷ ts) w host port, offers-append ses (se ∷ ts))
        (unfold decide in rw (found, decide) refl)
