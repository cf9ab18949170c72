-- ===== src/ServiceEntry/Invariant.antt =====
-- The state of the Watcher over a run: what every rebuild keeps, and which listing is in force.
use istio_forward_proxy.Base.{
  true, false, List, [], ◌∷◌, Option, none, some, Bytes, codes, equal, equal_iff, Map, keys, insert,
  IsDistinct, All, All-append, has_prefix, has_prefix_sound, has_prefix-append, drop, arith, ◌≡◌,
  ◌≢◌, Bool-cases, inl, inr,
}
use istio_forward_proxy.ServiceEntry.Defs.{
  HostEntry, WildcardEntry, Table, Watcher, ServiceEntry, InformerEvent, added, updated, deleted,
  new_watcher, mark_synced, add_host, add_hosts, add_entries, build, rebuild, handle_event,
  entry_of, normalize,
}
use istio_forward_proxy.ServiceEntry.Spec.{is_wildcard}

pub record IsValid (hosts : Map HostEntry) (wildcards : List WildcardEntry) : Type 0 where
  pub distinct : IsDistinct hosts
  pub plain : All (λ k. is_wildcard k ≡ false) (keys hosts)
  pub dotted : All (λ wc. has_prefix wc.suffix (codes ".") ≡ true) wildcards

insert-All :
    (P : Bytes → Type 0) (k : Bytes) (e : HostEntry) (m : Map HostEntry)
    → P k
    → All P (keys m)
    → All P (keys (insert k e m))
unfolding insert
insert-All P k e [] p h = (p, tt)
insert-All P k e ((j, w) ∷ m) p h = elim (Bool-cases (equal j k)) [
  | inl same ↦ rw same h
  | inr other ↦ rw other (h.0, insert-All P k e m p h.1)
]

insert-IsDistinct :
    (k : Bytes) (e : HostEntry) (m : Map HostEntry) → IsDistinct m → IsDistinct (insert k e m)
unfolding insert
insert-IsDistinct k e [] h = (tt, tt)
insert-IsDistinct k e ((j, w) ∷ m) h = elim (Bool-cases (equal j k)) [
  | inl same ↦ rw same h
  | inr other ↦ rw other (
    insert-All (λ i. i ≢ j) k e m (ground (arith, equal_iff j k)) h.0,
    insert-IsDistinct k e m h.1,
  )
]

abbrev TableIsValid : Table → Type 0
TableIsValid t = IsValid t.hosts t.wildcards

drop_star : (h : Bytes) → is_wildcard h ≡ true → has_prefix (drop 1 h) (codes ".") ≡ true
drop_star h star =
    let (r, e) = has_prefix_sound h (codes "*.") star in rw e (has_prefix-append (codes ".") r)

add_host-IsValid :
    (e : HostEntry) (h : Bytes) (t : Table) → TableIsValid t → TableIsValid (add_host e h t)
unfolding add_host
add_host-IsValid e h t v = elim (Bool-cases (is_wildcard h)) [
  | inl star ↦ rw star (record {
    distinct = v.distinct;
    plain = v.plain;
    dotted = All-append _ t.wildcards _ v.dotted (drop_star h star, tt);
  })
  | inr plain ↦ rw plain (record {
    distinct = insert-IsDistinct h e t.hosts v.distinct;
    plain = insert-All (λ k. is_wildcard k ≡ false) h e t.hosts plain v.plain;
    dotted = v.dotted;
  })
]

module _ (unicode_lower : Bytes → Bytes) where
  add_hosts-IsValid :
      (e : HostEntry) (hs : List Bytes) (t : Table)
      → TableIsValid t
      → TableIsValid (add_hosts unicode_lower e hs t)
  unfolding add_hosts
  add_hosts-IsValid e [] t v = v
  add_hosts-IsValid e (h ∷ hs) t v =
      add_hosts-IsValid e hs (add_host e _ t) (add_host-IsValid e (normalize unicode_lower h) t v)

  add_entries-IsValid :
      (ses : List ServiceEntry) (t : Table)
      → TableIsValid t
      → TableIsValid (add_entries unicode_lower ses t)
  unfolding add_entries
  add_entries-IsValid [] t v = v
  add_entries-IsValid (se ∷ ses) t v =
      add_entries-IsValid ses _ (add_hosts-IsValid (entry_of se) se.hosts t v)

  rebuild-IsValid :
      (listing : Option (List ServiceEntry)) (w : Watcher)
      → IsValid w.hosts w.wildcards
      → IsValid (rebuild unicode_lower listing w).hosts (rebuild unicode_lower listing w).wildcards
  unfolding rebuild build
  rebuild-IsValid none w v = v
  rebuild-IsValid (some ses) w v =
      add_entries-IsValid ses (record { hosts = []; wildcards = [] })
        (record { distinct = tt; plain = tt; dotted = tt })

  -- The steps of a running Watcher: a callback of the informer, and the end of the initial sync.
  pub data Step (w : Watcher) : Watcher → Type 0 where
    event : (e : InformerEvent) → Step w (handle_event unicode_lower e w)
    sync : Step w (mark_synced w)

  pub data Reach : Watcher → Type 0 where
    start : Reach new_watcher
    next : {w w' : Watcher} → Reach w → Step w w' → Reach w'

  event-IsValid :
      (e : InformerEvent) (w : Watcher)
      → IsValid w.hosts w.wildcards
      → IsValid (handle_event unicode_lower e w).hosts (handle_event unicode_lower e w).wildcards
  unfolding handle_event
  event-IsValid (added listing) w v = rebuild-IsValid listing w v
  event-IsValid (updated listing) w v = rebuild-IsValid listing w v
  event-IsValid (deleted listing) w v = rebuild-IsValid listing w v

  Step-IsValid :
      {w w' : Watcher} → Step w w' → IsValid w.hosts w.wildcards → IsValid w'.hosts w'.wildcards
  Step-IsValid {w} (event e) v = event-IsValid e w v
  Step-IsValid sync v = unfold mark_synced in v

  -- In every state that a running Watcher reaches, the exact hosts are distinct, none of them is a
  -- wildcard, and every wildcard suffix begins with a dot.
  pub Reach-IsValid : {w : Watcher} → Reach w → IsValid w.hosts w.wildcards
  Reach-IsValid start = unfold new_watcher in record { distinct = tt; plain = tt; dotted = tt }
  Reach-IsValid (next r st) = Step-IsValid st (Reach-IsValid r)
