-- ===== src/ServiceEntry/Order.antt =====
-- When the order in which the lister returns the ServiceEntries, which it leaves open, does not
-- matter.
use istio_forward_proxy.Base.{
  ℕ, Bool, true, false, List, Bytes, some, ◌≡◌, ◌↔◌, ◌⊎◌, refl, sym, inl, inr, Occurs,
}
use istio_forward_proxy.ServiceEntry.Defs.{Watcher, ServiceEntry, rebuild, allow_host}
use istio_forward_proxy.ServiceEntry.Spec.{IsListed}
use istio_forward_proxy.ServiceEntry.Safety.{allow_host_sound}
use istio_forward_proxy.ServiceEntry.Coverage.{AllAdmit, allow_host_iff}

-- The two listings have the same members, in any order and any number.
abbrev pub SameMembers : List ServiceEntry → List ServiceEntry → Type 0
SameMembers ses ses' = (se : ServiceEntry) → Occurs se ses ↔ Occurs se ses'

abbrev pub swapped : {ses ses' : List ServiceEntry} → SameMembers ses ses' → SameMembers ses' ses
swapped same se = ((same se).1, (same se).0)

same_bool : (b c : Bool) → (b ≡ true → c ≡ true) → (c ≡ true → b ≡ true) → b ≡ c
same_bool true c f g = sym (f refl)
same_bool false true f g = g refl
same_bool false false f g = refl

module _ (unicode_lower : Bytes → Bytes) where
  -- The ServiceEntries with a pattern that covers the host all admit the port, or none does.
  abbrev pub Agree : List ServiceEntry → Bytes → ℕ → Type 0
  Agree ses host port =
      AllAdmit unicode_lower ses host port ⊎ ¬ IsListed unicode_lower ses host port

  abbrev allows : List ServiceEntry → Watcher → Bytes → ℕ → Bool
  allows ses w host port =
      (allow_host unicode_lower (rebuild unicode_lower (some ses) w) host port).0

  module _ (ses ses' : List ServiceEntry) (same : SameMembers ses ses') (host : Bytes)
      (port : ℕ) where
    IsListed-members : IsListed unicode_lower ses host port → IsListed unicode_lower ses' host port
    IsListed-members l = record {
      owner = l.owner;
      pattern = l.pattern;
      listed = (same l.owner).0 l.listed;
      named = l.named;
      covers = l.covers;
      admits = l.admits;
    }

    AllAdmit-members : AllAdmit unicode_lower ses host port → AllAdmit unicode_lower ses' host port
    AllAdmit-members agree se h o = agree se h ((same se).1 o)

  Agree-members :
      (ses ses' : List ServiceEntry)
      → SameMembers ses ses'
      → (host : Bytes) (port : ℕ) → Agree ses host port
      → Agree ses' host port
  Agree-members ses ses' same host port (inl all) =
      inl (AllAdmit-members ses ses' same host port all)
  Agree-members ses ses' same host port (inr none_does) =
      inr (λ l. none_does (IsListed-members ses' ses (swapped same) host port l))

  listed_passes :
      (ses : List ServiceEntry) (w : Watcher) (host : Bytes) (port : ℕ)
      → Agree ses host port
      → IsListed unicode_lower ses host port
      → allows ses w host port ≡ true
  listed_passes ses w host port (inl all) l = (allow_host_iff unicode_lower ses w host port all).1 l
  listed_passes ses w host port (inr none_does) l = absurd (none_does l)

  passes_along :
      (ses ses' : List ServiceEntry) (w w' : Watcher)
      → SameMembers ses ses'
      → (host : Bytes) (port : ℕ) → Agree ses' host port
      → allows ses w host port ≡ true
      → allows ses' w' host port ≡ true
  passes_along ses ses' w w' same host port agree passes = listed_passes ses' w' host port agree (
      IsListed-members ses ses' same host port
        (allow_host_sound unicode_lower ses w host port passes))

  -- Where the ServiceEntries that cover a host all admit the port, or none of them does, AllowHost
  -- lets the same requests for it through after a rebuild from any listing with the same members,
  -- whatever the order of the listing and the states before.
  pub allow_host-members :
      (ses ses' : List ServiceEntry) (w w' : Watcher) (host : Bytes) (port : ℕ)
      → SameMembers ses ses'
      → Agree ses host port
      → (allow_host unicode_lower (rebuild unicode_lower (some ses) w) host port).0
        ≡ (allow_host unicode_lower (rebuild unicode_lower (some ses') w') host port).0
  allow_host-members ses ses' w w' host port same agree =
      same_bool _ _
        (passes_along ses ses' w w' same host port (Agree-members ses ses' same host port agree))
        (passes_along ses' ses w' w (swapped same) host port agree)
