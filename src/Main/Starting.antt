-- ===== src/Main/Starting.antt =====
-- How the parts of the start of main end: the flags, the certificate manager, the Watcher.
use istio_forward_proxy.Base.{
  ℕ, Bool, true, false, List, [], ◌∷◌, ◌++◌, Option, none, some, Bytes, codes, lookup, is_empty,
  ◌≡◌, ◌⊎◌, inl, inr, refl, Bool-cases, Option-cases, if◌then◌else◌,
}
use istio_forward_proxy.Certs.Defs
use istio_forward_proxy.Certs.Defs.{Os, Manager, Log, new_manager, tls_config}
use istio_forward_proxy.Certs.Reload.{new_manager-Holds}
use istio_forward_proxy.ServiceEntry.Defs.{new_watcher, allow_host, allow_name, match_wildcards}
use istio_forward_proxy.ServiceEntry.Running.{Kube, watcher_for, load_kube_config}
use istio_forward_proxy.Main.Settings.{env_or_bool, extra_headers}
use istio_forward_proxy.Main.Flags.{Config, CommandLine, given, flag_config, parse_flags}
use istio_forward_proxy.Main.Startup.{
  Routine, watch_certs, started, exited, Actions, says, start_certs, is_made,
}

-- The goroutines that have been started, the newest first.
unfoldable pub routines : Actions → List Routine
routines [] = []
routines (started routine ∷ tr) = routine ∷ routines tr
routines (a ∷ tr) = routines tr

-- The ends of the process.
unfoldable pub exits : Actions → List ℕ
exits [] = []
exits (exited status ∷ tr) = status ∷ exits tr
exits (a ∷ tr) = exits tr

routines-says : (log : Log) (tr : Actions) → routines (says log ++ tr) ≡ routines tr
unfolding routines
routines-says [] tr = refl
routines-says (s ∷ log) tr = routines-says log tr

exits-says : (log : Log) (tr : Actions) → exits (says log ++ tr) ≡ exits tr
unfolding exits
exits-says [] tr = refl
exits-says (s ∷ log) tr = exits-says log tr

-- With mTLS there is a certificate manager, and it holds a configuration; without, there is none.
abbrev pub Certified : Bool → Option Manager → Type 0
Certified true none = ⊥
Certified true (some m) = (c : Defs.Config) × (tls_config m ≡ some c)
Certified false manager = manager ≡ none

abbrev pub cert_routines : Bool → List Routine
cert_routines mtls = if mtls then watch_certs ∷ [] else []

abbrev pub Certifies : Bool → Option (Option Manager) × Actions → Type 0
Certifies mtls (none, tr) = (routines tr ≡ []) × (exits tr ≡ 1 ∷ [])
Certifies mtls (some manager, tr) =
    Certified mtls manager
    × (is_made manager ≡ mtls)
    × (routines tr ≡ cert_routines mtls)
    × (exits tr ≡ [])

pub start_certs-Certifies :
    (os : Os) (cfg : Config) (tr : Actions)
    → routines tr ≡ []
    → exits tr ≡ []
    → Certifies cfg.mtls_enabled (start_certs os cfg tr)
unfolding start_certs routines exits
start_certs-Certifies os cfg tr q e = elim (Bool-cases cfg.mtls_enabled) [
  | inr plain ↦ simp plain (refl, refl, q, e)
  | inl secured ↦ simp secured (elim (Option-cases (new_manager os cfg.cert_dir []).0) [
    | inl failed ↦ simp failed (simp (routines-says, q) refl, simp (exits-says, e) refl)
    | inr (m, made) ↦
        let (c, held, loaded, same) = new_manager-Holds os cfg.cert_dir [] m made in
        simp made ((c, loaded), refl, simp (routines-says, q) refl, simp (exits-says, e) refl)
  ])
]

-- Whether mTLS is asked for.
abbrev pub asked_mtls : (Bytes → Bytes) → CommandLine → Bool
asked_mtls getenv flags = given flags.mtls (env_or_bool (getenv (codes "MTLS_ENABLED")) true)

pub parse_flags_cases :
    (getenv : Bytes → Bytes) (environ : List Bytes) (flags : CommandLine)
    → (parse_flags getenv environ flags ≡ none)
      ⊎ ((cfg : Config) × (parse_flags getenv environ flags ≡ some cfg)
          × (is_empty cfg.upstream_proxy ≡ false)
          × (cfg.mtls_enabled ≡ asked_mtls getenv flags))
unfolding parse_flags
parse_flags_cases getenv environ flags =
    let cfg = flag_config getenv flags in
    elim (Bool-cases (is_empty cfg.upstream_proxy)) [
      | inl e ↦ inl (rw e refl)
      | inr e ↦ inr (
        record cfg { extra_headers = extra_headers environ cfg.extra_headers },
        rw e refl,
        e,
        unfold flag_config in refl,
      )
    ]

pub watcher_for_cases :
    (kube : Kube) → (watcher_for kube ≡ none) ⊎ (watcher_for kube ≡ some new_watcher)
unfolding watcher_for
watcher_for_cases kube = elim (Option-cases (load_kube_config kube)) [
  | inl failed ↦ inl (rw (failed, watcher_for) refl)
  | inr (cfg, loaded) ↦ elim (Bool-cases (kube.accepts cfg)) [
    | inl fine ↦ inr (rw (loaded, watcher_for) (rw fine refl))
    | inr refused ↦ inl (rw (loaded, watcher_for) (rw refused refl))
  ]
]

pub new_watcher_refuses :
    (unicode_lower : Bytes → Bytes) (host : Bytes) (port : ℕ)
    → (allow_host unicode_lower new_watcher host port).0 ≡ false
unfolding allow_host allow_name new_watcher match_wildcards lookup
new_watcher_refuses unicode_lower host port = refl
