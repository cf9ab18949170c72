-- ===== src/Certs/Reload.antt =====
-- What one reload does to the configuration in use.
use istio_forward_proxy.Base.{
  none, some, Bytes, codes, ◌≡◌, ◌⊎◌, inl, inr, refl, sym, ap, Option-cases,
}
use istio_forward_proxy.Certs.Defs.{
  Os, Config, Manager, LoadError, Log, Reloaded, reload, new_manager, tls_config, version_tls12,
  load_keypair, parse_leaf, read_ca, no_ca,
}

-- The files of a directory hold a configuration: a key pair whose first certificate parses, and a
-- CA file with certificates.
pub record Holds (os : Os) (dir : Bytes) (c : Config) : Type 0 where
  pub key_pair :
      os.load_key_pair (os.join dir (codes "tls.crt")) (os.join dir (codes "tls.key"))
      ≡ some c.certificate
  pub parsed : os.parse_certificate c.certificate.first ≡ some c.leaf
  pub pem : Bytes
  pub ca_file : os.read_file (os.join dir (codes "ca.crt")) ≡ some pem
  pub ca_pool : os.pool_of_pem pem ≡ some c.root_cas
  pub version : c.min_version ≡ version_tls12

-- Either the files hold a configuration, there is no error and that configuration is in use; or
-- there is an error and the manager is as it was.
abbrev pub Outcome : Os → Manager → Reloaded → Type 0
Outcome os m r =
    ((c : Config) × Holds os m.dir c
      × (r.error ≡ none)
      × (r.manager ≡ record m { current = some c }))
    ⊎ ((e : LoadError) × (r.error ≡ some e) × (r.manager ≡ m))

-- A reload puts the configuration that the files hold into use, or fails and leaves the one in use
-- as it was.
pub reload-Outcome : (os : Os) (m : Manager) (log : Log) → Outcome os m (reload os m log)
unfolding reload
reload-Outcome os m log =
    elim (Option-cases
      (os.load_key_pair (os.join m.dir (codes "tls.crt")) (os.join m.dir (codes "tls.key")))) [
        | inl a ↦ inr (load_keypair, rw (a, reload) refl, rw (a, reload) refl)
        | inr (cert, a) ↦ elim (Option-cases (os.parse_certificate cert.first)) [
          | inl b ↦ inr (parse_leaf, rw (a, reload, b) refl, rw (a, reload, b) refl)
          | inr (leaf, b) ↦ elim (Option-cases (os.read_file (os.join m.dir (codes "ca.crt")))) [
            | inl c ↦ inr (read_ca, rw (a, reload, b, c) refl, rw (a, reload, b, c) refl)
            | inr (pem, c) ↦ elim (Option-cases (os.pool_of_pem pem)) [
              | inl d ↦ inr (no_ca, rw (a, reload, b, c, d) refl, rw (a, reload, b, c, d) refl)
              | inr (pool, d) ↦ inl (
                record {
                  certificate = cert;
                  leaf = leaf;
                  root_cas = pool;
                  min_version = version_tls12;
                },
                record {
                  key_pair = a;
                  parsed = b;
                  pem = pem;
                  ca_file = c;
                  ca_pool = d;
                  version = refl;
                },
                rw (a, reload, b, c, d) refl,
                rw (a, reload, b, c, d) refl,
              )
            ]
          ]
        ]
      ]

-- Where the files hold a configuration, a reload has no error and puts it into use.
pub reload-Holds :
    (os : Os) (m : Manager) (log : Log) (c : Config)
    → Holds os m.dir c
    → ((reload os m log).error ≡ none) × ((reload os m log).manager ≡ record m { current = some c })
unfolding reload
reload-Holds os m log c h =
    let whole : record {
      certificate = c.certificate;
      leaf = c.leaf;
      root_cas = c.root_cas;
      min_version = version_tls12;
    }
        ≡ c =
      ap (λ v. record c { min_version = v }) (sym h.version) in
    (
      rw (h.key_pair, reload, h.parsed, h.ca_file, h.ca_pool) refl,
      rw (h.key_pair, reload, h.parsed, h.ca_file, h.ca_pool)
          (ap (λ (d : Config). record m { current = some d }) whole),
    )

-- NewManager gives no manager without a configuration: one that it gives holds what the files of
-- its directory hold.
pub new_manager-Holds :
    (os : Os) (dir : Bytes) (log : Log) (m : Manager)
    → (new_manager os dir log).0 ≡ some m
    → (c : Config) × Holds os dir c × (tls_config m ≡ some c) × (m.dir ≡ dir)
unfolding new_manager tls_config
new_manager-Holds os dir log m made =
    let fresh : Manager = record { dir = dir; current = none } in
    elim (reload-Outcome os fresh log) [
      | inl (c, held, fine, loaded) ↦
          let same : record fresh { current = some c } ≡ m = cc (made, fine, loaded) in
          (
            c,
            held,
            sym (ap (λ (n : Manager). n.current) same),
            sym (ap (λ (n : Manager). n.dir) same),
          )
      | inr (e, wrong, kept) ↦ cc (made, wrong)
    ]
