-- ===== src/Http/Tests.antt =====
-- Header names at concrete inputs.
use istio_forward_proxy.Base.{◌≡◌, refl, codes, contains}
use istio_forward_proxy.Http.Header.{canonical_key, capitalize, valid_field, valid_field_byte}

names_tests :
    (canonical_key (codes "x-forwarded-CLIENT-cert") ≡ codes "X-Forwarded-Client-Cert")
    × (canonical_key (codes "bad name") ≡ codes "bad name")
unfolding canonical_key capitalize valid_field valid_field_byte contains
names_tests = (refl, refl)
