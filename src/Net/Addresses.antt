-- ===== src/Net/Addresses.antt =====
-- Addresses at concrete inputs.
use istio_forward_proxy.Base.{
  ◌≡◌, refl, some, none, codes, arith, ◌++◌, ◌∷◌, [], last_index_byte, equal, contains, index_byte,
}
use istio_forward_proxy.Net.{net_split_host_port, parse_uint, decimal, split_host_port}
use istio_forward_proxy.Net.RoundTrip.{split_host_port-decimal}

split_tests :
    (net_split_host_port (codes "a.b:80") ≡ some (codes "a.b", codes "80"))
    × (net_split_host_port (codes "[::1]:443") ≡ some (codes "::1", codes "443"))
    × (net_split_host_port (codes "::1") ≡ none)
    × (net_split_host_port (codes "[::1]") ≡ none)
    × (net_split_host_port (codes "[a]b:1") ≡ none)
    × (net_split_host_port (codes "a:") ≡ some (codes "a", []))
    × (net_split_host_port (codes "a") ≡ none)
unfolding net_split_host_port last_index_byte equal contains index_byte
split_tests = (refl, refl, refl, refl, refl, refl, refl)

port_tests :
    (parse_uint (codes "4294967295") ≡ some 4294967295)
    × (parse_uint (codes "4294967296") ≡ none)
    × (parse_uint (codes "8x") ≡ none)
    × (decimal 407 ≡ codes "407")
unfolding parse_uint decimal
port_tests = (refl, refl, refl, refl)

split_host_port-decimal_example :
    split_host_port (codes "api.io" ++ b':' ∷ decimal 8443) 443 ≡ (codes "api.io", 8443)
unfolding contains
split_host_port-decimal_example =
    split_host_port-decimal (codes "api.io") 8443 443 refl refl refl (omega arith)
