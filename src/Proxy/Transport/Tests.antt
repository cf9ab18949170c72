-- ===== src/Proxy/Transport/Tests.antt =====
-- The transport of a handler at concrete inputs.
use istio_forward_proxy.Base.{[], All, refl}
use istio_forward_proxy.Proxy.Samples.{env, proxy}
use istio_forward_proxy.Proxy.Transport.{unused}
use istio_forward_proxy.Proxy.Transport.Secure.{IsSecure, uses, upstream_transport-IsSecure}

upstream_transport-IsSecure_example : All (IsSecure proxy env []) (uses proxy 3 unused)
upstream_transport-IsSecure_example = upstream_transport-IsSecure proxy env [] 3 refl
