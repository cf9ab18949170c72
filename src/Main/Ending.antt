-- ===== src/Main/Ending.antt =====
-- How the process ends once its servers run.
use istio_forward_proxy.Base.{
  Bool, true, false, ◌&&◌, List, [], ◌∷◌, Option, none, some, ◌≡◌, refl, ap, if◌then◌else◌,
  Bool-cases, inl, inr,
}
use istio_forward_proxy.Main.Startup.{
  Server, metrics_server, proxy_server, shut_down, Actions, Running, Incident, metrics_failed,
  proxy_failed, signalled, await_end, finish, serve_until,
}
use istio_forward_proxy.Main.Starting.{exits}

-- The calls of Shutdown, the newest first.
unfoldable pub shutdowns : Actions → List Server
shutdowns [] = []
shutdowns (shut_down server ∷ tr) = server ∷ shutdowns tr
shutdowns (a ∷ tr) = shutdowns tr

-- Whether main is told to end: by a signal, or by a proxy server that fails.
unfoldable pub is_told : List Incident → Bool
is_told [] = false
is_told (metrics_failed ∷ is) = is_told is
is_told (i ∷ is) = true

abbrev pub is_running : Option Running → Bool
is_running none = false
is_running (some run) = true

-- The wait itself neither exits nor shuts a server down.
abbrev Waits : List Incident → Actions → Type 0
Waits is tr =
    ((await_end is tr).0 ≡ is_told is)
    × (exits (await_end is tr).1 ≡ exits tr)
    × (shutdowns (await_end is tr).1 ≡ shutdowns tr)

await_end-Waits : (is : List Incident) (tr : Actions) → Waits is tr
unfolding await_end is_told exits shutdowns
await_end-Waits [] tr = (refl, refl, refl)
await_end-Waits (metrics_failed ∷ is) tr = await_end-Waits is (_ ∷ tr)
await_end-Waits (proxy_failed ∷ is) tr = (refl, refl, refl)
await_end-Waits (signalled ∷ is) tr = (refl, refl, refl)

-- A process that has started its servers ends exactly when a signal comes or the proxy server fails,
-- however often the metrics server fails: it shuts the proxy server down, then the metrics server,
-- and exits with status 0, for a failure as for a signal. A process that has not started them exits
-- no second time and shuts nothing down.
pub serve_until-exits :
    (is : List Incident) (launched : Option Running × Actions)
    → (exits (serve_until is launched)
        ≡ (if is_running launched.0 && is_told is then 0 ∷ exits launched.1 else exits launched.1))
      × (shutdowns (serve_until is launched) ≡ (
          if is_running launched.0 && is_told is
          then metrics_server ∷ proxy_server ∷ shutdowns launched.1
          else shutdowns launched.1))
unfolding serve_until finish exits shutdowns
serve_until-exits is (none, tr) = (refl, refl)
serve_until-exits is (some run, tr) =
    let (told, no_exit, no_shutdown) = await_end-Waits is tr in
    elim (Bool-cases (is_told is)) [
      | inl e ↦
          rw (told, e)
            (ap (λ l. 0 ∷ l) no_exit, ap (λ l. metrics_server ∷ proxy_server ∷ l) no_shutdown)
      | inr e ↦ rw (told, e) (no_exit, no_shutdown)
    ]
