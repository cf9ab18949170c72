-- ===== src/Proxy/Views.antt =====
-- What one sees of a trace: the requests sent, the audit events, the metrics, the replies.
use istio_forward_proxy.Base.{ℕ, List, [], ◌∷◌, ◌++◌, Option, none, some, Bytes}
use istio_forward_proxy.Http.Message.{Request}
use istio_forward_proxy.Audit.{Event}
use istio_forward_proxy.Proxy.Effects.{
  Effect, Trace, Flow, Outcome, client, upstream, count_request, audit, write_header, round_trip,
  connected, handshake, sent,
}

abbrev pub prepend {ℓ} : {A : Type ℓ} → Option A → List A → List A
prepend none xs = xs
prepend (some a) xs = a ∷ xs

-- The effects that a function selects, the newest first.
unfoldable pub select {ℓ} : {A : Type ℓ} → (Effect → Option A) → Trace → List A
select f [] = []
select f (e ∷ tr) = prepend (f e) (select f tr)

abbrev pub audit_of : Effect → Option Event
audit_of (audit e) = some e
audit_of _ = none

abbrev pub count_of : Effect → Option (Flow × Outcome)
count_of (count_request f o) = some (f, o)
count_of _ = none

abbrev pub status_of : Effect → Option ℕ
status_of (write_header code) = some code
status_of _ = none

abbrev pub request_of : Effect → Option Request
request_of (round_trip r) = some r
request_of _ = none

-- The effects that reach the upstream.
abbrev pub contact_of : Effect → Option Effect
contact_of (round_trip r) = some (round_trip r)
contact_of connected = some connected
contact_of (handshake name skip) = some (handshake name skip)
contact_of (sent upstream b) = some (sent upstream b)
contact_of _ = none

unfoldable pub contacts : Trace → List Effect
unfolding select
contacts tr = select contact_of tr

unfoldable pub audits : Trace → List Event
unfolding select
audits tr = select audit_of tr

unfoldable pub counts : Trace → List (Flow × Outcome)
unfolding select
counts tr = select count_of tr

unfoldable pub statuses : Trace → List ℕ
unfolding select
statuses tr = select status_of tr

unfoldable pub requests : Trace → List Request
unfolding select
requests tr = select request_of tr

unfoldable pub sent_to_upstream : Trace → Bytes
sent_to_upstream [] = []
sent_to_upstream (sent upstream b ∷ tr) = sent_to_upstream tr ++ b
sent_to_upstream (e ∷ tr) = sent_to_upstream tr

unfoldable pub sent_to_client : Trace → Bytes
sent_to_client [] = []
sent_to_client (sent client b ∷ tr) = sent_to_client tr ++ b
sent_to_client (e ∷ tr) = sent_to_client tr
