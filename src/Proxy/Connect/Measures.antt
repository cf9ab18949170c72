-- ===== src/Proxy/Connect/Measures.antt =====
-- The effects that open and close what a CONNECT holds, none of which is part of its conversation.
use istio_forward_proxy.Base.{ℕ, Option, none, some, ◌≡◌, refl}
use istio_forward_proxy.Audit.{Event}
use istio_forward_proxy.Proxy.Effects.{
  Effect, client, upstream, Direction, active_inc, active_dec, connected, hijacked, close, audit,
  add_bytes, Flow, Outcome, count_request,
}
use istio_forward_proxy.Proxy.Connect.Quiet.{Ignores}

-- The selection holds no effect of a conversation with the upstream, nor any of a reply.
pub record IsAside {ℓ} {A : Type ℓ} (f : Effect → Option A) : Type ℓ where
  pub ignores : Ignores f
  pub of_count : (w : Flow) (o : Outcome) → f (count_request w o) ≡ none
  pub of_audit : (e : Event) → f (audit e) ≡ none
  pub of_bytes : (d : Direction) (n : ℕ) → f (add_bytes d n) ≡ none

abbrev pub inc_of : Effect → Option (Unit {0})
inc_of active_inc = some tt
inc_of _ = none

abbrev pub dec_of : Effect → Option (Unit {0})
dec_of active_dec = some tt
dec_of _ = none

abbrev pub dial_of : Effect → Option (Unit {0})
dial_of connected = some tt
dial_of _ = none

abbrev pub close_upstream_of : Effect → Option (Unit {0})
close_upstream_of (close upstream) = some tt
close_upstream_of _ = none

abbrev pub hijack_of : Effect → Option (Unit {0})
hijack_of hijacked = some tt
hijack_of _ = none

abbrev pub close_client_of : Effect → Option (Unit {0})
close_client_of (close client) = some tt
close_client_of _ = none

pub inc-IsAside : IsAside inc_of
inc-IsAside = record {
  ignores = record {
    of_sent = λ p b. refl;
    of_log = λ s. refl;
    of_close_write = λ p. refl;
    of_close_body = refl;
  };
  of_count = λ w o. refl;
  of_audit = λ e. refl;
  of_bytes = λ d n. refl;
}

pub dec-IsAside : IsAside dec_of
dec-IsAside = record {
  ignores = record {
    of_sent = λ p b. refl;
    of_log = λ s. refl;
    of_close_write = λ p. refl;
    of_close_body = refl;
  };
  of_count = λ w o. refl;
  of_audit = λ e. refl;
  of_bytes = λ d n. refl;
}

pub dial-IsAside : IsAside dial_of
dial-IsAside = record {
  ignores = record {
    of_sent = λ p b. refl;
    of_log = λ s. refl;
    of_close_write = λ p. refl;
    of_close_body = refl;
  };
  of_count = λ w o. refl;
  of_audit = λ e. refl;
  of_bytes = λ d n. refl;
}

pub close_upstream-IsAside : IsAside close_upstream_of
close_upstream-IsAside = record {
  ignores = record {
    of_sent = λ p b. refl;
    of_log = λ s. refl;
    of_close_write = λ p. refl;
    of_close_body = refl;
  };
  of_count = λ w o. refl;
  of_audit = λ e. refl;
  of_bytes = λ d n. refl;
}

pub hijack-IsAside : IsAside hijack_of
hijack-IsAside = record {
  ignores = record {
    of_sent = λ p b. refl;
    of_log = λ s. refl;
    of_close_write = λ p. refl;
    of_close_body = refl;
  };
  of_count = λ w o. refl;
  of_audit = λ e. refl;
  of_bytes = λ d n. refl;
}

pub close_client-IsAside : IsAside close_client_of
close_client-IsAside = record {
  ignores = record {
    of_sent = λ p b. refl;
    of_log = λ s. refl;
    of_close_write = λ p. refl;
    of_close_body = refl;
  };
  of_count = λ w o. refl;
  of_audit = λ e. refl;
  of_bytes = λ d n. refl;
}
