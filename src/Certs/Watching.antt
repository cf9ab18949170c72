-- ===== src/Certs/Watching.antt =====
-- Rotations: what Watch does to the configuration in use over everything that it receives.
use istio_forward_proxy.Base.{
  Bool, true, false, List, [], ◌∷◌, ◌++◌, none, some, ◌≡◌, ◌≢◌, ◌⊎◌, inl, inr, refl, sym, ap, ◌∙◌,
  Bool-cases, Occurs, here, there, All,
}
use mathlib.Core.Path.{subst}
use istio_forward_proxy.Certs.Defs.{
  Os, Config, Manager, Log, reload, tls_config, Op, Signal, context_done, events_closed,
  errors_closed, watch_error, event, is_relevant, on_event, watch_loop, watch,
}
use istio_forward_proxy.Certs.Reload.{Holds, reload-Outcome, reload-Holds}

-- A configuration in use was in use before, or the files held it at a relevant event among those
-- received.
abbrev pub Origin : List Signal → Manager → Config → Type 0
Origin signals m c =
    (tls_config m ≡ some c)
    ⊎ ((op : Op) × (os : Os) × Occurs (event op os) signals
        × (is_relevant op ≡ true)
        × Holds os m.dir c)

-- What a step must keep: the directory, and that there is a configuration.
pub record Keeps (m m' : Manager) : Type 0 where
  pub dir : m'.dir ≡ m.dir
  pub ready : tls_config m ≢ none → tls_config m' ≢ none

module _ (op : Op) (os : Os) (m : Manager) (log : Log) where
  on_event_ignored : is_relevant op ≡ false → (on_event op os m log).0 ≡ m
  unfolding on_event
  on_event_ignored other = rw other refl

  on_event_reloads :
      is_relevant op ≡ true
      → (on_event op os m log).0 ≡ (reload os m ("cert file event" ∷ log)).manager
  unfolding on_event
  on_event_reloads relevant = rw relevant refl

  -- One event loads the configuration that the files hold, or leaves the one in use.
  on_event_cases :
      ((c : Config) × (is_relevant op ≡ true)
        × Holds os m.dir c
        × ((on_event op os m log).0 ≡ record m { current = some c }))
      ⊎ ((on_event op os m log).0 ≡ m)
  on_event_cases = elim (Bool-cases (is_relevant op)) [
    | inr other ↦ inr (on_event_ignored other)
    | inl relevant ↦ elim (reload-Outcome os m ("cert file event" ∷ log)) [
      | inl (c, held, fine, loaded) ↦ inl (c, relevant, held, on_event_reloads relevant ∙ loaded)
      | inr (e, wrong, kept) ↦ inr (on_event_reloads relevant ∙ kept)
    ]
  ]

  pub on_event-Keeps : Keeps m (on_event op os m log).0
  unfolding tls_config
  on_event-Keeps = elim on_event_cases [
    | inl (c, relevant, held, loaded) ↦ rw loaded (record { dir = refl; ready = λ was now. cc now })
    | inr kept ↦ rw kept (record { dir = refl; ready = λ was. was })
  ]

later :
    (s : Signal) (signals : List Signal) (m : Manager) (c : Config)
    → Origin signals m c
    → Origin (s ∷ signals) m c
later s signals m c (inl kept) = inl kept
later s signals m c (inr (op, os, o, relevant, held)) = inr (op, os, there o, relevant, held)

event-Origin :
    (op : Op) (os : Os) (signals : List Signal) (m : Manager) (log : Log) (c : Config)
    → Origin signals (on_event op os m log).0 c
    → Origin (event op os ∷ signals) m c
unfolding tls_config
event-Origin op os signals m log c origin = elim (on_event_cases op os m log) [
  | inr kept ↦ later (event op os) signals m c (subst (λ n. Origin signals n c) kept origin)
  | inl (d, relevant, held, loaded) ↦ elim (subst (λ n. Origin signals n c) loaded origin) [
    | inl now ↦
        let same : d ≡ c = cc now in
        inr (op, os, here, relevant, subst (λ u. Holds os m.dir u) same held)
    | inr (op', os', o, relevant', held') ↦ inr (op', os', there o, relevant', held')
  ]
]

watch_loop-Origin :
    (signals : List Signal) (m : Manager) (log : Log) (c : Config)
    → tls_config (watch_loop signals m log).0 ≡ some c
    → Origin signals m c
unfolding watch_loop
watch_loop-Origin [] m log c e = inl e
watch_loop-Origin (context_done ∷ signals) m log c e = inl e
watch_loop-Origin (events_closed ∷ signals) m log c e = inl e
watch_loop-Origin (errors_closed ∷ signals) m log c e = inl e
watch_loop-Origin (watch_error ∷ signals) m log c e =
    later watch_error signals m c (watch_loop-Origin signals m ("fsnotify error" ∷ log) c e)
watch_loop-Origin (event op os ∷ signals) m log c e =
    event-Origin op os signals m log c
      (watch_loop-Origin signals (on_event op os m log).0 (on_event op os m log).1 c e)

watch_loop-Keeps :
    (signals : List Signal) (m : Manager) (log : Log) → Keeps m (watch_loop signals m log).0
unfolding watch_loop
watch_loop-Keeps [] m log = record { dir = refl; ready = λ was. was }
watch_loop-Keeps (context_done ∷ signals) m log = record { dir = refl; ready = λ was. was }
watch_loop-Keeps (events_closed ∷ signals) m log = record { dir = refl; ready = λ was. was }
watch_loop-Keeps (errors_closed ∷ signals) m log = record { dir = refl; ready = λ was. was }
watch_loop-Keeps (watch_error ∷ signals) m log = watch_loop-Keeps signals m ("fsnotify error" ∷ log)
watch_loop-Keeps (event op os ∷ signals) m log =
    let first = on_event-Keeps op os m log in
    let rest = watch_loop-Keeps signals (on_event op os m log).0 (on_event op os m log).1 in
    record { dir = rest.dir ∙ first.dir; ready = λ was. rest.ready (first.ready was) }

-- Whatever Watch receives, a manager with a configuration keeps one, in the same directory, and
-- the one in use was in use before or was held by the files at a relevant event.
pub watch-Keeps :
    (created added : Bool) (signals : List Signal) (m : Manager) (log : Log)
    → Keeps m (watch created added signals m log).0
      × ((c : Config)
          → tls_config (watch created added signals m log).0 ≡ some c
          → Origin signals m c)
unfolding watch
watch-Keeps false added signals m log = (record { dir = refl; ready = λ was. was }, λ c e. inl e)
watch-Keeps true false signals m log = (record { dir = refl; ready = λ was. was }, λ c e. inl e)
watch-Keeps true true signals m log = (
  watch_loop-Keeps signals m ("watching certificate directory" ∷ log),
  watch_loop-Origin signals m ("watching certificate directory" ∷ log),
)

-- A signal that does not end the loop.
pub data Continues : Signal → Type 0 where
  goes_on : Continues watch_error
  handled : {op : Op} {os : Os} → Continues (event op os)

watch_loop_last :
    (before : List Signal) (op : Op) (os : Os) (m : Manager) (log : Log) (c : Config)
    → All Continues before
    → is_relevant op ≡ true
    → Holds os m.dir c
    → tls_config (watch_loop (before ++ event op os ∷ []) m log).0 ≡ some c
unfolding watch_loop tls_config
watch_loop_last [] op os m log c go relevant held =
    ap (λ (n : Manager). n.current)
      (on_event_reloads op os m log relevant
        ∙ (reload-Holds os m ("cert file event" ∷ log) c held).1)
watch_loop_last (watch_error ∷ before) op os m log c go relevant held =
    watch_loop_last before op os m ("fsnotify error" ∷ log) c go.1 relevant held
watch_loop_last (event op' os' ∷ before) op os m log c go relevant held =
    watch_loop_last before op os (on_event op' os' m log).0 (on_event op' os' m log).1 c go.1
      relevant (subst (λ d. Holds os d c) (sym (on_event-Keeps op' os' m log).dir) held)
watch_loop_last (context_done ∷ before) op os m log c go relevant held = elim go.0 [ ]
watch_loop_last (events_closed ∷ before) op os m log c go relevant held = elim go.0 [ ]
watch_loop_last (errors_closed ∷ before) op os m log c go relevant held = elim go.0 [ ]

-- A rotation takes effect: behind any signals that do not end the loop, a relevant event at which
-- the files hold a configuration puts it into use.
pub watch_rotates :
    (before : List Signal) (op : Op) (os : Os) (m : Manager) (log : Log) (c : Config)
    → All Continues before
    → is_relevant op ≡ true
    → Holds os m.dir c
    → tls_config (watch true true (before ++ event op os ∷ []) m log).0 ≡ some c
unfolding watch
watch_rotates before op os m log =
    watch_loop_last before op os m ("watching certificate directory" ∷ log)
