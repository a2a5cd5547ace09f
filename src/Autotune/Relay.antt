-- ===== src/Autotune/Relay.antt =====
-- The relay over any number of ticks: its output, the phases it records, and what it records of
-- them.
use pid_ctl.Prelude.{
  ℕ, suc, ◌+◌, ◌≡◌, ◌⊎◌, arith, refl, Option, none, some, List, [], ◌∷◌, ◌++◌, length,
  length-append, if◌then◌else◌, inl, inr, Bool-cases, ap, unwrap_or,
}
use pid_ctl.Float.{Float}
use pid_ctl.Autotune.{
  AutotuneConfig, AutotuneEngine, current_cv, RelayEvent, RelayPos, high, low, relay_flip,
  settled_event, period_detected, new, set_pv_ref, tick, begin_tick, track, crosses, complete_phase,
  record_phase, phase_events, relay_cv,
}

module _ {F : Type 0} ⦃float : Float F⦄ where
  -- A new engine, with the reference set or not.
  unfoldable pub start : AutotuneConfig F → Option F → AutotuneEngine F
  start c none = new c
  start c (some r) = set_pv_ref (new c) r

  -- A tick after another, each with its PV and dt: the engine, the output and the events, the last
  -- tick's first.
  pub data Reached (c : AutotuneConfig F) (reference : Option F)
      : AutotuneEngine F → F → List (RelayEvent F) → Type 0 where
    started :
        (pv dt : F)
        → Reached c reference
            (tick pv dt (start c reference)).2
            (tick pv dt (start c reference)).0
            (tick pv dt (start c reference)).1
    ticked :
        (pv dt : F) {e : AutotuneEngine F} {cv : F} {events : List (RelayEvent F)}
        → Reached c reference e cv events
        → Reached c reference (tick pv dt e).2 (tick pv dt e).0 ((tick pv dt e).1 ++ events)

  -- How many `Settled` events there are.
  abbrev pub settlements : List (RelayEvent F) → ℕ
  settlements [] = 0
  settlements (settled_event a b c d ∷ es) = suc (settlements es)
  settlements (relay_flip a b c ∷ es) = settlements es
  settlements (period_detected a b ∷ es) = settlements es

  settlements-append :
      (xs ys : List (RelayEvent F)) → settlements (xs ++ ys) ≡ settlements xs + settlements ys
  settlements-append [] ys = omega arith
  settlements-append (settled_event a b c d ∷ xs) ys = omega (arith, settlements-append xs ys)
  settlements-append (relay_flip a b c ∷ xs) ys = settlements-append xs ys
  settlements-append (period_detected a b ∷ xs) ys = settlements-append xs ys

  -- The recorded phases alternate, and start with a High one.
  abbrev Alternates : AutotuneEngine F → Type 0
  Alternates e =
      ((e.relay ≡ high) × (length e.high_peaks ≡ length e.low_troughs))
      ⊎ ((e.relay ≡ low) × (length e.high_peaks ≡ suc (length e.low_troughs)))

  abbrev IsCounted : AutotuneConfig F → AutotuneEngine F → ℕ → Type 0
  IsCounted c e settles =
      (e.config ≡ c)
      × Alternates e
      × (length e.half_periods ≡ length e.high_peaks + length e.low_troughs)
      × (settles ≡ (if e.settled then 1 else 0))

  record_phase-IsCounted :
      (c : AutotuneConfig F) (pos : RelayPos) (e : AutotuneEngine F) (n : ℕ)
      → e.relay ≡ pos
      → IsCounted c e n
      → IsCounted c (record_phase pos e) n
  unfolding record_phase
  record_phase-IsCounted c high e n r k = ground (
    arith,
    length-append e.high_peaks (e.phase_extremum ∷ []),
    length-append e.half_periods (e.phase_elapsed ∷ []),
  )
  record_phase-IsCounted c low e n r k = ground (
    arith,
    length-append e.low_troughs (e.phase_extremum ∷ []),
    length-append e.half_periods (e.phase_elapsed ∷ []),
  )

  phase_events-IsCounted :
      (c : AutotuneConfig F) (pos : RelayPos) (e : AutotuneEngine F) (n : ℕ)
      → IsCounted c e n
      → let q = phase_events pos e in IsCounted c q.0 (settlements q.1 + n)
  unfolding phase_events
  phase_events-IsCounted c high e n k = ground arith
  phase_events-IsCounted c low e n k = ground arith

  started-IsCounted :
      (c : AutotuneConfig F) (pos : RelayPos) (pv dt : F) (e : AutotuneEngine F) (n : ℕ)
      → IsCounted c e n
      → IsCounted c (track pos pv (begin_tick pv dt e)) n
        × ((track pos pv (begin_tick pv dt e)).relay ≡ e.relay)
  unfolding track begin_tick
  started-IsCounted c high pv dt e n k = (k, refl)
  started-IsCounted c low pv dt e n k = (k, refl)

  cv_config :
      (e : AutotuneEngine F) (c : AutotuneConfig F)
      → e.config ≡ c
      → current_cv e ≡ relay_cv c e.relay
  cv_config e c same = ap (λ c'. relay_cv c' e.relay) same

  tick-IsCounted :
      (c : AutotuneConfig F) (pv dt : F) (e : AutotuneEngine F) (n : ℕ)
      → IsCounted c e n
      → let r = tick pv dt e in IsCounted c r.2 (settlements r.1 + n) × (r.0 ≡ relay_cv c r.2.relay)
  unfolding tick complete_phase
  tick-IsCounted c pv dt e n k =
      let started = started-IsCounted c e.relay pv dt e n k in
      let s = track e.relay pv (begin_tick pv dt e) in
      let flipped = record_phase-IsCounted c e.relay s n started.1 started.0 in
      let shown = phase_events-IsCounted c e.relay (record_phase e.relay s) n flipped in
      elim (Bool-cases (crosses e.relay pv (unwrap_or s.pv_ref pv))) [
        | inl over ↦
            rw over (shown, cv_config (phase_events e.relay (record_phase e.relay s)).0 c shown.0)
        | inr under ↦
            let (same, turns, halves, count) = started.0 in
            rw under ((same, turns, halves, omega (arith, count)), cv_config s c same)
      ]

  start-IsCounted :
      (c : AutotuneConfig F) (reference : Option F) → IsCounted c (start c reference) 0
  unfolding start new set_pv_ref
  start-IsCounted c none = (refl, inl (refl, refl), omega arith, refl)
  start-IsCounted c (some r) = (refl, inl (refl, refl), omega arith, refl)

  reached-IsCounted :
      (c : AutotuneConfig F) (reference : Option F) {e : AutotuneEngine F} {cv : F}
      {events : List (RelayEvent F)}
      → Reached c reference e cv events
      → IsCounted c e (settlements events) × (cv ≡ relay_cv c e.relay)
  reached-IsCounted c reference (started pv dt) =
      let ((same, turns, halves, count), out) =
        tick-IsCounted c pv dt (start c reference) 0 (start-IsCounted c reference) in
      ((same, turns, halves, omega (arith, count)), out)
  reached-IsCounted c reference (ticked pv dt {e} {cv} {events} r) =
      let before = reached-IsCounted c reference r in
      let ((same, turns, halves, count), out) =
        tick-IsCounted c pv dt e (settlements events) before.0 in
      ((same, turns, halves, omega (arith, count, settlements-append (tick pv dt e).1 events)), out)

  -- After any ticks, from a new engine on (with the reference set before the first one or not): the
  -- output is the bias plus the amplitude in a High phase and the bias minus it in a Low one, the
  -- peaks and the troughs recorded are as many, or one more peak in a Low phase, there is one
  -- half-period for each of them, and one `Settled` event once the engine has settled, none before.
  pub reached_relay :
      (c : AutotuneConfig F) (reference : Option F) {e : AutotuneEngine F} {cv : F}
      {events : List (RelayEvent F)}
      → Reached c reference e cv events
      → (cv ≡ relay_cv c e.relay)
        × Alternates e
        × (length e.half_periods ≡ length e.high_peaks + length e.low_troughs)
        × (settlements events ≡ (if e.settled then 1 else 0))
  reached_relay c reference r =
      let ((same, turns, halves, count), out) = reached-IsCounted c reference r in
      (out, turns, halves, count)
