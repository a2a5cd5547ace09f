-- ===== src/Autotune.antt =====
-- The relay autotune engine (crates/pid-ctl/src/autotune.rs). A deque is the list of its elements,
-- the oldest first. The sums start at 0.0; error texts are left out.
pub mod Relay
pub mod Extrema
use pid_ctl.Prelude.{
  ℕ, suc, ◌+◌, ◌*◌, Bool, true, false, Option, none, some, List, [], ◌∷◌, ◌++◌, if◌then◌else◌, ltb,
  leb, ◌||◌, ◌>>=◌, unwrap_or, min, take, length,
}
use mathlib.Core.List.{reverse}
use pid_ctl.Float.{Float, nought, gt, ge}

abbrev pub min_cycles : ℕ
min_cycles = 3

pub data TuningRule : Type 0 where
  pi_rule pid_rule tl_rule : TuningRule

pub data AutotuneError : Type 0 where
  amp_not_positive bias_outside low_below high_above : AutotuneError

pub data RelayPos : Type 0 where
  high low : RelayPos

module _ (F : Type 0) where
  pub record AutotuneConfig : Type 0 where
    pub bias : F
    pub amp : F
    pub out_min : F
    pub out_max : F

  pub data RelayEvent : Type 0 where
    relay_flip : F → F → F → RelayEvent
    period_detected : F → F → RelayEvent
    settled_event : F → F → F → ℕ → RelayEvent

  pub record AutotuneResult : Type 0 where
    pub ku : F
    pub tu : F
    pub kp : F
    pub ki : F
    pub kd : F
    pub rule : TuningRule
    pub samples : ℕ
    pub cycles : ℕ

  pub record AutotuneEngine : Type 0 where
    pub config : AutotuneConfig
    pub relay : RelayPos
    pub pv_ref : Option F
    pub phase_elapsed : F
    pub phase_extremum : F
    pub high_peaks : List F
    pub low_troughs : List F
    pub half_periods : List F
    pub elapsed_secs : F
    pub samples : ℕ
    pub settled : Bool

module _ {F : Type 0} ⦃float : Float F⦄ where
  open float use {lit, plus, minus, times, over, le, lt}

  unfoldable pub gains : TuningRule → F → F → F × F × F
  gains pi_rule ku tu =
      let kp = times (lit 45 100) ku in (kp, over (times kp (lit 12 10)) tu, nought)
  gains pid_rule ku tu =
      let kp = times (lit 6 10) ku in
      (kp, over (times kp (lit 2 1)) tu, over (times kp tu) (lit 8 1))
  gains tl_rule ku tu =
      let kp = over ku (lit 32 10) in
      (kp, over kp (times (lit 22 10) tu), over (times kp tu) (lit 63 10))

  unfoldable pub validate : AutotuneConfig F → Option AutotuneError
  validate c =
      if le c.amp nought
      then some amp_not_positive
      else if lt c.bias c.out_min || gt c.bias c.out_max
      then some bias_outside
      else if lt (minus c.bias c.amp) c.out_min
      then some low_below
      else if gt (plus c.bias c.amp) c.out_max
      then some high_above
      else none

  unfoldable pub sum : List F → F → F
  sum [] acc = acc
  sum (x ∷ xs) acc = sum xs (plus acc x)

  unfoldable pub squares : F → List F → List F
  squares mean [] = []
  squares mean (x ∷ xs) = times (minus x mean) (minus x mean) ∷ squares mean xs

  -- `vec_mean` and `slice_mean`.
  unfoldable pub mean : List F → F
  mean [] = nought
  mean (x ∷ xs) = over (sum (x ∷ xs) nought) (float.of_nat (length (x ∷ xs)))

  unfoldable pub slice_std : List F → F → F
  slice_std v m =
      if leb (length v) 1
      then nought
      else float.sqrt (over (sum (squares m v) nought) (float.of_nat (length v)))

  unfoldable pub new : AutotuneConfig F → AutotuneEngine F
  new config = record {
    config = config;
    relay = high;
    pv_ref = none;
    phase_elapsed = nought;
    phase_extremum = float.neg_infinity;
    high_peaks = [];
    low_troughs = [];
    half_periods = [];
    elapsed_secs = nought;
    samples = 0;
    settled = false;
  }

  unfoldable pub set_pv_ref : AutotuneEngine F → F → AutotuneEngine F
  set_pv_ref e pv = record e { pv_ref = some pv }

  abbrev pub relay_cv : AutotuneConfig F → RelayPos → F
  relay_cv c high = plus c.bias c.amp
  relay_cv c low = minus c.bias c.amp

  abbrev pub current_cv : AutotuneEngine F → F
  current_cv e = relay_cv e.config e.relay

  abbrev pub n_cycles : AutotuneEngine F → ℕ
  n_cycles e = min (length e.high_peaks) (length e.low_troughs)

  unfoldable pub amplitude : AutotuneEngine F → Option F
  amplitude e =
      let a = over (minus (mean e.high_peaks) (mean e.low_troughs)) (lit 2 1) in
      if le a nought then none else some a

  unfoldable pub period_estimate : AutotuneEngine F → Option (F × F)
  period_estimate e =
      if ltb (n_cycles e) 1
      then none
      else amplitude e >>= λ a. some (times (lit 2 1) (mean e.half_periods), a)

  abbrev pub ultimate_gain : AutotuneEngine F → F → F
  ultimate_gain e a =
      over (times (lit 4 1) e.config.amp) (times (lit 3141592653589793 1000000000000000) a)

  -- The last half-periods, the newest first.
  unfoldable pub window : AutotuneEngine F → List F
  window e = take (2 * min_cycles) (reverse e.half_periods)

  unfoldable pub settlement_check : AutotuneEngine F → Option (F × F × F)
  settlement_check e =
      if ltb (n_cycles e) min_cycles
      then none
      else let m = mean (window e) in
        if le m nought
        then none
        else if ge (over (slice_std (window e) m) m) (lit 20 100)
        then none
        else amplitude e >>= λ a. some (ultimate_gain e a, times (lit 2 1) m, a)

  unfoldable pub best_estimates : AutotuneEngine F → Option (F × F)
  best_estimates e = elim (settlement_check e) [
    | some q ↦ some (q.0, q.1)
    | none ↦
        if ltb (n_cycles e) 2
        then none
        else period_estimate e >>= λ q. some (ultimate_gain e q.1, q.0)
  ]

  unfoldable pub result : AutotuneEngine F → TuningRule → Option (AutotuneResult F)
  result e rule = best_estimates e >>= λ q.
      let g = gains rule q.0 q.1 in
      some (record {
        ku = q.0;
        tu = q.1;
        kp = g.0;
        ki = g.1;
        kd = g.2;
        rule = rule;
        samples = e.samples;
        cycles = n_cycles e;
      })

  -- The first half of `complete_phase`: the phase is recorded and the relay flips.
  unfoldable pub record_phase : RelayPos → AutotuneEngine F → AutotuneEngine F
  record_phase high e = record e {
    high_peaks = e.high_peaks ++ e.phase_extremum ∷ [];
    half_periods = e.half_periods ++ e.phase_elapsed ∷ [];
    relay = low;
    phase_extremum = float.infinity;
    phase_elapsed = nought;
  }
  record_phase low e = record e {
    low_troughs = e.low_troughs ++ e.phase_extremum ∷ [];
    half_periods = e.half_periods ++ e.phase_elapsed ∷ [];
    relay = high;
    phase_extremum = float.neg_infinity;
    phase_elapsed = nought;
  }

  -- The second half: what the flip shows, and whether the limit cycle has settled.
  unfoldable pub phase_events : RelayPos → AutotuneEngine F → AutotuneEngine F × List (RelayEvent F)
  phase_events high e = elim (period_estimate e) [
    | some q ↦ (e, period_detected q.0 q.1 ∷ [])
    | none ↦ (e, [])
  ]
  phase_events low e = if e.settled then (e, []) else elim (settlement_check e) [
    | some q ↦ (record e { settled = true }, settled_event q.0 q.1 q.2 (n_cycles e) ∷ [])
    | none ↦ (e, [])
  ]

  unfoldable pub complete_phase :
      RelayPos → F → AutotuneEngine F → AutotuneEngine F × List (RelayEvent F)
  complete_phase pos crossing_pv e =
      let e' = record_phase pos e in
      let q = phase_events pos e' in
      (q.0, relay_flip (current_cv e') crossing_pv e'.elapsed_secs ∷ q.1)

  -- The start of `tick`: the clocks, and the reference, which is the first PV unless it is set.
  unfoldable pub begin_tick : F → F → AutotuneEngine F → AutotuneEngine F
  begin_tick pv dt e = record e {
    elapsed_secs = plus e.elapsed_secs dt;
    samples = suc e.samples;
    phase_elapsed = plus e.phase_elapsed dt;
    pv_ref = elim e.pv_ref [ some r ↦ some r | none ↦ some pv ];
  }

  -- The extremum of the phase, and whether the PV has crossed the reference.
  unfoldable pub track : RelayPos → F → AutotuneEngine F → AutotuneEngine F
  track high pv e = record e {
    phase_extremum = if gt pv e.phase_extremum then pv else e.phase_extremum;
  }
  track low pv e = record e {
    phase_extremum = if lt pv e.phase_extremum then pv else e.phase_extremum;
  }

  unfoldable pub crosses : RelayPos → F → F → Bool
  crosses high pv pv_ref = gt pv pv_ref
  crosses low pv pv_ref = lt pv pv_ref

  unfoldable pub tick : F → F → AutotuneEngine F → F × List (RelayEvent F) × AutotuneEngine F
  tick pv dt e =
      let pos = e.relay in
      let started = track pos pv (begin_tick pv dt e) in
      let q =
        if crosses pos pv (unwrap_or started.pv_ref pv)
        then complete_phase pos pv started
        else (started, []) in
      (current_cv q.0, q.1, q.0)
