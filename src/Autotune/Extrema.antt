-- ===== src/Autotune/Extrema.antt =====
-- What a phase of the relay records as its extremum, and the output within the limits.
use pid_ctl.Prelude.{
  ◌≡◌, sym, subst, ◌⊎◌, arith, refl, true, false, Option, none, some, List, [], ◌∷◌, ◌++◌, inl, inr,
  Bool-cases, Option-cases, unwrap_or,
}
use pid_ctl.Float.{Float, IsIeee, ◌≼◌, ◌≺◌, IsNumber}
use pid_ctl.Autotune.{
  AutotuneConfig, AutotuneEngine, RelayEvent, RelayPos, high, low, new, set_pv_ref, tick,
  begin_tick, track, crosses, complete_phase, record_phase, phase_events, relay_cv, validate,
}
use pid_ctl.Autotune.Relay.{Reached, started, ticked, start, reached_relay}

module _ {F : Type 0} ⦃float : Float F⦄ (laws : IsIeee F) where
  open float use {lt, le, plus, minus}
  open laws use {le_trans, lt-eq-not-le, number_of_le, le_of_lt}

  lt_of_le_of_lt : (x y z : F) → x ≼ y → y ≺ z → x ≺ z
  lt_of_le_of_lt x y z a b =
      let n = number_of_le x y a in
      let m = number_of_le y z (le_of_lt y z b) in
      ground (arith, lt-eq-not-le x z n.0 m.1, lt-eq-not-le y z n.1 m.1, le_trans z x y)

  lt_of_lt_of_le : (x y z : F) → x ≺ y → y ≼ z → x ≺ z
  lt_of_lt_of_le x y z a b =
      let n = number_of_le x y (le_of_lt x y a) in
      let m = number_of_le y z b in
      ground (arith, lt-eq-not-le x z n.0 m.1, lt-eq-not-le x y n.0 m.0, le_trans y z x)

  relay_within :
      (c : AutotuneConfig F)
      → validate c ≡ none
      → IsNumber c.out_min
      → IsNumber c.out_max
      → IsNumber (minus c.bias c.amp)
      → IsNumber (plus c.bias c.amp)
      → IsNumber c.amp
      → (pos : RelayPos) → (c.out_min ≼ relay_cv c pos) × (relay_cv c pos ≼ c.out_max)
  unfolding validate
  relay_within c v lo hi l h a high =
      let bias = (laws.number_of_minus c.bias c.amp l).0 in
      ground (
        arith,
        lt-eq-not-le _ c.amp (laws.number_lit 0 1) a,
        le_of_lt (float.lit 0 1) c.amp,
        laws.le-plus c.bias c.amp,
        laws.minus-le c.bias c.amp,
        lt-eq-not-le c.bias c.out_min bias lo,
        lt-eq-not-le c.out_max c.bias hi bias,
        lt-eq-not-le (minus c.bias c.amp) c.out_min l lo,
        lt-eq-not-le c.out_max (plus c.bias c.amp) hi h,
        le_trans c.out_min c.bias (plus c.bias c.amp),
        le_trans (minus c.bias c.amp) c.bias c.out_max,
      )
  relay_within c v lo hi l h a low =
      let bias = (laws.number_of_minus c.bias c.amp l).0 in
      ground (
        arith,
        lt-eq-not-le _ c.amp (laws.number_lit 0 1) a,
        le_of_lt (float.lit 0 1) c.amp,
        laws.le-plus c.bias c.amp,
        laws.minus-le c.bias c.amp,
        lt-eq-not-le c.bias c.out_min bias lo,
        lt-eq-not-le c.out_max c.bias hi bias,
        lt-eq-not-le (minus c.bias c.amp) c.out_min l lo,
        lt-eq-not-le c.out_max (plus c.bias c.amp) hi h,
        le_trans c.out_min c.bias (plus c.bias c.amp),
        le_trans (minus c.bias c.amp) c.bias c.out_max,
      )

  -- The output of an autotune run with a validated configuration is within the limits at every
  -- tick, if these and the two outputs of the relay are numbers.
  pub reached_within_limits :
      (c : AutotuneConfig F) (reference : Option F) {e : AutotuneEngine F} {cv : F}
      {events : List (RelayEvent F)}
      → validate c ≡ none
      → IsNumber c.out_min
      → IsNumber c.out_max
      → IsNumber (minus c.bias c.amp)
      → IsNumber (plus c.bias c.amp)
      → IsNumber c.amp
      → Reached c reference e cv events
      → (c.out_min ≼ cv) × (cv ≼ c.out_max)
  reached_within_limits c reference {e} v lo hi l h a r =
      let out = (reached_relay c reference r).0 in rw out (relay_within c v lo hi l h a e.relay)

  -- The extremum of the phase so far lies on the near side of the reference, or there is none yet;
  -- a NaN for a reference is never crossed.
  IsNear : AutotuneEngine F → RelayPos → Type 0
  IsNear e high =
      (e.phase_extremum ≡ float.neg_infinity)
      ⊎ ((r : F) × (e.pv_ref ≡ some r) × ((le r r ≡ false) ⊎ (e.phase_extremum ≼ r)))
  IsNear e low =
      (e.phase_extremum ≡ float.infinity)
      ⊎ ((r : F) × (e.pv_ref ≡ some r) × ((le r r ≡ false) ⊎ (r ≼ e.phase_extremum)))

  began-IsNear :
      (pos : RelayPos) (pv dt : F) (e : AutotuneEngine F)
      → IsNear e pos
      → IsNear (begin_tick pv dt e) pos × (r : F) × ((begin_tick pv dt e).pv_ref ≡ some r)
  unfolding IsNear begin_tick
  began-IsNear high pv dt e k = elim (Option-cases e.pv_ref) [
    | inl unset ↦ (ground arith, pv, ground arith)
    | inr (r, set) ↦ (ground arith, r, ground arith)
  ]
  began-IsNear low pv dt e k = elim (Option-cases e.pv_ref) [
    | inl unset ↦ (ground arith, pv, ground arith)
    | inr (r, set) ↦ (ground arith, r, ground arith)
  ]

  track-crossing :
      (pos : RelayPos) (pv r : F) (e : AutotuneEngine F)
      → e.pv_ref ≡ some r
      → IsNear e pos
      → crosses pos pv r ≡ true
      → (track pos pv e).phase_extremum ≡ pv
  unfolding IsNear track crosses
  track-crossing high pv r e set k c =
      let numbers = number_of_le r pv (le_of_lt r pv c) in
      let least = laws.neg_infinity_le r numbers.0 in
      ground (
        arith,
        lt_of_le_of_lt e.phase_extremum r pv,
        lt_of_le_of_lt float.neg_infinity r pv least c,
      )
  track-crossing low pv r e set k c =
      let numbers = number_of_le pv r (le_of_lt pv r c) in
      let most = laws.le_infinity r numbers.1 in
      ground
        (arith, lt_of_lt_of_le pv r e.phase_extremum, lt_of_lt_of_le pv r float.infinity c most)

  track-IsNear :
      (pos : RelayPos) (pv r : F) (e : AutotuneEngine F)
      → e.pv_ref ≡ some r
      → IsNear e pos
      → crosses pos pv r ≡ false
      → IsNear (track pos pv e) pos
  unfolding IsNear track crosses
  track-IsNear high pv r e set k c = ground (
    arith,
    lt-eq-not-le r pv,
    number_of_le _ _,
    le_of_lt e.phase_extremum pv,
    number_of_le e.phase_extremum pv,
  )
  track-IsNear low pv r e set k c =
      ground
        (arith, lt-eq-not-le pv r, le_of_lt pv e.phase_extremum, number_of_le pv e.phase_extremum)

  -- The phases recorded by `e'` are those of `e`, and perhaps one more with the extremum `x`.
  abbrev Extends : F → AutotuneEngine F → AutotuneEngine F → Type 0
  Extends x e e' =
      ((e'.high_peaks ≡ e.high_peaks) ⊎ (e'.high_peaks ≡ e.high_peaks ++ x ∷ []))
      × ((e'.low_troughs ≡ e.low_troughs) ⊎ (e'.low_troughs ≡ e.low_troughs ++ x ∷ []))

  Extends-same :
      (x : F) (s e e' : AutotuneEngine F)
      → s.high_peaks ≡ e.high_peaks
      → s.low_troughs ≡ e.low_troughs
      → Extends x s e'
      → Extends x e e'
  Extends-same x s e e' p t m = ground arith

  complete-Extends :
      (pos : RelayPos) (pv : F) (e : AutotuneEngine F)
      → e.phase_extremum ≡ pv
      → let q = (complete_phase pos pv e).0 in IsNear q q.relay × Extends pv e q
  unfolding IsNear complete_phase record_phase phase_events
  complete-Extends high pv e x = ground arith
  complete-Extends low pv e x = ground arith

  started-Extends :
      (pos : RelayPos) (pv dt : F) (e : AutotuneEngine F)
      → let s = track pos pv (begin_tick pv dt e) in
        (s.pv_ref ≡ (begin_tick pv dt e).pv_ref)
        × (s.relay ≡ e.relay)
        × (s.high_peaks ≡ e.high_peaks)
        × (s.low_troughs ≡ e.low_troughs)
  unfolding track begin_tick
  started-Extends high pv dt e = (refl, refl, refl, refl)
  started-Extends low pv dt e = (refl, refl, refl, refl)

  tick-IsNear :
      (pv dt : F) (e : AutotuneEngine F)
      → IsNear e e.relay
      → let r = tick pv dt e in IsNear r.2 r.2.relay × Extends pv e r.2
  unfolding tick
  tick-IsNear pv dt e k =
      let (near, r, set) = began-IsNear e.relay pv dt e k in
      let b = begin_tick pv dt e in
      let s = track e.relay pv b in
      let (same_ref, same_relay, peaks, troughs) = started-Extends e.relay pv dt e in
      let known : unwrap_or s.pv_ref pv ≡ r = rw (same_ref, set) refl in
      elim (Bool-cases (crosses e.relay pv r)) [
        | inl over ↦
            let x = track-crossing e.relay pv r b set near over in
            let (near', more) = complete-Extends e.relay pv s x in
            rw (known, over)
              (near', Extends-same pv s e (complete_phase e.relay pv s).0 peaks troughs more)
        | inr under ↦
            let near' = track-IsNear e.relay pv r b set near under in
            rw (known, under) (subst (IsNear s) (sym same_relay) near', (inl peaks, inl troughs))
      ]

  start-IsNear :
      (c : AutotuneConfig F) (reference : Option F)
      → IsNear (start c reference) (start c reference).relay
  unfolding IsNear start new set_pv_ref
  start-IsNear c none = inl refl
  start-IsNear c (some r) = inl refl

  reached-IsNear :
      (c : AutotuneConfig F) (reference : Option F) {e : AutotuneEngine F} {cv : F}
      {events : List (RelayEvent F)}
      → Reached c reference e cv events
      → IsNear e e.relay
  reached-IsNear c reference (started pv dt) =
      (tick-IsNear pv dt (start c reference) (start-IsNear c reference)).0
  reached-IsNear c reference (ticked pv dt {e} r) =
      (tick-IsNear pv dt e (reached-IsNear c reference r)).0

  -- What the engine records as the peak or the trough of a phase is the PV of the very tick at which
  -- the phase ends by crossing the reference, whatever the process did: after any ticks, from a new
  -- engine on, one more tick leaves the peaks and the troughs as they are, or adds its PV to them.
  pub recorded_is_crossing :
      (c : AutotuneConfig F) (reference : Option F) (pv dt : F) {e : AutotuneEngine F} {cv : F}
      {events : List (RelayEvent F)}
      → Reached c reference e cv events
      → let e' = (tick pv dt e).2 in
        ((e'.high_peaks ≡ e.high_peaks) ⊎ (e'.high_peaks ≡ e.high_peaks ++ pv ∷ []))
        × ((e'.low_troughs ≡ e.low_troughs) ⊎ (e'.low_troughs ≡ e.low_troughs ++ pv ∷ []))
  recorded_is_crossing c reference pv dt {e} r =
      (tick-IsNear pv dt e (reached-IsNear c reference r)).1
