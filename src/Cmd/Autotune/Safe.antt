-- ===== src/Cmd/Autotune/Safe.antt =====
-- What `autotune` hands to the actuator.
use pid_ctl.Prelude.{
  ℕ, zero, suc, ◌+◌, ◌-◌, ◌≡◌, ◌⊎◌, refl, subst, true, false, ◌++◌, arith, Bool, none, some, List,
  [], All, inl, inr, Bool-cases, Option-cases, leb, ◌>>=◌,
}
use mathlib.Core.Option.{some-injective}
use pid_ctl.Float.{Float, IsIeee, nought, as_secs}
use pid_ctl.Core.Inversion.{>>=-eq-some}
use pid_ctl.Autotune.{AutotuneEngine, RelayEvent, validate, new, set_pv_ref, tick}
use pid_ctl.Autotune.Relay.{Reached, started, ticked, start}
use pid_ctl.Autotune.Extrema.{reached_within_limits}
use pid_ctl.App.StateStore.{Files, Json, World}
use pid_ctl.Adapters.Writers.{FloatText, Outside}
use pid_ctl.Adapters.Writers.Verify.{IoResult-cases}
use pid_ctl.Cli.Args.{AutotuneArgs}
use pid_ctl.Cmd.Once.{Exit, success}
use pid_ctl.Cmd.Autotune.{
  Round, TuneState, RelayState, config_of, warmup_ticks, read_pv, write_output, warmup, tick_engine,
  woken, relay_round, relay_from, begin_relay, conclude, run_autotune, relay_tick,
}
use pid_ctl.Cmd.Autotune.Warmup.{IsNumeric, InLimits, write_output-Safe, warmup-Safe}

module _ {F : Type 0} ⦃float : Float F⦄ (laws : IsIeee F) (texts : FloatText F) {S : Type 0}
    (out : Outside S) (a : AutotuneArgs F) (valid : validate (config_of a) ≡ none)
    (numeric : IsNumeric (config_of a)) where
  -- The engine has been started with the reference, and has made some ticks or none.
  abbrev Runs : F → AutotuneEngine F → Type 0
  Runs v e =
      (e ≡ start (config_of a) (some v))
      ⊎ ((cv : F) × (events : List (RelayEvent F)) × Reached (config_of a) (some v) e cv events)

  abbrev Safe : F → AutotuneEngine F → List F → Type 0
  Safe v e outputs = Runs v e × All (InLimits (config_of a)) outputs

  tick-Reached :
      (v pv dt : F) (e : AutotuneEngine F)
      → Runs v e
      → (events : List (RelayEvent F)) × Reached
          (config_of a)
          (some v)
          (tick pv dt e).2
          (tick pv dt e).0
          events
  tick-Reached v pv dt e (inl fresh) = rw fresh (_, started pv dt)
  tick-Reached v pv dt e (inr (cv, events, r)) = (_, ticked pv dt r)

  tick_engine-Safe :
      (v pv dt : F) (x : RelayState F S) (q : Bool × RelayState F S)
      → tick_engine texts out a pv dt x ≡ some q
      → Safe v x.engine x.state.outputs
      → Safe v q.1.engine q.1.state.outputs
  unfolding tick_engine
  tick_engine-Safe v pv dt x q e (runs, h) =
      let y = tick pv dt x.engine in
      let noted = record x.state { events = x.state.events ++ y.1 } in
      let (t, written, left) = >>=-eq-some (write_output texts out a y.0 noted) _ e in
      let (events, r) = tick-Reached v pv dt x.engine runs in
      let within =
        reached_within_limits laws (config_of a) (some v) valid numeric.low_limit numeric.high_limit
          numeric.low_output numeric.high_output numeric.amplitude r in
      subst (λ z. Safe v z.1.engine z.1.state.outputs) (some-injective _ _ left)
        (
          inr (_, events, r),
          write_output-Safe laws texts out a valid numeric y.0 noted t written within h,
        )

  relay_tick-Safe :
      (v : F) (now : ℕ) (x : RelayState F S) (q : Bool × RelayState F S)
      → relay_tick texts out a now x ≡ some q
      → Safe v x.engine x.state.outputs
      → Safe v q.1.engine q.1.state.outputs
  unfolding relay_tick
  relay_tick-Safe v now x q e h =
      let (r, _, e') = >>=-eq-some (read_pv texts out a x.state.outside) _ e in
      let begun : RelayState F S = record x {
        last_tick = now;
        state = record x.state { outside = r.1 };
      } in
      elim (IoResult-cases r.0) [
        | inl (f, bad) ↦
            let e2 : some (false, begun) ≡ some q = rw bad at e' in
            subst (λ z. Safe v z.1.engine z.1.state.outputs) (some-injective _ _ e2) h
        | inr (pv, good) ↦
            let e2 : tick_engine texts out a pv (as_secs (now - x.last_tick)) begun ≡ some q =
              rw good at e' in
            tick_engine-Safe v pv (as_secs (now - x.last_tick)) begun q e2 h
      ]

  relay_round-Safe :
      (v : F) (begun : ℕ) (r : Round) (x : RelayState F S) (q : Bool × RelayState F S)
      → relay_round texts out a begun r x ≡ some q
      → Safe v x.engine x.state.outputs
      → Safe v q.1.engine q.1.state.outputs
  unfolding relay_round
  relay_round-Safe v begun r x q e h =
      let due : RelayState F S = record x { next_deadline = x.next_deadline + a.interval } in
      let now = woken texts out a r x in
      elim (Bool-cases r.shutdown) [
        | inl stop ↦
            let e' : some (true, x) ≡ some q = rw (stop, relay_round) at e in
            subst (λ z. Safe v z.1.engine z.1.state.outputs) (some-injective _ _ e') h
        | inr on ↦ elim (Bool-cases (leb a.duration (now - begun))) [
          | inl over ↦
              let e' : some (true, due) ≡ some q = rw (on, over, relay_round) at e in
              subst (λ z. Safe v z.1.engine z.1.state.outputs) (some-injective _ _ e') h
          | inr more ↦ relay_tick-Safe v now due q (rw (on, more, relay_round) at e) h
        ]
      ]

  relay_from-Safe :
      (v : F) (fuel begun : ℕ) (rounds : ℕ → Round) (k : ℕ) (x y : RelayState F S)
      → Safe v x.engine x.state.outputs
      → relay_from texts out a fuel begun rounds k x ≡ some y
      → All (InLimits (config_of a)) y.state.outputs
  unfolding relay_from
  relay_from-Safe v zero begun rounds k x y h e = cc
  relay_from-Safe v (suc fuel) begun rounds k x y h e =
      let (q, round, e') = >>=-eq-some (relay_round texts out a begun (rounds k) x) _ e in
      let kept = relay_round-Safe v begun (rounds k) x q round h in
      elim (Bool-cases q.0) [
        | inl over ↦
            let e2 : some q.1 ≡ some y = rw over at e' in
            subst (λ z. All (InLimits (config_of a)) z.state.outputs) (some-injective _ _ e2) kept.1
        | inr on ↦
            let e2 : relay_from texts out a fuel begun rounds (suc k) q.1 ≡ some y = rw on at e' in
            relay_from-Safe v fuel begun rounds (suc k) q.1 y kept e2
      ]

  conclude-outputs :
      {D : Type 0} (files : Files D) (format : Json F) (prints : Bool) (x : RelayState F S)
      (w : World D)
      → (conclude texts out a files format prints x w).1.outputs ≡ x.state.outputs
  unfolding conclude
  conclude-outputs files format prints x w = ground arith

  pub run_autotune-Safe :
      {D : Type 0} (files : Files D) (format : Json F) (as_usize : F → ℕ) (stops : ℕ → Bool)
      (rounds : ℕ → Round) (begun now : ℕ) (prints : Bool) (fuel : ℕ) (b : S) (w : World D)
      {q : Exit × TuneState F S × World D}
      → run_autotune texts out a files format as_usize stops rounds begun now prints fuel b w
        ≡ some q
      → All (InLimits (config_of a)) q.1.outputs
  unfolding run_autotune start set_pv_ref
  run_autotune-Safe files format as_usize stops rounds begun now prints fuel b w {q} e =
      let t0 : TuneState F S = record { outside = b; outputs = []; events = []; printed = none } in
      let (warm, warmed, e1) =
        >>=-eq-some (warmup texts out a (warmup_ticks as_usize a) stops 0 nought t0) _ e in
      let safe =
        warmup-Safe laws texts out a valid numeric (warmup_ticks as_usize a) stops 0 nought t0 warm
          warmed tt in
      elim (Option-cases warm.0) [
        | inl stopped ↦
            let e' : some (success, warm.1, w) ≡ some q = rw stopped at e1 in
            subst (λ z. All (InLimits (config_of a)) z.1.outputs) (some-injective _ _ e') safe
        | inr (v, pv) ↦
            let relay =
              relay_from texts out a fuel begun rounds 0
                (begin_relay texts out a (set_pv_ref (new (config_of a)) v) begun now warm.1) in
            let e' : (relay >>= λ x. some (conclude texts out a files format prints x w)) ≡ some q =
              rw pv at e1 in
            let (y, ran, left) =
              >>=-eq-some relay (λ x. some (conclude texts out a files format prints x w)) e' in
            let kept : All (InLimits (config_of a))
                (conclude texts out a files format prints y w).1.outputs =
              rw (conclude-outputs files format prints y w) (
                relay_from-Safe v fuel begun rounds 0
                  (begin_relay texts out a (set_pv_ref (new (config_of a)) v) begun now warm.1) y
                  (inl refl, safe) ran) in
            subst (λ z. All (InLimits (config_of a)) z.1.outputs) (some-injective _ _ left) kept
      ]
