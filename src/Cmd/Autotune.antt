-- ===== src/Cmd/Autotune.antt =====
-- The `autotune` subcommand (crates/pid-ctl/src/cmd/cmd_autotune.rs): the warmup, the relay loop and
-- what is done with its result. Messages on stderr are left out. Where a command is run, `none` is one
-- that does not return.
pub mod Ends
pub mod Warmup
pub mod Safe
pub mod Limits
use pid_ctl.Prelude.{
  ℕ, zero, suc, ◌+◌, ◌-◌, Bool, true, false, Option, none, some, List, [], ◌∷◌, ◌++◌, leb, max,
  if◌then◌else◌, ◌>>=◌, unwrap_or,
}
use pid_ctl.Float.{Float, nought, as_secs}
use pid_ctl.Autotune.{
  AutotuneConfig, AutotuneEngine, AutotuneResult, RelayEvent, new, set_pv_ref, tick, result,
}
use pid_ctl.App.Snapshot.{StateSnapshot, default_snapshot}
use pid_ctl.App.StateStore.{
  FilePath, Files, Json, World, IoResult, ok, err, loaded, load_failed, load, save,
}
use pid_ctl.Adapters.Readers.{read_cmd_pv}
use pid_ctl.Adapters.Writers.{FloatText, Outside, CmdCvSink, write_cmd_cv}
use pid_ctl.Cli.Args.{AutotuneArgs}
use pid_ctl.Cmd.Once.{Exit, success, code}

-- A round of the relay loop: the flag of the signal handler, the clock before the sleep, and how long
-- after the sleep it is read again. A sleep lasts until its deadline, if that is to come.
pub record Round : Type 0 where
  pub shutdown : Bool
  pub now : ℕ
  pub late : ℕ

-- What the command changes: what is outside of it, the outputs that it has handed to the sink, the
-- latest first, and what it has printed.
pub record TuneState (F S : Type 0) : Type 0 where
  pub outside : S
  pub outputs : List F
  pub events : List (RelayEvent F)
  pub printed : Option (AutotuneResult F)

-- The variables of the relay loop.
pub record RelayState (F S : Type 0) : Type 0 where
  pub engine : AutotuneEngine F
  pub next_deadline : ℕ
  pub last_tick : ℕ
  pub state : TuneState F S

abbrev pub warmup_ticks_min : ℕ
warmup_ticks_min = 10

module _ {F : Type 0} ⦃float : Float F⦄ where
  open float use {lit, over, times}

  abbrev pub config_of : AutotuneArgs F → AutotuneConfig F
  config_of a = record { bias = a.bias; amp = a.amp; out_min = a.out_min; out_max = a.out_max }

  abbrev pub warmup_fraction : F
  warmup_fraction = lit 25 100

  -- The number of ticks of the warmup, given `v as usize`.
  unfoldable pub warmup_ticks : (F → ℕ) → AutotuneArgs F → ℕ
  warmup_ticks as_usize a =
      max (as_usize (times (over (as_secs a.duration) (as_secs a.interval)) warmup_fraction))
        warmup_ticks_min

  -- The gains of a result in the state file; `autotune` takes no lock.
  unfoldable pub with_gains : AutotuneResult F → StateSnapshot F → StateSnapshot F
  with_gains r s = record s { kp = some r.kp; ki = some r.ki; kd = some r.kd }

  unfoldable pub store_gains :
      {D : Type 0}
      → Files D
      → Json F
      → Option FilePath
      → AutotuneResult F
      → World D
      → Exit × World D
  store_gains files format none r w = (success, w)
  store_gains files format (some path) r w = elim (load files format path w.disk) [
    | load_failed e ↦ (code 1, w)
    | loaded existing ↦
        let (failure, w') =
          save files format path (with_gains r (unwrap_or existing default_snapshot)) w in
        elim failure [ none ↦ (success, w') | some e ↦ (code 1, w') ]
  ]

  module _ (texts : FloatText F) {S : Type 0} (out : Outside S) (a : AutotuneArgs F) where
    unfoldable pub read_pv : S → Option (IoResult F × S)
    read_pv b = read_cmd_pv texts.parse out.shell a.pv_cmd a.cmd_timeout b

    abbrev pub cv_sink : CmdCvSink
    cv_sink = record {
      command_template = a.cv_cmd;
      timeout = a.cmd_timeout;
      precision = a.cv_precision;
    }

    -- `cv_sink.write_cv`, of which an error is ignored.
    unfoldable pub write_output : F → TuneState F S → Option (TuneState F S)
    write_output cv t = write_cmd_cv texts out cv_sink cv t.outside >>= λ q.
        some (record t { outside = q.1; outputs = cv ∷ t.outputs })

    -- The PV that is kept.
    abbrev pub or_kept : F → IoResult F → F
    or_kept pv (ok v) = v
    or_kept pv (err e) = pv

    -- The PV that is kept, and what a round of the warmup leaves.
    unfoldable pub warmup_round : F → TuneState F S → Option (F × TuneState F S)
    warmup_round pv t = read_pv t.outside >>= λ q.
        write_output a.bias (record t { outside = q.1 }) >>= λ t'. some (or_kept pv q.0, t')

    -- The warmup, with the flag of the signal handler at each round. The PV is `none` after a shutdown.
    unfoldable pub warmup :
        ℕ → (ℕ → Bool) → ℕ → F → TuneState F S → Option (Option F × TuneState F S)
    warmup zero stops k pv t = some (some pv, t)
    warmup (suc n) stops k pv t = elim (stops k) [
      | true ↦ some (none, t)
      | false ↦ warmup_round pv t >>= λ q. warmup n stops (suc k) q.0 q.1
    ]

    -- After the PV of a round: whether the loop ends, and what is left.
    unfoldable pub tick_engine : F → F → RelayState F S → Option (Bool × RelayState F S)
    tick_engine pv dt x =
        let (cv, events, engine) = tick pv dt x.engine in
        write_output cv (record x.state { events = x.state.events ++ events }) >>= λ t.
        some (engine.settled, record x { engine = engine; state = t })

    -- The clock after the sleep.
    abbrev pub woken : Round → RelayState F S → ℕ
    woken r x = max r.now x.next_deadline + r.late

    -- The body of the loop once its deadline has passed, where `due` has the next one.
    unfoldable pub relay_tick : ℕ → RelayState F S → Option (Bool × RelayState F S)
    relay_tick now due = read_pv due.state.outside >>= λ q.
        let begun = record due { last_tick = now; state = record due.state { outside = q.1 } } in
        elim q.0 [
          | err e ↦ some (false, begun)
          | ok pv ↦ tick_engine pv (as_secs (now - due.last_tick)) begun
        ]

    -- The body of the loop, where `started` is `deadline_start`.
    unfoldable pub relay_round : ℕ → Round → RelayState F S → Option (Bool × RelayState F S)
    relay_round started r x =
        let due = record x { next_deadline = x.next_deadline + a.interval } in
        if r.shutdown
        then some (true, x)
        else if leb a.duration (woken r x - started)
        then some (true, due)
        else relay_tick (woken r x) due

    -- The loop from some round on; `none` if it has not ended after so many.
    unfoldable pub relay_from : ℕ → ℕ → (ℕ → Round) → ℕ → RelayState F S → Option (RelayState F S)
    relay_from zero started rounds k x = none
    relay_from (suc fuel) started rounds k x = relay_round started (rounds k) x >>= λ q. elim q.0 [
      | true ↦ some q.1
      | false ↦ relay_from fuel started rounds (suc k) q.1
    ]

    -- What the loop begins with; the clock is read twice.
    abbrev pub begin_relay : AutotuneEngine F → ℕ → ℕ → TuneState F S → RelayState F S
    begin_relay e started now t = record {
      engine = e;
      next_deadline = started + a.interval;
      last_tick = now;
      state = t;
    }

    -- The end of the command.
    unfoldable pub conclude :
        {D : Type 0}
        → Files D
        → Json F
        → Bool
        → RelayState F S
        → World D
        → Exit × TuneState F S × World D
    conclude files format prints x w = elim (result x.engine a.rule) [
      | none ↦ (code 2, x.state, w)
      | some r ↦
          let (exit, w') = store_gains files format a.state r w in
          if prints then (exit, record x.state { printed = some r }, w') else (code 1, x.state, w)
    ]

    -- `run_autotune`; `stops` is the flag of the signal handler in the warmup, `prints` whether
    -- serde_json prints the result. `none` if the loop has not ended on its fuel, or if a command does
    -- not return.
    unfoldable pub run_autotune :
        {D : Type 0}
        → Files D
        → Json F
        → (F → ℕ)
        → (ℕ → Bool)
        → (ℕ → Round)
        → (started now : ℕ) → Bool
        → ℕ
        → S
        → World D
        → Option (Exit × TuneState F S × World D)
    run_autotune files format as_usize stops rounds started now prints fuel b w =
        let begun : TuneState F S = record {
          outside = b;
          outputs = [];
          events = [];
          printed = none;
        } in
        warmup (warmup_ticks as_usize a) stops 0 nought begun >>= λ q. elim q.0 [
          | none ↦ some (success, q.1, w)
          | some v ↦
              relay_from fuel started rounds 0
                (begin_relay (set_pv_ref (new (config_of a)) v) started now q.1)
              >>= λ x. some (conclude files format prints x w)
        ]
