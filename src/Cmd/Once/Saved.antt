-- ===== src/Cmd/Once/Saved.antt =====
-- What a successful `once` leaves behind.
use pid_ctl.Prelude.{
  ℕ, ◌≡◌, ◌≢◌, ◌⊎◌, refl, ap, subst, sym, ◌∙◌, arith, Option, none, some, [], ◌∷◌, ◌++◌, inl, inr,
  Option-cases, String, if◌then◌else◌,
}
use mathlib.Core.Option.{some-injective}
use pid_ctl.Float.{Float}
use pid_ctl.App.Snapshot.{StateSnapshot, IoError, not_found}
use pid_ctl.App.StateStore.{FilePath, Files, Json, Text, World, loaded, load, save, ok, err}
use pid_ctl.App.StateStore.Atomic.{IsPosix, load-save}
use pid_ctl.App.Persister.{persist, attempt, is_coalesced, new_persister}
use pid_ctl.App.Records.{
  CvSink, Readings, ControllerSession, TickOutcome, TickResult, ticked, cv_write, session,
  InitResult, SessionConfig, InitError, init_failed,
}
use pid_ctl.App.Session.{process_pv, apply_step, persist_snapshot, new, start_session}
use pid_ctl.App.Session.Ticks.{process_pv_applied}
use pid_ctl.App.Events.{Logger, open_log}
use pid_ctl.Adapters.Writers.{FloatText, Outside}
use pid_ctl.Adapters.Build.{build_cv_mode_sink, resolve_once_ff, resolve_pv}
use pid_ctl.Adapters.Writers.Verify.{IoResult-cases}
use pid_ctl.Cli.Args.{OnceArgs, once_session}
use pid_ctl.Cli.Commands.{is_json}
use pid_ctl.Cmd.Once.{
  success, code, OnceInputs, OnceWorld, report, resolve_once_dt, finish_once, tick_once, run_once,
}
use pid_ctl.Core.Inversion.{>>=-eq-some}

module _ {F : Type 0} ⦃float : Float F⦄ {D : Type 0} (files : Files D) (format : Json F) where
  module _ {S : Type 0} (sink : CvSink F S) where
    -- With a store and no flush interval, a tick that reports no failure has saved the snapshot.
    process_pv-save :
        (s : ControllerSession F) (pv dt ff : F) (r : Readings) (a : S) (w : World D)
        (path : FilePath) {o : TickOutcome F} {s' : ControllerSession F} {a' : S} {w' : World D}
        → process_pv files format sink s pv dt ff r a w ≡ some (ticked o, s', a', w')
        → s.persister.store ≡ some path
        → s.persister.flush_interval ≡ none
        → o.state_write_failed ≡ none
        → save files format path s'.snapshot w ≡ (none, w')
    unfolding process_pv apply_step persist_snapshot persist attempt is_coalesced
    process_pv-save s pv dt ff r a w path e store flush fine = ground arith

  start_session-persister :
      (cfg : SessionConfig F) (stem : Option String) (snapshot : StateSnapshot F)
      (path : Option FilePath) (s : ControllerSession F)
      → start_session files format cfg stem snapshot path ≡ session s
      → (s.persister.store ≡ path) × (s.persister.flush_interval ≡ cfg.flush_interval)
  unfolding start_session new_persister
  start_session-persister cfg stem snapshot path s e = ground arith

  new-persister :
      (cfg : SessionConfig F) (stem : Option String) (d : D) (s : ControllerSession F)
      → (new files format cfg stem d).0 ≡ session s
      → (s.persister.store ≡ cfg.state_store) × (s.persister.flush_interval ≡ cfg.flush_interval)
  unfolding new start_session new_persister
  new-persister cfg stem d s e = ground arith

InitResult-cases :
    {F : Type 0} (r : InitResult F)
    → ((e : InitError F) × (r ≡ init_failed e)) ⊎ ((s : ControllerSession F) × (r ≡ session s))
InitResult-cases (session s) = inr (s, refl)
InitResult-cases (init_failed e) = inl (e, refl)

module _ {F : Type 0} ⦃float : Float F⦄ (texts : FloatText F) {D S : Type 0} (files : Files D)
    (format : Json F) (out : Outside S) where
  -- The sink of the command.
  abbrev pub once_sink : OnceArgs F → CvSink F (Option S)
  once_sink a = build_cv_mode_sink texts out a.cv_mode a.cv_precision a.cmd_timeout

  report-success :
      (a : OnceArgs F) (print_fails : Option ℕ) (o : TickOutcome F) (l : Logger F)
      → (report a print_fails o l).0 ≡ success
      → (o.state_write_failed ≡ none)
        × ((report a print_fails o l).2
            ≡ (if is_json a.output_format then some o.record_of else none))
  unfolding report
  report-success a print_fails o l e = ground arith

  -- The tick of a successful command: the session it began with and the one it left, and the outcome.
  record Ticked (a : OnceArgs F) (s0 : ControllerSession F) (w : World D) (x : OnceWorld F S D)
      : Type 0 where
    pub s' : ControllerSession F
    pub o : TickOutcome F
    pub before : S
    pub dt : F
    pub pv : F
    pub ff : F
    pub clocks : Readings
    pub run :
        process_pv files format (once_sink a) s0 pv dt ff clocks (some before) w
        ≡ some (ticked o, s', some x.outside, x.world)
    pub saved : o.state_write_failed ≡ none
    pub left : x.session ≡ some s'
    pub shown : x.printed ≡ (if is_json a.output_format then some o.record_of else none)

  finish_once-Ticked :
      (a : OnceArgs F) (i : OnceInputs F) (l : Logger F) (t : TickResult (TickOutcome F))
      (s0 s : ControllerSession F) (b b0 : S) (w w0 : World D) (x : OnceWorld F S D) (pv dt ff : F)
      → process_pv files format (once_sink a) s0 pv dt ff i.clocks (some b0) w0
        ≡ some (t, s, some b, w)
      → finish_once a i l t s b w ≡ (success, x)
      → Ticked a s0 w0 x
  unfolding finish_once
  finish_once-Ticked a i l (cv_write e) s0 s b b0 w w0 x pv dt ff run h = cc
  finish_once-Ticked a i l (ticked o) s0 s b b0 w w0 x pv dt ff run h =
      let (saved, shown) = report-success a i.print_fails o l (ap (λ p. p.0) h) in
      subst (Ticked a s0 w0) (ap (λ p. p.1) h) (record {
        s' = s;
        o = o;
        before = b0;
        dt = dt;
        pv = pv;
        ff = ff;
        clocks = i.clocks;
        run = run;
        saved = saved;
        left = refl;
        shown = shown;
      })

  tick_once-Ticked :
      (a : OnceArgs F) (i : OnceInputs F) (s0 : ControllerSession F) (dt : F × Logger F) (raw : F)
      (b : S) (w : World D) (x : OnceWorld F S D)
      → tick_once texts files format out a i s0 dt raw b w ≡ some (success, x)
      → Ticked a s0 w x
  unfolding tick_once
  tick_once-Ticked a i s0 dt raw b w x e =
      let (ff, _, e1) = >>=-eq-some (resolve_once_ff texts out a.ff_source a.cmd_timeout b) _ e in
      let (q, run, e2) =
        >>=-eq-some
          (process_pv files format (once_sink a) s0 (float.times raw a.scale) dt.0 ff.0 i.clocks
            (some ff.1) w)
          _ e1 in
      let (b', returned, left) = >>=-eq-some q.2 _ e2 in
      finish_once-Ticked a i dt.1 q.0 s0 q.1 b' ff.1 q.3 w x (float.times raw a.scale) dt.0 ff.0
        (run ∙ ap (λ z. some (q.0, q.1, z, q.3)) returned) (some-injective _ _ left)

  -- A successful command had a session, of a state that was locked and loaded, and ticked it.
  run_once-Ticked :
      (a : OnceArgs F) (i : OnceInputs F) (b : S) (w : World D) (x : OnceWorld F S D)
      → run_once texts files format out a i b w ≡ some (success, x)
      → (s0 : ControllerSession F) × ((new files format (once_session a) i.stem w.disk).0
          ≡ session s0)
        × Ticked a s0 (record w { disk = (new files format (once_session a) i.stem w.disk).1 }) x
  unfolding run_once
  run_once-Ticked a i b w x e =
      let started = new files format (once_session a) i.stem w.disk in
      elim (InitResult-cases started.0) [
        | inl (f, failed) ↦ ground (arith, failed)
        | inr (s0, made) ↦ elim (Option-cases i.log) [
          | inl closed ↦ ground (arith, made, closed)
          | inr (lines, opened) ↦
              let dt = resolve_once_dt a i.since_update (open_log lines) in
              let (pv, _, e') =
                >>=-eq-some (resolve_pv texts out a.pv_source a.pv_cmd_timeout b)
                  (λ q. elim q.0 [
                    | err f ↦ some (
                      code 1,
                      record {
                        outside = q.1;
                        world = record w { disk = started.1 };
                        session = some s0;
                        logger = some dt.1;
                        printed = none;
                      },
                    )
                    | ok raw ↦
                        tick_once texts files format out a i s0 dt raw q.1
                          (record w { disk = started.1 })
                  ])
                  (rw (made, opened, run_once) at e) in
              elim (IoResult-cases pv.0) [
                | inl (f, failed) ↦ ground (arith, failed, e')
                | inr (raw, read) ↦ (
                  s0,
                  made,
                  tick_once-Ticked a i s0 dt raw pv.1 (record w { disk = started.1 }) x
                      (rw read at e'),
                )
              ]
        ]
      ]

  -- A `once` with a state file that succeeds, on a file system that renames atomically: the confirmed
  -- output of its session is a value that the sink took as the last thing done outside; and, if the
  -- JSON library reads back what it prints of the session's snapshot, `load` returns that snapshot,
  -- or the operating system refuses to read the file, for another reason than that there is none.
  pub once_saved :
      IsPosix files
      → (a : OnceArgs F) (i : OnceInputs F) (b : S) (w : World D) (x : OnceWorld F S D)
        (path : FilePath) (s : ControllerSession F)
      → run_once texts files format out a i b w ≡ some (success, x)
      → a.state_path ≡ some path
      → x.session ≡ some s
      → ((text : Text)
          → format.to_string_pretty s.snapshot ≡ some text
          → format.from_str (text ++ 10 ∷ []) ≡ some s.snapshot)
      → ((cv : F) × (before : S) × ((once_sink a).write_cv cv (some before)
            ≡ (none, some x.outside))
          × (s.snapshot.last_cv ≡ some cv))
        × ((load files format path x.world.disk ≡ loaded (some s.snapshot))
            ⊎ ((e : IoError) × (files.read_to_string path x.world.disk ≡ err e) × (e ≢ not_found)))
  unfolding once_session
  once_saved posix a i b w x path s e p held back =
      let (s0, made, t) = run_once-Ticked a i b w x e in
      let (store, flush) = new-persister files format (once_session a) i.stem w.disk s0 made in
      let w' : World D = record w { disk = (new files format (once_session a) i.stem w.disk).1 } in
      let same : t.s' ≡ s = some-injective _ _ (sym t.left ∙ held) in
      let (wrote, confirmed, _, _, _) =
        process_pv_applied files format (once_sink a) s0 t.pv t.dt t.ff t.clocks (some t.before) w'
          t.run in
      let kept : save files format path s.snapshot w' ≡ (none, x.world) = rw (← same) (
        process_pv-save files format (once_sink a) s0 t.pv t.dt t.ff t.clocks (some t.before) w'
          path t.run (store ∙ p) flush t.saved) in
      (
        (t.o.record_of.cv, t.before, wrote, ap (λ z. z.snapshot.last_cv) (sym same) ∙ confirmed),
        subst
            (λ (v : World D).
              (load files format path v.disk ≡ loaded (some s.snapshot))
              ⊎ ((e : IoError) × (files.read_to_string path v.disk ≡ err e) × (e ≢ not_found)))
            (ap (λ q. q.1) kept)
            (load-save files posix format path s.snapshot w' back (ap (λ q. q.0) kept)),
      )
