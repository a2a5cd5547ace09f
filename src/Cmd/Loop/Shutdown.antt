-- ===== src/Cmd/Loop/Shutdown.antt =====
-- What a shutdown of the loop leaves on the disk.
use pid_ctl.Prelude.{
  ℕ, arith, ◌∙◌, ◌≡◌, ◌≢◌, ◌⊎◌, refl, Option, none, some, [], ◌∷◌, ◌++◌, inl, inr, Option-cases,
}
use pid_ctl.Float.{Float}
use pid_ctl.App.Snapshot.{IoError, not_found, StateStoreError, StateSnapshot}
use pid_ctl.App.StateStore.{FilePath, Files, Json, Text, loaded, load, save, err, World}
use pid_ctl.App.StateStore.Atomic.{IsPosix, load-save}
use pid_ctl.App.Persister.{SnapshotPersister, persist, force_flush, attempt, after_save}
use pid_ctl.App.Records.{CvSink, Readings, ControllerSession}
use pid_ctl.App.Session.{flush_session, record_confirmed_cv, persist_snapshot}
use pid_ctl.App.Events.{Logger, write_event, state_write_failed}
use pid_ctl.App.LoopRuntime.{write_safe_cv, flush_state_at_shutdown, log_shutdown_failure}
use pid_ctl.Cmd.Loop.{LoopArgs, LoopState, Inputs}
use pid_ctl.Cmd.Loop.Steps.{write_safe, finalize_shutdown}

module _ {F : Type 0} ⦃float : Float F⦄ {D : Type 0} (files : Files D) (format : Json F) where
  persist-store :
      (p : SnapshotPersister) (snapshot : StateSnapshot F) (now done : ℕ) (w : World D)
      → (persist files format p snapshot now done w).1.store ≡ p.store
  unfolding persist attempt after_save
  persist-store p snapshot now done w = ground arith

  -- A flush to a store does what `save` does, and a failure of it is logged.
  flush-save :
      (s : ControllerSession F) (path : FilePath) (r : Readings) (g : Logger F) (w : World D)
      → s.persister.store ≡ some path
      → let q = flush_state_at_shutdown files format s (some path) r g w in
        let v = save files format path s.snapshot w in
        (q.2 ≡ v.1)
        × (q.0.snapshot ≡ s.snapshot)
        × ((v.0 ≡ none)
            ⊎ ((e : StateStoreError) × (q.1 ≡ write_event g (state_write_failed path e))))
  unfolding flush_state_at_shutdown flush_session force_flush attempt log_shutdown_failure
  flush-save s path r g w e = elim (Option-cases (save files format path s.snapshot w).0) [
    | inl done ↦ ground arith
    | inr (f, failed) ↦ (ground arith, ground arith, inr (f, ground arith))
  ]

  flush_then_load :
      (posix : IsPosix files) (s : ControllerSession F) (path : FilePath)
      (state_path : Option FilePath) (r : Readings) (g : Logger F) (w : World D)
      → s.persister.store ≡ some path
      → state_path ≡ some path
      → ((text : Text)
          → format.to_string_pretty s.snapshot ≡ some text
          → format.from_str (text ++ 10 ∷ []) ≡ some s.snapshot)
      → let q = flush_state_at_shutdown files format s state_path r g w in
        ((e : StateStoreError) × (q.1 ≡ write_event g (state_write_failed path e)))
        ⊎ (load files format path q.2.disk ≡ loaded (some s.snapshot))
        ⊎ ((e : IoError) × (files.read_to_string path q.2.disk ≡ err e) × (e ≢ not_found))
  flush_then_load posix s path state_path r g w e p back =
      let (wrote, kept, outcome) = flush-save s path r g w e in
      elim outcome [
        | inl done ↦ rw (p, wrote) (inr (load-save files posix format path s.snapshot w back done))
        | inr (f, logged) ↦ rw p (inl (f, logged))
      ]

module _ {F : Type 0} ⦃float : Float F⦄ {S D : Type 0} (files : Files D) (format : Json F)
    (sink : CvSink F S) where
  write_safe_cv-store :
      (safe : Option F) (s : ControllerSession F) (r : Readings) (b : S) (w : World D)
      → (write_safe_cv files format sink safe s r b w).0.persister.store ≡ s.persister.store
  unfolding write_safe_cv record_confirmed_cv persist_snapshot
  write_safe_cv-store none s r b w = refl
  write_safe_cv-store (some cv) s r b w = elim (Option-cases (sink.write_cv cv b).0) [
    | inl fine ↦ rw (fine, write_safe_cv) (persist-store files format s.persister _ _ _ w)
    | inr (e, refused) ↦ rw (refused, write_safe_cv) refl
  ]

module _ {F : Type 0} ⦃float : Float F⦄ {S D O : Type 0} (files : Files D) (format : Json F)
    (sink : CvSink F S) where
  write_safe-store :
      (a : LoopArgs F) (r : Readings) (l : LoopState F S D O)
      → let l' = write_safe files format sink a r l in
        (l'.ticking.session.persister.store ≡ l.ticking.session.persister.store)
        × (l'.ticking.logger ≡ l.ticking.logger)
  unfolding write_safe
  write_safe-store a r l = (
    write_safe_cv-store files format sink a.safe_cv l.ticking.session r l.ticking.sink
        l.ticking.world,
    refl,
  )

  -- After a shutdown of a loop that has a state file, on a file system that renames atomically: the
  -- failure of the final write is logged; or, if the JSON library reads back what it prints of the
  -- final snapshot, `load` returns that snapshot, or the operating system refuses to read the file,
  -- for another reason than that there is none. No flush interval delays that write.
  pub shutdown_persists :
      (posix : IsPosix files) (a : LoopArgs F) (i : Inputs F) (l : LoopState F S D O)
      (path : FilePath)
      → a.state_path ≡ some path
      → l.ticking.session.persister.store ≡ some path
      → let l' = finalize_shutdown files format sink a i l in
        let snapshot = l'.ticking.session.snapshot in
        let disk = l'.ticking.world.disk in
        ((text : Text)
          → format.to_string_pretty snapshot ≡ some text
          → format.from_str (text ++ 10 ∷ []) ≡ some snapshot)
        → ((e : StateStoreError) × (l'.ticking.logger
              ≡ write_event l.ticking.logger (state_write_failed path e)))
          ⊎ (load files format path disk ≡ loaded (some snapshot))
          ⊎ ((e : IoError) × (files.read_to_string path disk ≡ err e) × (e ≢ not_found))
  unfolding finalize_shutdown flush_state_at_shutdown flush_session write_safe
  shutdown_persists posix a i l path p s back =
      let safe = (write_safe files format sink a i.at_safe_cv l).ticking in
      let (store, log) = write_safe-store a i.at_safe_cv l in
      flush_then_load files format posix safe.session path a.state_path i.at_flush safe.logger
        safe.world (store ∙ s) p back
