-- ===== src/Cmd/State/Purge.antt =====
-- What a purge of a state file keeps.
use pid_ctl.Prelude.{
  String, ◌≡◌, ◌≢◌, ◌⊎◌, refl, Option, none, some, [], ◌∷◌, ◌++◌, inl, inr, Option-cases,
}
use pid_ctl.Float.{Float}
use pid_ctl.App.Snapshot.{
  StateSnapshot, StateStoreError, IoError, not_found, default_snapshot, runtime_state,
}
use pid_ctl.App.StateStore.{
  FilePath, Files, Json, Text, World, loaded, load, save, acquire_lock, err,
}
use pid_ctl.App.StateStore.Atomic.{IsPosix, load-save}
use pid_ctl.Cli.Parse.{PidFlags, merge, merge_found}
use pid_ctl.Cmd.State.{store, purged, stored, run_purge}

module _ {F : Type 0} ⦃float : Float F⦄ where
  -- The same configuration is resolved, and the run starts as from an empty state.
  pub record IsPurgeOf (new old : StateSnapshot F) : Type 0 where
    pub resolves : (f : PidFlags F) → merge_found f (some new) ≡ merge_found f (some old)
    pub starts : runtime_state new ≡ runtime_state default_snapshot
    pub name : new.name ≡ old.name
    pub iter : new.iter ≡ 0

  purged-IsPurgeOf : (s : StateSnapshot F) (now : String) → IsPurgeOf (purged s now) s
  unfolding purged merge_found merge runtime_state default_snapshot
  purged-IsPurgeOf s now = record { resolves = λ f. refl; starts = refl; name = refl; iter = refl }

  module _ {D : Type 0} (files : Files D) (posix : IsPosix files) (format : Json F) where
    stored-none :
        (r : Option StateStoreError × World D)
        → (stored files format r).0 ≡ none
        → (r.0 ≡ none) × ((stored files format r).1 ≡ r.1)
    stored-none r e = elim (Option-cases r.0) [
      | inl done ↦ (done, rw (done, stored) refl)
      | inr (f, failed) ↦ let e' : some (store f) ≡ none = rw (failed, stored) at e in cc
    ]

    -- On a file system that renames atomically: a purge that finds the snapshot `old` and reports no
    -- error has stored one from which, whatever the flags, the same configuration is resolved, with
    -- the same name, no iterations, and the runtime state of an empty file: if the JSON library reads
    -- it back, `load` returns it, or the operating system refuses to read the file, for another reason
    -- than that there is none.
    pub purge_keeps_configuration :
        (path : FilePath) (now : String) (w : World D) (old : StateSnapshot F)
        → load files format path (acquire_lock files path w.disk).1 ≡ loaded (some old)
        → (run_purge files format path now w).0 ≡ none
        → ((text : Text)
            → format.to_string_pretty (purged old now) ≡ some text
            → format.from_str (text ++ 10 ∷ []) ≡ some (purged old now))
        → let disk = (run_purge files format path now w).1.disk in
          IsPurgeOf (purged old now) old
          × ((load files format path disk ≡ loaded (some (purged old now)))
              ⊎ ((e : IoError) × (files.read_to_string path disk ≡ err e) × (e ≢ not_found)))
    unfolding run_purge
    purge_keeps_configuration path now w old found done back =
        let locked = acquire_lock files path w.disk in
        elim (Option-cases locked.0) [
          | inr (e, refused) ↦
              let done' : some (store e) ≡ none = rw (refused, run_purge) at done in cc
          | inl free ↦
              let r = save files format path (purged old now) (record w { disk = locked.1 }) in
              let done' : (stored files format r).0 ≡ none = rw (free, found, run_purge) at done in
              let (fine, kept) = stored-none r done' in
              rw (free, found, kept, run_purge)
                (
                  purged-IsPurgeOf old now,
                  load-save files posix format path (purged old now) (record w { disk = locked.1 })
                      back fine,
                )
        ]
