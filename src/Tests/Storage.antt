-- ===== src/Tests/Storage.antt =====
-- The state file and the persister on concrete inputs.
use pid_ctl.Prelude.{
  ◌≡◌, ◌≢◌, ◌⊎◌, ◌↔◌, ◌<◌, ◌≤◌, refl, arith, Option, some, none, true, List, [], ◌∷◌, ◌++◌, min,
}
use pid_ctl.Float.Fixed.{Fixed, fixed_float}
use pid_ctl.App.Snapshot.{StateStoreError, IoError, not_found, validate}
use pid_ctl.App.StateStore.{
  Text, World, save, load, loaded, err, save_text, write_and_rename, ◌andthen◌, at_path, clean_up,
  temp_path,
}
use pid_ctl.App.StateStore.Atomic.{save_atomic, load-save}
use pid_ctl.App.Persister.{new_persister, fail_escalated, u32_max}
use pid_ctl.App.Persister.Counting.{
  Call, persists, flushes, trailing_failures, History, run, run_counts,
}
use pid_ctl.Tests.Fixtures.{
  Disk, disk_files, disk-IsPosix, codec, state_path, empty_world, snapshot_of,
}

abbrev kept : Option StateStoreError × World Disk
kept = save disk_files codec state_path (snapshot_of 1500 3) empty_world

save_atomic_example :
    ((e : StateStoreError) × (kept.0 ≡ some e)
      × (disk-IsPosix.content kept.1.disk state_path
          ≡ disk-IsPosix.content empty_world.disk state_path))
    ⊎ ((kept.0 ≡ none)
        × (validate (snapshot_of 1500 3) ≡ none)
        × (text : Text) × (some (1500 ∷ 3 ∷ []) ≡ some text)
        × (disk-IsPosix.content kept.1.disk state_path ≡ some (text ++ 10 ∷ [])))
unfolding codec
save_atomic_example =
    save_atomic disk_files disk-IsPosix codec state_path (snapshot_of 1500 3) empty_world

load-save_example :
    (load disk_files codec state_path kept.1.disk ≡ loaded (some (snapshot_of 1500 3)))
    ⊎ ((e : IoError) × (disk_files.read_to_string state_path kept.1.disk ≡ err e) × (e ≢ not_found))
unfolding disk_files codec save save_text write_and_rename ◌andthen◌ at_path clean_up temp_path
    validate
load-save_example =
    load-save disk_files disk-IsPosix codec state_path (snapshot_of 1500 3) empty_world
      (λ text e. ground (arith, e)) refl

abbrev calls : List (Call Fixed)
calls =
    persists (snapshot_of 0 1) 5 6
    ∷ persists (snapshot_of 0 2) 7 8
    ∷ flushes (snapshot_of 0 3) 9
    ∷ []

abbrev start : History disk_files codec
start = record {
  persister = new_persister (some state_path) (some state_path) (some 10) 2;
  world = empty_world;
  results = [];
}

abbrev history : History disk_files codec
history = run disk_files codec start calls

run_counts_example :
    (history.persister.fail_count ≡ min (trailing_failures history.results) u32_max)
    × ((fail_escalated history.persister ≡ true)
        ↔ ((0 < 2) × (2 ≤ min (trailing_failures history.results) u32_max)))
run_counts_example =
    run_counts disk_files codec (some state_path) (some state_path) (some 10) 2 empty_world calls
