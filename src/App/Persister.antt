-- ===== src/App/Persister.antt =====
-- `SnapshotPersister` (crates/pid-ctl/src/app/snapshot_persister.rs). An instant is a number of
-- nanoseconds on the monotonic clock; each reading of the clock is an argument.
pub mod Counting
use pid_ctl.Prelude.{
  ℕ, ◌+◌, ◌-◌, ◌^◌, Option, none, some, Bool, true, false, ◌&&◌, ltb, leb, if◌then◌else◌, min,
  is_some,
}
use pid_ctl.App.Snapshot.{StateSnapshot, StateStoreError}
use pid_ctl.App.StateStore.{FilePath, Files, Json, World, save}

abbrev pub u32_max : ℕ
u32_max = 2 ^ 32 - 1

pub record SnapshotPersister : Type 0 where
  pub store : Option FilePath
  -- The lock is held as long as the persister lives.
  pub lock : Option FilePath
  pub flush_interval : Option ℕ
  pub last_flush : Option ℕ
  pub fail_count : ℕ
  pub fail_after : ℕ

unfoldable pub new_persister : Option FilePath → Option FilePath → Option ℕ → ℕ → SnapshotPersister
new_persister store lock interval after = record {
  store = store;
  lock = lock;
  flush_interval = interval;
  last_flush = none;
  fail_count = 0;
  fail_after = after;
}

unfoldable pub set_flush_interval : SnapshotPersister → Option ℕ → SnapshotPersister
set_flush_interval p interval = record p { flush_interval = interval }

unfoldable pub has_store : SnapshotPersister → Bool
has_store p = is_some p.store

unfoldable pub fail_escalated : SnapshotPersister → Bool
fail_escalated p = leb p.fail_after p.fail_count && ltb 0 p.fail_after

-- `last.elapsed() < interval`; `elapsed` does not go below zero.
unfoldable pub is_coalesced : SnapshotPersister → ℕ → Bool
is_coalesced p now = elim p.flush_interval [
  | none ↦ false
  | some interval ↦ elim p.last_flush [ none ↦ false | some last ↦ ltb (now - last) interval ]
]

-- What `persist` and `force_flush` record about a write, read from the clock after it.
unfoldable pub after_save : SnapshotPersister → Option StateStoreError → ℕ → SnapshotPersister
after_save p none now = record p { fail_count = 0; last_flush = some now }
after_save p (some e) now = record p { fail_count = min (p.fail_count + 1) u32_max }

module _ {D : Type 0} {F : Type 0} (files : Files D) (format : Json F) where
  -- A write: the error, the persister and the world.
  unfoldable pub attempt :
      FilePath
      → SnapshotPersister
      → StateSnapshot F
      → ℕ
      → World D
      → Option StateStoreError × SnapshotPersister × World D
  attempt path p snapshot done w =
      let r = save files format path snapshot w in (r.0, after_save p r.0 done, r.1)

  -- `persist`, which reads the clock before (`now`) and after (`done`) the write.
  unfoldable pub persist :
      SnapshotPersister
      → StateSnapshot F
      → ℕ
      → ℕ
      → World D
      → Option StateStoreError × SnapshotPersister × World D
  persist p snapshot now done w = elim p.store [
    | none ↦ (none, p, w)
    | some path ↦ if is_coalesced p now then (none, p, w) else attempt path p snapshot done w
  ]

  unfoldable pub force_flush :
      SnapshotPersister
      → StateSnapshot F
      → ℕ
      → World D
      → Option StateStoreError × SnapshotPersister × World D
  force_flush p snapshot done w = elim p.store [
    | none ↦ (none, p, w)
    | some path ↦ attempt path p snapshot done w
  ]
