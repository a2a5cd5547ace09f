-- ===== src/App/StateStore.antt =====
-- `StateStore` (crates/pid-ctl/src/app/state_store.rs). The file system (`std::fs` with `fs2`) and
-- the JSON library (`serde_json`) are parameters, `Files` and `Json`. A text is a list of code
-- points; a path is taken apart as `Path::parent` and `Path::file_name` do it.
pub mod Atomic
use pid_ctl.Prelude.{ℕ, ◌+◌, ◌%◌, ◌^◌, Option, none, some, List, [], ◌∷◌, ◌++◌, unwrap_or}
use pid_ctl.Float.{Float}
use pid_ctl.App.Snapshot.{
  StateSnapshot, StateStoreError, IoError, not_found, would_block, io, json, lock_held, validate,
}

abbrev pub Text : Type 0
Text = List ℕ

pub record FilePath : Type 0 where
  pub parent : Option Text
  pub file_name : Option Text

pub data IoResult (A : Type 0) : Type 0 where
  ok : A → IoResult A
  err : IoError → IoResult A

-- A call returns the error, if any, and the disk after it.
pub record Files (D : Type 0) : Type 0 where
  pub read_to_string : FilePath → D → IoResult Text
  -- `OpenOptions::new().create_new(true).write(true).open(path)`.
  pub create_new : FilePath → D → Option IoError × D
  pub write_all : FilePath → Text → D → Option IoError × D
  pub sync_all : FilePath → D → Option IoError × D
  pub rename : FilePath → FilePath → D → Option IoError × D
  pub remove_file : FilePath → D → Option IoError × D
  -- The lockfile is opened (and made, if it is missing), and locked without waiting.
  pub open_lockfile : FilePath → D → Option IoError × D
  pub try_lock_exclusive : FilePath → D → Option IoError × D
  pub process_id : ℕ
  -- The decimal digits of a number.
  pub decimal : ℕ → Text

pub record Json (F : Type 0) : Type 0 where
  pub to_string_pretty : StateSnapshot F → Option Text
  pub from_str : Text → Option (StateSnapshot F)

-- The disk, and `TEMP_FILE_COUNTER`.
pub record World (D : Type 0) : Type 0 where
  pub disk : D
  pub temp_counter : ℕ

pub data LoadResult (F : Type 0) : Type 0 where
  loaded : Option (StateSnapshot F) → LoadResult F
  load_failed : StateStoreError → LoadResult F

-- A step of `save`, and `?` between steps.
abbrev pub Step : Type 0 → Type 0
Step D = D → Option StateStoreError × D

module _ {D : Type 0} where
  infixr 6 ◌andthen◌
  unfoldable pub ◌andthen◌ : Step D → Step D → Step D
  ◌andthen◌ m k d = elim (m d).0 [ some e ↦ (some e, (m d).1) | none ↦ k (m d).1 ]

  -- `.map_err(|source| StateStoreError::Io { path, source })`.
  unfoldable pub at_path : FilePath → (D → Option IoError × D) → Step D
  at_path p m d = elim (m d).0 [
    | some e ↦ (some (io p.file_name e), (m d).1)
    | none ↦ (none, (m d).1)
  ]

module _ {D : Type 0} (files : Files D) where
  open files use {
    read_to_string, create_new, write_all, sync_all, rename, remove_file, open_lockfile,
    try_lock_exclusive, process_id, decimal,
  }

  -- `<state>.lock`.
  unfoldable pub lock_path : FilePath → FilePath
  lock_path p = record p {
    file_name = some (unwrap_or p.file_name [] ++ (b'.' ∷ b'l' ∷ b'o' ∷ b'c' ∷ b'k' ∷ []));
  }

  -- `.<file>.tmp-<process>-<counter>` in the directory of the state file.
  unfoldable pub temp_path : FilePath → ℕ → FilePath
  temp_path p counter = record {
    parent = some (unwrap_or p.parent (b'.' ∷ []));
    file_name = some (
        b'.'
        ∷ (unwrap_or p.file_name
              (b's' ∷ b't' ∷ b'a' ∷ b't' ∷ b'e' ∷ b'.' ∷ b'j' ∷ b's' ∷ b'o' ∷ b'n' ∷ [])
            ++ ((b'.' ∷ b't' ∷ b'm' ∷ b'p' ∷ b'-' ∷ [])
                ++ (decimal process_id ++ (b'-' ∷ decimal counter)))));
  }

  -- The closure in `save`: create the temporary file, write, sync, rename.
  unfoldable pub write_and_rename : FilePath → FilePath → Text → Step D
  write_and_rename path temp text =
      at_path temp (create_new temp)
      andthen at_path temp (write_all temp text)
      andthen at_path temp (sync_all temp)
      andthen at_path path (rename temp path)

  -- `if write_result.is_err() { let _ = fs::remove_file(&temp_path); }`.
  unfoldable pub clean_up : FilePath → Option StateStoreError × D → Option StateStoreError × D
  clean_up temp r = elim r.0 [ none ↦ (none, r.1) | some e ↦ (some e, (remove_file temp r.1).1) ]

  unfoldable pub save_text : FilePath → Text → World D → Option StateStoreError × World D
  save_text path text w =
      let temp = temp_path path w.temp_counter in
      let r = clean_up temp (write_and_rename path temp (text ++ (10 ∷ [])) w.disk) in
      (r.0, record { disk = r.1; temp_counter = (w.temp_counter + 1) % 2 ^ 64 })

  -- `acquire_lock`: the error, if any.
  unfoldable pub acquire_lock : FilePath → D → Option StateStoreError × D
  acquire_lock path d =
      let lock = lock_path path in
      let opened = open_lockfile lock d in
      let locked = try_lock_exclusive lock opened.1 in
      elim opened.0 [
        | some e ↦ (some (io lock.file_name e), opened.1)
        | none ↦ elim locked.0 [
          | none ↦ (none, locked.1)
          | some would_block ↦ (some (lock_held lock.file_name), locked.1)
          | some e ↦ (some (io lock.file_name e), locked.1)
        ]
      ]

  module _ {F : Type 0} (format : Json F) where
    -- `to_json_string`, then the file is written.
    unfoldable pub save : FilePath → StateSnapshot F → World D → Option StateStoreError × World D
    save path snapshot w = elim (validate snapshot) [
      | some e ↦ (some e, w)
      | none ↦ elim (format.to_string_pretty snapshot) [
        | none ↦ (some json, w)
        | some text ↦ save_text path text w
      ]
    ]

    unfoldable pub from_json_str : Text → LoadResult F
    from_json_str text = elim (format.from_str text) [
      | none ↦ load_failed json
      | some snapshot ↦ elim (validate snapshot) [
        | some e ↦ load_failed e
        | none ↦ loaded (some snapshot)
      ]
    ]

    unfoldable pub load : FilePath → D → LoadResult F
    load path d = elim (read_to_string path d) [
      | ok text ↦ from_json_str text
      | err not_found ↦ loaded none
      | err e ↦ load_failed (io path.file_name e)
    ]
