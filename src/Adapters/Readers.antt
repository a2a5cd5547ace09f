-- ===== src/Adapters/Readers.antt =====
-- The PV sources of crates/pid-ctl/src/adapters/mod.rs. How `f64` is read from a text is the parameter
-- `parse`; the error kinds that nothing asks for are told apart by their names.
use pid_ctl.Prelude.{
  ℕ, Bool, Option, none, some, [], ◌∷◌, if◌then◌else◌, leb, ◌==◌, ◌&&◌, ◌||◌, ◌>>=◌,
}
use mathlib.Core.List.{reverse}
use pid_ctl.App.Snapshot.{IoError, other}
use pid_ctl.App.StateStore.{Text, FilePath, IoResult, ok, err}
use pid_ctl.Adapters.Process.{
  Started, Shell, Waited, if_ends, kill_and_drain, exited, timed_out, wait_failed,
  wait_child_deadline,
}

-- `char::is_whitespace`.
unfoldable pub is_whitespace : ℕ → Bool
is_whitespace c =
    (leb 9 c && leb c 13)
    || c == 32
    || c == 133
    || c == 160
    || c == 5760
    || (leb 8192 c && leb c 8202)
    || c == 8232
    || c == 8233
    || c == 8239
    || c == 8287
    || c == 12288

unfoldable pub trim_start : Text → Text
trim_start [] = []
trim_start (c ∷ cs) = let rest = trim_start cs in if is_whitespace c then rest else c ∷ cs

unfoldable pub trim : Text → Text
trim s = reverse (trim_start (reverse (trim_start s)))

abbrev pub invalid_data : IoError
invalid_data = other "invalid data"

abbrev pub timed_out_error : IoError
timed_out_error = other "timed out"

-- What the channel of the stdin thread has within the timeout.
pub data Received : Type 0 where
  line : IoResult Text → Received
  no_line disconnected : Received

module _ {F : Type 0} (parse : Text → Option F) where
  -- `.trim().parse::<f64>()`.
  unfoldable pub number_in : Text → IoResult F
  number_in s = elim (parse (trim s)) [ none ↦ err invalid_data | some v ↦ ok v ]

  -- `FilePvSource::read_pv`, given `fs::read_to_string`.
  unfoldable pub read_file_pv :
      {D : Type 0} → (FilePath → D → IoResult Text) → FilePath → D → IoResult F
  read_file_pv read path d = elim (read path d) [ err e ↦ err e | ok content ↦ number_in content ]

  -- `CmdPvSource::read_pv`, from the end of the wait on; `none` is a reader thread that does not end.
  unfoldable pub after_wait : Started → Waited → Option (IoResult F)
  after_wait p (wait_failed e) = some (err e)
  after_wait p timed_out = kill_and_drain p >>= λ u. some (err timed_out_error)
  after_wait p (exited status) = if_ends p.closes (elim p.output [
    | err e ↦ err e
    | ok s ↦ if status then number_in s else err (other "failed")
  ])

  -- `CmdPvSource::read_pv`; `none` if it does not return.
  unfoldable pub read_cmd_pv : {D : Type 0} → Shell D → Text → ℕ → D → Option (IoResult F × D)
  read_cmd_pv sh command timeout d =
      let (started, d') = sh.spawn command d in
      elim started [
        | err e ↦ some (err e, d')
        | ok p ↦ wait_child_deadline p.child timeout >>= λ w. after_wait p w >>= λ r. some (r, d')
      ]

  -- `StdinPvSource::read_pv`.
  unfoldable pub read_stdin_pv : Received → IoResult F
  read_stdin_pv (line (ok s)) = elim (trim s) [
    | [] ↦ err (other "unexpected end of file")
    | c ∷ cs ↦ elim (parse (c ∷ cs)) [ none ↦ err invalid_data | some v ↦ ok v ]
  ]
  read_stdin_pv (line (err e)) = err e
  read_stdin_pv no_line = err timed_out_error
  read_stdin_pv disconnected = err (other "broken pipe")
