-- ===== src/Adapters/Writers.antt =====
-- The CV sinks of crates/pid-ctl/src/adapters/mod.rs. Formatting and reading a number, and
-- `powi`, are `FloatText`; what is written to is the parameter `Outside`.
pub mod Verify
use pid_ctl.Prelude.{ℕ, Bool, Option, none, some, [], ◌∷◌, ◌++◌, if◌then◌else◌, ◌>>=◌}
use pid_ctl.Float.{Float, one, ge}
use pid_ctl.App.Snapshot.{IoError, other}
use pid_ctl.App.StateStore.{Text, FilePath, IoResult, ok, err}
use pid_ctl.Adapters.Process.{
  Started, Shell, Waited, if_ends, kill_and_drain, exited, timed_out, wait_failed,
  wait_child_deadline,
}
use pid_ctl.Adapters.Readers.{number_in, invalid_data, timed_out_error}
use pid_ctl.Adapters.Command.{build_command}

pub record FloatText (F : Type 0) : Type 0 where
  -- `{v:.prec$}`.
  pub display : ℕ → F → Text
  -- `str::parse::<f64>`.
  pub parse : Text → Option F
  -- `10_f64.powi(n)`.
  pub power_of_ten : ℕ → F

-- The world that the sinks write to.
pub record Outside (D : Type 0) : Type 0 where
  -- `writeln!` on stdout.
  pub write_line : Text → D → Option IoError × D
  -- `fs::write`, which makes the file or empties it.
  pub write_file : FilePath → Text → D → Option IoError × D
  pub read_file : FilePath → D → IoResult Text
  pub shell : Shell D

pub record FileCvSink : Type 0 where
  pub path : FilePath
  pub precision : ℕ
  pub verify : Bool

pub record CmdCvSink : Type 0 where
  pub command_template : Text
  pub timeout : ℕ
  pub precision : ℕ

-- What `CmdCvSink::write_cv` returns after the wait; `none` is a reading of stderr that does not end.
unfoldable pub delivered : Started → Waited → Option (Option IoError)
delivered p (wait_failed e) = some (some e)
delivered p timed_out = kill_and_drain p >>= λ u. some (some timed_out_error)
delivered p (exited status) = if_ends p.closes (if status then none else some (other "failed"))

module _ {F : Type 0} ⦃float : Float F⦄ (texts : FloatText F) {D : Type 0} (out : Outside D) where
  open float use {minus, times, round, abs}

  -- `StdoutCvSink::write_cv`.
  unfoldable pub write_stdout_cv : ℕ → F → D → Option IoError × D
  write_stdout_cv precision cv d = out.write_line (texts.display precision cv) d

  -- `DryRunCvSink::write_cv`.
  unfoldable pub write_dry_run : F → D → Option IoError × D
  write_dry_run cv d = (none, d)

  -- The comparison with what is read back.
  unfoldable pub matches : ℕ → F → F → Option IoError
  matches precision cv readback =
      let scale = texts.power_of_ten precision in
      if ge (abs (minus (round (times cv scale)) (round (times readback scale)))) one
      then some invalid_data
      else none

  unfoldable pub read_back : FileCvSink → F → D → Option IoError
  read_back s cv d = elim (out.read_file s.path d) [
    | err e ↦ some e
    | ok content ↦ elim (number_in texts.parse content) [
      | err e ↦ some e
      | ok v ↦ matches s.precision cv v
    ]
  ]

  -- `FileCvSink::write_cv`.
  unfoldable pub write_file_cv : FileCvSink → F → D → Option IoError × D
  write_file_cv s cv d =
      let (e, d') = out.write_file s.path (texts.display s.precision cv ++ (10 ∷ [])) d in
      elim e [ some e' ↦ (some e', d') | none ↦ (if s.verify then read_back s cv d' else none, d') ]

  -- `CmdCvSink::write_cv`; `none` if it does not return.
  unfoldable pub write_cmd_cv : CmdCvSink → F → D → Option (Option IoError × D)
  write_cmd_cv s cv d =
      let (started, d') =
        out.shell.spawn (build_command s.command_template (texts.display s.precision cv)) d in
      elim started [
        | err e ↦ some (some e, d')
        | ok p ↦ wait_child_deadline p.child s.timeout >>= λ w. delivered p w >>= λ r. some (r, d')
      ]
