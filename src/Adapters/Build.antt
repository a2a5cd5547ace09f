-- ===== src/Adapters/Build.antt =====
-- From the configured sources and sinks to the adapters (crates/pid-ctl/src/app/adapters_build.rs).
use pid_ctl.Prelude.{ℕ, Option, none, some, unwrap_or, ◌>>=◌}
use pid_ctl.App.Snapshot.{IoError}
use pid_ctl.Float.{Float, nought}
use pid_ctl.App.StateStore.{Text, FilePath, IoResult, ok, err}
use pid_ctl.App.Records.{CvSink}
use pid_ctl.Cli.Args.{OnceFfSource, LoopFfSource, OncePvSource, LoopPvSource, CvSinkConfig, CvMode}
use pid_ctl.Adapters.Readers.{read_file_pv, read_cmd_pv}
use pid_ctl.Adapters.Writers.{
  FloatText, Outside, write_stdout_cv, write_dry_run, write_file_cv, write_cmd_cv,
}

-- A boxed PV source.
pub data PvAdapter : Type 0 where
  file : FilePath → PvAdapter
  cmd : Text → ℕ → PvAdapter
  stdin : ℕ → PvAdapter

unfoldable pub build_loop_pv_source : LoopPvSource → ℕ → ℕ → PvAdapter
build_loop_pv_source (LoopPvSource.file path) cmd_timeout stdin_timeout = PvAdapter.file path
build_loop_pv_source (LoopPvSource.cmd c) cmd_timeout stdin_timeout = PvAdapter.cmd c cmd_timeout
build_loop_pv_source LoopPvSource.stdin cmd_timeout stdin_timeout = PvAdapter.stdin stdin_timeout

unfoldable pub build_loop_ff_source : LoopFfSource → ℕ → Option PvAdapter
build_loop_ff_source LoopFfSource.zero_ff cmd_timeout = none
build_loop_ff_source (LoopFfSource.file path) cmd_timeout = some (PvAdapter.file path)
build_loop_ff_source (LoopFfSource.cmd c) cmd_timeout = some (PvAdapter.cmd c cmd_timeout)

module _ {F : Type 0} ⦃float : Float F⦄ where
  -- `.unwrap_or(0.0)`.
  abbrev pub or_nought : IoResult F → F
  or_nought (ok v) = v
  or_nought (err e) = nought

-- A sink that writes to what is outside, where `none` is a write that has not returned: the program
-- hangs there.
abbrev pub over : {F D : Type 0} → (F → D → Option (Option IoError × D)) → CvSink F (Option D)
over {F} {D} write = record { write_cv = write_over }
  where
    write_over : F → Option D → Option IoError × Option D
    write_over cv none = (none, none)
    write_over cv (some d) = elim (write cv d) [ none ↦ (none, none) | some r ↦ (r.0, some r.1) ]

module _ {F : Type 0} ⦃float : Float F⦄ (texts : FloatText F) {D : Type 0} where
  -- `resolve_pv` of crates/pid-ctl/src/cli/parse.rs; `none` if it does not return.
  unfoldable pub resolve_pv : Outside D → OncePvSource F → ℕ → D → Option (IoResult F × D)
  resolve_pv out (OncePvSource.literal v) timeout d = some (ok v, d)
  resolve_pv out (OncePvSource.file path) timeout d =
      some (read_file_pv texts.parse out.read_file path d, d)
  resolve_pv out (OncePvSource.cmd c) timeout d = read_cmd_pv texts.parse out.shell c timeout d

  unfoldable pub resolve_once_ff : Outside D → OnceFfSource F → ℕ → D → Option (F × D)
  resolve_once_ff out OnceFfSource.zero_ff timeout d = some (nought, d)
  resolve_once_ff out (OnceFfSource.literal v) timeout d = some (v, d)
  resolve_once_ff out (OnceFfSource.file path) timeout d =
      some (or_nought (read_file_pv texts.parse out.read_file path d), d)
  resolve_once_ff out (OnceFfSource.cmd c) timeout d =
      read_cmd_pv texts.parse out.shell c timeout d >>= λ q. some (or_nought q.0, q.1)

  unfoldable pub build_cv_sink : Outside D → CvSinkConfig → ℕ → ℕ → CvSink F (Option D)
  build_cv_sink out CvSinkConfig.stdout precision timeout =
      over (λ cv d. some (write_stdout_cv texts out precision cv d))
  build_cv_sink out (CvSinkConfig.file path verify) precision timeout = over (λ cv d. some (
      write_file_cv texts out (record { path = path; precision = precision; verify = verify }) cv
        d))
  build_cv_sink out (CvSinkConfig.cmd command own) precision timeout = over (
      write_cmd_cv texts out (record {
        command_template = command;
        timeout = unwrap_or own timeout;
        precision = precision;
      }))

  unfoldable pub build_cv_mode_sink : Outside D → CvMode → ℕ → ℕ → CvSink F (Option D)
  build_cv_mode_sink out CvMode.dry_run precision timeout =
      over (λ cv d. some (write_dry_run texts out cv d))
  build_cv_mode_sink out (CvMode.sink c) precision timeout = build_cv_sink out c precision timeout
