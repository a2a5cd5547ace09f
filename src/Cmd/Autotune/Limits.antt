-- ===== src/Cmd/Autotune/Limits.antt =====
-- The limits that the command line sets hold for every output of `autotune`.
use pid_ctl.Prelude.{ℕ, ◌≡◌, arith, Bool, none, some, All, min}
use pid_ctl.Float.{Float, IsIeee, as_secs}
use pid_ctl.Autotune.{AutotuneConfig, validate}
use pid_ctl.App.StateStore.{Files, Json, World}
use pid_ctl.Adapters.Writers.{FloatText, Outside}
use pid_ctl.Cli.Args.{AutotuneArgs}
use pid_ctl.Cli.Outcome.{
  ok, Ensures, >>=-Ensures, eq-ok-Ensures, reject, seconds_or, duration_too_short,
}
use pid_ctl.Cli.Raw.{AutotuneRawArgs}
use pid_ctl.Cli.Commands.{parse_autotune, validated, in_seconds}
use pid_ctl.Cmd.Once.{Exit}
use pid_ctl.Cmd.Autotune.Warmup.{InLimits, IsNumeric}
use pid_ctl.Cmd.Autotune.Safe.{run_autotune-Safe}
use pid_ctl.Cmd.Autotune.{Round, TuneState, config_of, run_autotune}

module _ {F : Type 0} ⦃float : Float F⦄ where
  validated-ok : (c : AutotuneConfig F) (u : Unit {0}) → validated c ≡ ok u → validate c ≡ none
  unfolding validated
  validated-ok c u e = ground arith

  -- Accepted arguments have a valid configuration.
  parse_autotune-Ensures :
      (raw : AutotuneRawArgs F) → Ensures (λ a. validate (config_of a) ≡ none) (parse_autotune raw)
  unfolding parse_autotune
  parse_autotune-Ensures raw =
      let P = λ (a : AutotuneArgs F). validate (config_of a) ≡ none in
      >>=-Ensures P (reject (float.lt (as_secs raw.duration) (float.lit 10 1)) duration_too_short) _
        λ u _. >>=-Ensures P (seconds_or raw.cmd_timeout (min raw.interval (in_seconds 5))) _ λ t _.
          >>=-Ensures P
            (validated (record {
              bias = raw.bias;
              amp = raw.amp;
              out_min = raw.out_min;
              out_max = raw.out_max;
            }))
            _ λ u' v. validated-ok _ u' v

-- With the arguments that the command line accepts, if their limits and the two outputs of the relay
-- are numbers: every output that a run of `autotune` which ends has handed to the sink, in the warmup
-- and in the relay loop, whatever the process does, is within the limits.
pub autotune_within_limits :
    {F : Type 0} ⦃float : Float F⦄ (laws : IsIeee F) (texts : FloatText F) {S D : Type 0}
    (out : Outside S) (files : Files D) (format : Json F) (raw : AutotuneRawArgs F)
    (a : AutotuneArgs F) (as_usize : F → ℕ) (stops : ℕ → Bool) (rounds : ℕ → Round) (begun now : ℕ)
    (prints : Bool) (fuel : ℕ) (b : S) (w : World D) (q : Exit × TuneState F S × World D)
    → parse_autotune raw ≡ ok a
    → IsNumeric (config_of a)
    → run_autotune texts out a files format as_usize stops rounds begun now prints fuel b w ≡ some q
    → All (InLimits (config_of a)) q.1.outputs
autotune_within_limits laws texts out files format raw a as_usize stops rounds begun now prints fuel
      b w q accepted numeric ran =
    let valid =
      eq-ok-Ensures (λ z. validate (config_of z) ≡ none) (parse_autotune raw) a accepted
        (parse_autotune-Ensures raw) in
    run_autotune-Safe laws texts out a valid numeric files format as_usize stops rounds begun now
      prints fuel b w ran
