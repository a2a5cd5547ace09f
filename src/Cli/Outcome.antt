-- ===== src/Cli/Outcome.antt =====
-- What resolving the command line ends in. An error is named for its message
-- (crates/pid-ctl/src/cli/parse.rs and raw.rs).
use pid_ctl.Prelude.{ℕ, ◌≡◌, refl, subst, Bool, true, false, Option, none, some}
use pid_ctl.Float.{Float}
use pid_ctl.Autotune.{AutotuneError}
use pid_ctl.App.Snapshot.{StateStoreError}

pub data CliError : Type 0 where
  bad_anti_windup one_cv_sink one_pv_source one_ff_source : CliError
  pv_stdin_only_loop literal_pv_only_once ff_value_only_once tune_only_loop : CliError
  pipe_reads_stdin pipe_writes_stdout pipe_dry_run pipe_tune pipe_json : CliError
  pv_source_required cv_sink_required interval_required setpoint_required : CliError
  json_and_cv_stdout tune_and_json tune_and_quiet tune_and_pv_stdin tune_needs_tty : CliError
  state_required status_source_required diff_and_output_log duration_too_short : CliError
  not_a_duration not_a_float : CliError
  bad_autotune : AutotuneError → CliError
  state_error : StateStoreError → CliError

-- `Result<_, CliError>`, or a panic.
pub data CliResult (A : Type 0) : Type 0 where
  ok : A → CliResult A
  failed : CliError → CliResult A
  panics : CliResult A

infixl 5 ◌>>=◌ ◌>>◌
abbrev pub ◌>>=◌ : {A B : Type 0} → CliResult A → (A → CliResult B) → CliResult B
ok a >>= f = f a
failed e >>= f = failed e
panics >>= f = panics

abbrev pub ◌>>◌ : {B : Type 0} → CliResult (Unit {0}) → CliResult B → CliResult B
m >> k = m >>= λ _. k

-- `if test { return Err(e); }`.
abbrev pub reject : Bool → CliError → CliResult (Unit {0})
reject true e = failed e
reject false e = ok tt

-- `ok_or_else(|| e)?`.
abbrev pub required : {A : Type 0} → Option A → CliError → CliResult A
required none e = failed e
required (some a) e = ok a

-- A call that panics where it has no result.
abbrev pub returned : {A : Type 0} → Option A → CliResult A
returned none = panics
returned (some a) = ok a

module _ {F : Type 0} ⦃float : Float F⦄ where
  -- `.map(Duration::from_secs_f64)`.
  abbrev pub seconds : Option F → CliResult (Option ℕ)
  seconds none = ok none
  seconds (some s) = returned (float.from_secs s) >>= λ d. ok (some d)

  -- `.map_or(d, Duration::from_secs_f64)`.
  abbrev pub seconds_or : Option F → ℕ → CliResult ℕ
  seconds_or none d = ok d
  seconds_or (some s) d = returned (float.from_secs s)

-- `P` holds of the result, if there is one.
abbrev pub Ensures {ℓ} : {A : Type 0} → (A → Type ℓ) → CliResult A → Type ℓ
Ensures P (ok a) = P a
Ensures P (failed e) = Unit
Ensures P panics = Unit

pub >>=-Ensures {ℓ} :
    {A B : Type 0} (P : B → Type ℓ) (m : CliResult A) (f : A → CliResult B)
    → ((a : A) → m ≡ ok a → Ensures P (f a))
    → Ensures P (m >>= f)
>>=-Ensures P (ok a) f h = h a refl
>>=-Ensures P (failed e) f h = tt
>>=-Ensures P panics f h = tt

pub eq-ok-Ensures {ℓ} :
    {A : Type 0} (P : A → Type ℓ) (m : CliResult A) (a : A) → m ≡ ok a → Ensures P m → P a
eq-ok-Ensures P m a e h = subst (Ensures P) e h
