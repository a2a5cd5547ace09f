-- ===== src/Cli/Sources/Exclusive.antt =====
-- A command takes one source of each kind: the counts and the chains of `if` of raw.rs and parse.rs
-- against the list of what the flags name.
use pid_ctl.Prelude.{
  ◌≡◌, refl, arith, Bool, true, false, Option, none, some, List, [], ◌∷◌, ◌++◌, map, if◌then◌else◌,
  is_some,
}
use pid_ctl.Cli.Outcome.{
  CliError, CliResult, ok, failed, ◌>>=◌, one_cv_sink, one_pv_source, one_ff_source,
  pv_stdin_only_loop, literal_pv_only_once, ff_value_only_once,
}
use pid_ctl.Cli.Raw.{CvSinkRawArgs, OncePvRawArgs, LoopPvRawArgs, FfRawArgs}
use pid_ctl.Cli.Args.{OnceFfSource, LoopFfSource, OncePvSource, LoopPvSource, CvSinkConfig}
use pid_ctl.Cli.Sources.{
  to_cv_sink_config, to_once_pv_source, first_once_source, to_loop_pv_source, first_loop_source,
  parse_once_ff_source, parse_loop_ff_source,
}

-- The only one of a list, if there are not several.
abbrev pub at_most_one : {A : Type 0} → CliError → List A → CliResult (Option A)
at_most_one e [] = ok none
at_most_one e (x ∷ []) = ok (some x)
at_most_one e (x ∷ y ∷ xs) = failed e

abbrev pub of_option : {A B : Type 0} → (A → B) → Option A → List B
of_option f none = []
of_option f (some a) = f a ∷ []

abbrev pub of_flag : {A : Type 0} → Bool → A → List A
of_flag true a = a ∷ []
of_flag false a = []

-- The sinks that the flags name.
abbrev pub named_sinks : CvSinkRawArgs → List CvSinkConfig
named_sinks a =
    of_flag a.cv_stdout CvSinkConfig.stdout
    ++ (of_option (λ path. CvSinkConfig.file path false) a.cv_file
        ++ of_option (λ command. CvSinkConfig.cmd command none) a.cv_cmd)

abbrev pub or_zero : {A : Type 0} → A → Option A → A
or_zero z none = z
or_zero z (some a) = a

module _ {F : Type 0} where
  abbrev pub named_once : OncePvRawArgs F → List (OncePvSource F)
  named_once a =
      map OncePvSource.literal a.pv
      ++ (of_option OncePvSource.file a.pv_file ++ of_option OncePvSource.cmd a.pv_cmd)

  abbrev pub named_loop : LoopPvRawArgs F → List LoopPvSource
  named_loop a =
      of_option LoopPvSource.file a.pv_file
      ++ (of_option LoopPvSource.cmd a.pv_cmd ++ of_flag a.pv_stdin LoopPvSource.stdin)

  abbrev pub named_once_ff : FfRawArgs F → List (OnceFfSource F)
  named_once_ff a =
      of_option OnceFfSource.literal a.value
      ++ (of_option OnceFfSource.file a.from_file ++ of_option OnceFfSource.cmd a.cmd)

  abbrev pub named_loop_ff : FfRawArgs F → List LoopFfSource
  named_loop_ff a = of_option LoopFfSource.file a.from_file ++ of_option LoopFfSource.cmd a.cmd

cv_sink_exclusive :
    (a : CvSinkRawArgs) → to_cv_sink_config a ≡ at_most_one one_cv_sink (named_sinks a)
unfolding to_cv_sink_config
cv_sink_exclusive a = ground arith

module _ {F : Type 0} where
  once_pv_exclusive :
      (a : OncePvRawArgs F) (vs : List F)
      → a.pv ≡ vs
      → to_once_pv_source a ≡ (
          if a.pv_stdin
          then failed pv_stdin_only_loop
          else at_most_one one_pv_source (named_once a))
  unfolding to_once_pv_source first_once_source
  once_pv_exclusive a [] e = ground arith
  once_pv_exclusive a (v ∷ []) e = ground arith
  once_pv_exclusive a (v ∷ w ∷ vs) e = ground arith

  loop_pv_exclusive :
      (a : LoopPvRawArgs F)
      → to_loop_pv_source a ≡ (
          if is_some a.pv
          then failed literal_pv_only_once
          else at_most_one one_pv_source (named_loop a))
  unfolding to_loop_pv_source first_loop_source
  loop_pv_exclusive a = ground arith

  once_ff_exclusive :
      (a : FfRawArgs F)
      → parse_once_ff_source a
        ≡ (at_most_one one_ff_source (named_once_ff a) >>= λ s. ok (or_zero OnceFfSource.zero_ff s))
  unfolding parse_once_ff_source
  once_ff_exclusive a = ground arith

  loop_ff_exclusive :
      (a : FfRawArgs F)
      → parse_loop_ff_source a ≡ (
          if is_some a.value
          then failed ff_value_only_once
          else at_most_one one_ff_source (named_loop_ff a) >>= λ s.
              ok (or_zero LoopFfSource.zero_ff s))
  unfolding parse_loop_ff_source
  loop_ff_exclusive a = ground arith

  -- Of the sinks, the PV sources and the feed-forward sources that the flags name, in any number:
  -- one is taken, none is reported as none (as a feed-forward of zero), and several are an error.
  -- Before that, `once` refuses stdin, and `loop` a literal PV and a literal feed-forward.
  pub sources_exclusive :
      (a : CvSinkRawArgs) (b : OncePvRawArgs F) (c : LoopPvRawArgs F) (f : FfRawArgs F)
      → (to_cv_sink_config a ≡ at_most_one one_cv_sink (named_sinks a))
        × (to_once_pv_source b ≡ (
            if b.pv_stdin
            then failed pv_stdin_only_loop
            else at_most_one one_pv_source (named_once b)))
        × (to_loop_pv_source c ≡ (
            if is_some c.pv
            then failed literal_pv_only_once
            else at_most_one one_pv_source (named_loop c)))
        × (parse_once_ff_source f ≡ (
            at_most_one one_ff_source (named_once_ff f) >>= λ s.
            ok (or_zero OnceFfSource.zero_ff s)))
        × (parse_loop_ff_source f ≡ (
            if is_some f.value
            then failed ff_value_only_once
            else at_most_one one_ff_source (named_loop_ff f) >>= λ s.
                ok (or_zero LoopFfSource.zero_ff s)))
  sources_exclusive a b c f = (
    cv_sink_exclusive a,
    once_pv_exclusive b b.pv refl,
    loop_pv_exclusive c,
    once_ff_exclusive f,
    loop_ff_exclusive f,
  )
