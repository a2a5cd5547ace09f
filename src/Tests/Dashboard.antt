-- ===== src/Tests/Dashboard.antt =====
-- The plots and the suggestions of the dashboard on concrete inputs.
use pid_ctl.Prelude.{◌≡◌, refl, arith, none, some, [], ◌∷◌, All}
use pid_ctl.Float.Fixed.{Fixed, fixed_float}
use pid_ctl.Tune.Model.{TuneUiState, push_history, note_gain_change}
use pid_ctl.Tune.Model.History.{IsCharted, Pushed, Spaced, last_serials, push_history-Pushed}
use pid_ctl.Tune.Model.Gains.{Noted, note_gain_change-Noted}
use pid_ctl.Tune.Distance.{Chars}
use pid_ctl.Tune.Suggest.{command_mode_words, fuzzy_command_names}
use pid_ctl.Tune.Suggest.Close.{Suggested, fuzzy_command_names-Suggested}
use pid_ctl.Tests.Fixtures.{num, pi_config}

-- A full history of two ticks, with a change of a gain at the first.
abbrev two_ticks : TuneUiState Fixed
two_ticks = record {
  plots = record {
    pv_history = num 40 ∷ num 41 ∷ [];
    cv_history = num 10 ∷ num 11 ∷ [];
    sp_history = num 50 ∷ num 50 ∷ [];
    serial_history = 1 ∷ 2 ∷ [];
  };
  tick_serial = 2;
  annotations =
      record { marker_tick = 1; kp = some (num 1, num 2); ki = none; kd = none; sp = none } ∷ [];
  spark_w = 1;
  last_kp = num 3;
  last_ki = num 1;
  last_kd = num 0;
  last_sp = num 50;
}

two_ticks-IsCharted : IsCharted two_ticks
unfolding last_serials Spaced
two_ticks-IsCharted = record {
  cv = refl;
  sp = refl;
  serial = refl;
  spaced = (omega arith, omega arith, tt);
}

push_history-Pushed_example :
    (ui' : TuneUiState Fixed) × (push_history 2 (num 42) (num 12) (num 50) two_ticks ≡ some ui')
    × Pushed 2 (num 42) (num 12) (num 50) two_ticks ui'
push_history-Pushed_example =
    push_history-Pushed 2 (num 42) (num 12) (num 50) two_ticks (omega arith) (omega arith)
      two_ticks-IsCharted

note_gain_change-Noted_example : Noted pi_config two_ticks (note_gain_change pi_config two_ticks)
note_gain_change-Noted_example = note_gain_change-Noted pi_config two_ticks two_ticks-IsCharted

-- What is typed, and the command that is meant.
abbrev olt : Chars
olt = b'o' ∷ b'l' ∷ b't' ∷ []

fuzzy_command_names-Suggested_example :
    All (Suggested command_mode_words (b'b' ∷ olt)) (fuzzy_command_names (b'b' ∷ olt))
fuzzy_command_names-Suggested_example = fuzzy_command_names-Suggested (b'b' ∷ olt)
