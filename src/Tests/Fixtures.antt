-- ===== src/Tests/Fixtures.antt =====
-- Test data: numbers, configurations, a disk in memory, a codec, an actuator.
use pid_ctl.Prelude.{
  sym, Bool-cases, inl, inr, Option-cases, ℕ, ◌+◌, ◌*◌, ◌≡◌, ◌≢◌, arith, refl, Bool, true, false,
  Option, none, some, [], ◌∷◌, ◌++◌, if◌then◌else◌, ◌==◌, ◌&&◌,
}
use pid_ctl.Prelude.Int.{pos}
use pid_ctl.Float.Fixed.{Fixed, fin, fixed_float}
use pid_ctl.Core.Config.{PidConfig, AntiWindupStrategy}
use pid_ctl.Core.Controller.{PidController, StepInput}
use pid_ctl.App.Snapshot.{StateSnapshot, not_found, other}
use pid_ctl.App.StateStore.{Text, FilePath, Files, Json, World, ok, err}
use pid_ctl.App.StateStore.Atomic.{IsPosix}
use pid_ctl.App.Records.{CvSink, Readings, SessionConfig, ControllerSession}
use pid_ctl.App.Persister.{SnapshotPersister}

abbrev pub num : ℕ → Fixed
num n = fin (pos (n * 1000))

abbrev pub thousandths : ℕ → Fixed
thousandths n = fin (pos n)

-- A PI controller with output limits 0 to 100 and a setpoint of 50.
abbrev pub pi_config : PidConfig Fixed
pi_config = record {
  setpoint = num 50;
  kp = num 2;
  ki = num 1;
  kd = num 0;
  out_min = num 0;
  out_max = num 100;
  deadband = num 0;
  setpoint_ramp = none;
  slew_rate = none;
  pv_filter_alpha = num 0;
  anti_windup = AntiWindupStrategy.back_calculation;
  anti_windup_tt = none;
  tt_upper_bound = none;
  feedforward_gain = num 0;
}

-- The same with a slew rate of 10 per second.
abbrev pub slewed_config : PidConfig Fixed
slewed_config = record pi_config { slew_rate = some (num 10) }

abbrev pub pid_config : PidConfig Fixed
pid_config = record pi_config { kd = num 1 }

abbrev pub controller_of : PidConfig Fixed → PidController Fixed
controller_of config = record {
  config = config;
  i_acc = num 0;
  last_pv = none;
  last_error = none;
  last_cv = none;
  effective_sp = none;
  next_d_term_skip_reason = none;
}

abbrev pub input_at : ℕ → ℕ → ℕ → StepInput Fixed
input_at pv dt prev = record { pv = num pv; dt = num dt; prev_applied_cv = num prev; ff = num 0 }

-- A disk is what each path holds.
abbrev pub Disk : Type 0
Disk = FilePath → Option Text

text_eq : Text → Text → Bool
text_eq [] [] = true
text_eq (x ∷ xs) (y ∷ ys) = (x == y) && text_eq xs ys
text_eq _ _ = false

name_eq : Option Text → Option Text → Bool
name_eq none none = true
name_eq (some x) (some y) = text_eq x y
name_eq _ _ = false

path_eq : FilePath → FilePath → Bool
path_eq p q = name_eq p.parent q.parent && name_eq p.file_name q.file_name

text_eq_refl : (x : Text) → text_eq x x ≡ true
unfolding text_eq
text_eq_refl [] = refl
text_eq_refl (x ∷ xs) = ground (arith, text_eq_refl xs)

text_eq→≡ : (x y : Text) → text_eq x y ≡ true → x ≡ y
unfolding text_eq
text_eq→≡ [] [] e = refl
text_eq→≡ (x ∷ xs) (y ∷ ys) e = ground (arith, text_eq→≡ xs ys)
text_eq→≡ [] (y ∷ ys) e = ground arith
text_eq→≡ (x ∷ xs) [] e = ground arith

name_eq→≡ : (x y : Option Text) → name_eq x y ≡ true → x ≡ y
unfolding name_eq
name_eq→≡ none none e = refl
name_eq→≡ (some x) (some y) e = ground (arith, text_eq→≡ x y)
name_eq→≡ none (some y) e = ground arith
name_eq→≡ (some x) none e = ground arith

name_eq_refl : (x : Option Text) → name_eq x x ≡ true
unfolding name_eq
name_eq_refl none = refl
name_eq_refl (some x) = text_eq_refl x

path_eq_refl : (p : FilePath) → path_eq p p ≡ true
unfolding path_eq
path_eq_refl p = ground (arith, name_eq_refl p.parent, name_eq_refl p.file_name)

path_eq→≡ : (p q : FilePath) → path_eq p q ≡ true → p ≡ q
unfolding path_eq
path_eq→≡ p q e =
    let parents = name_eq→≡ p.parent q.parent (ground arith) in
    let names = name_eq→≡ p.file_name q.file_name (ground arith) in
    λ i. record { parent = parents i; file_name = names i }

path_eq_of_ne : (p q : FilePath) → q ≢ p → path_eq p q ≡ false
path_eq_of_ne p q h = elim (Bool-cases (path_eq p q)) [
  | inl same ↦ absurd (h (sym (path_eq→≡ p q same)))
  | inr differ ↦ differ
]

pub put : FilePath → Option Text → Disk → Disk
put p v d q = if path_eq p q then v else d q

unfoldable pub disk_files : Files Disk
unfolding put path_eq name_eq text_eq
disk_files = record {
  read_to_string = λ p d. elim (d p) [ none ↦ err not_found | some t ↦ ok t ];
  create_new = λ p d. elim (d p) [
    | some t ↦ (some (other "file exists"), d)
    | none ↦ (none, put p (some []) d)
  ];
  write_all = λ p t d. elim (d p) [
    | none ↦ (some not_found, d)
    | some old ↦ (none, put p (some (old ++ t)) d)
  ];
  sync_all = λ p d. (none, d);
  rename = λ p q d. elim (d p) [
    | none ↦ (some not_found, d)
    | some t ↦ (none, put q (some t) (put p none d))
  ];
  remove_file = λ p d. (none, put p none d);
  open_lockfile = λ p d. (none, d);
  try_lock_exclusive = λ p d. (none, d);
  process_id = 7;
  decimal = λ n. (n + 48) ∷ [];
}

put_same : (p : FilePath) (v : Option Text) (d : Disk) → put p v d p ≡ v
unfolding put
put_same p v d = ground (arith, path_eq_refl p)

put_other : (p q : FilePath) (v : Option Text) (d : Disk) → q ≢ p → put p v d q ≡ d q
unfolding put
put_other p q v d h = ground (arith, path_eq_of_ne p q h)

pub disk-IsPosix : IsPosix disk_files
unfolding disk_files put
disk-IsPosix = record {
  content = λ d p. d p;
  create_others = λ p q d h. elim (Option-cases (d p)) [
    | inl free ↦ ground (arith, put_other p q (some []) d h)
    | inr (t, held) ↦ ground arith
  ];
  create_empty = λ p d e. elim (Option-cases (d p)) [
    | inl free ↦ ground (arith, put_same p (some []) d)
    | inr (t, held) ↦ ground arith
  ];
  write_others = λ p q t d h. elim (Option-cases (d p)) [
    | inl free ↦ ground arith
    | inr (old, held) ↦ ground (arith, put_other p q (some (old ++ t)) d h)
  ];
  write_text = λ p t d h e. ground (arith, put_same p (some t) d);
  sync_all_files = λ p q d. refl;
  rename_moves = λ p q d e. elim (Option-cases (d p)) [
    | inl free ↦ ground arith
    | inr (t, held) ↦ ground (arith, put_same q (some t) (put p none d))
  ];
  rename_fails = λ p q r d h. ground arith;
  remove_others = λ p q d h. put_other p q none d h;
  read_content = λ p t d e. ground arith;
  read_missing = λ p d e. ground arith;
}

-- A codec that keeps the integral, in thousandths, and the iteration count.
abbrev pub snapshot_of : ℕ → ℕ → StateSnapshot Fixed
snapshot_of i n = record {
  schema_version = 1;
  name = none;
  kp = none;
  ki = none;
  kd = none;
  setpoint = none;
  out_min = none;
  out_max = none;
  effective_sp = none;
  target_sp = none;
  i_acc = thousandths i;
  last_error = none;
  last_cv = none;
  last_pv = none;
  iter = n;
  created_at = none;
  updated_at = none;
}

print : StateSnapshot Fixed → Option Text
print s = elim s.i_acc [ fin (pos i) ↦ some (i ∷ s.iter ∷ []) | _ ↦ none ]

parse : Text → Option (StateSnapshot Fixed)
parse (i ∷ n ∷ rest) = some (snapshot_of i n)
parse _ = none

unfoldable pub codec : Json Fixed
unfolding print parse
codec = record { to_string_pretty = print; from_str = parse }

abbrev pub state_path : FilePath
state_path = record { parent = some (b'd' ∷ []); file_name = some (b's' ∷ []) }

abbrev pub empty_disk : Disk
empty_disk = λ p. none

abbrev pub empty_world : World Disk
empty_world = record { disk = empty_disk; temp_counter = 0 }

-- An actuator that takes what is at most its limit, which is its state.
unfoldable pub valve : CvSink Fixed Fixed
unfolding fixed_float
valve = record {
  write_cv =
      λ v limit. if fixed_float.le v limit then (none, limit) else (some (other "stuck"), limit);
}

abbrev pub readings : Readings
readings = record {
  created_at = "a";
  updated_at = "b";
  record_ts = "c";
  before_write = 5;
  after_write = 6;
}

abbrev pub persister : SnapshotPersister
persister = record {
  store = some state_path;
  lock = some state_path;
  flush_interval = none;
  last_flush = none;
  fail_count = 0;
  fail_after = 3;
}

abbrev pub session_of : PidConfig Fixed → ControllerSession Fixed
session_of config = record {
  controller = controller_of config;
  snapshot = snapshot_of 0 0;
  persister = persister;
}

abbrev pub session_config : PidConfig Fixed → Bool → SessionConfig Fixed
session_config config reset = record {
  name = some "loop";
  pid = config;
  state_store = some state_path;
  reset_accumulator = reset;
  flush_interval = none;
  state_fail_after = 3;
}
