-- ===== src/Tests/Outside.antt =====
-- The adapters and `purge` on concrete inputs.
use pid_ctl.Prelude.{
  subst, ap, ℕ, zero, suc, ◌+◌, ◌*◌, ◌/◌, ◌^◌, ◌≤◌, ◌<◌, ◌≡◌, ◌≢◌, ◌⊎◌, refl, arith, false, true,
  Option, none, some, List, [], ◌∷◌, All,
}
use pid_ctl.Float.Fixed.{Fixed, fixed_float, Fixed-IsIeee}
use pid_ctl.App.Snapshot.{StateSnapshot, IoError, not_found, validate}
use pid_ctl.App.StateStore.{
  Text, IoResult, Json, World, load, loaded, ok, err, acquire_lock, lock_path, save, save_text,
  write_and_rename, ◌andthen◌, at_path, clean_up, temp_path, from_json_str,
}
use pid_ctl.Adapters.Command.{percent_encode, build_command}
use pid_ctl.Adapters.Command.Encoding.{percent_decode, IsSafeByte, percent_encode_lem}
use pid_ctl.Adapters.Command.Template.{Piece, written, filled, build_command-filled}
use pid_ctl.Adapters.Ends.{IsTimed, IsClosing, IsPrompt}
use pid_ctl.Adapters.Process.{Started, Child, Poll, Waited, wait_child_deadline, poll_sleep}
use pid_ctl.Adapters.Process.Wait.{Decided, wait_child_deadline-Returns}
use pid_ctl.Adapters.Readers.{number_in}
use pid_ctl.Adapters.Writers.{FloatText, Outside, FileCvSink, write_file_cv, read_back, matches}
use pid_ctl.Adapters.Writers.Verify.{HoldsOutput, verified_write}
use pid_ctl.Cmd.State.{purged, run_purge}
use pid_ctl.Cmd.State.Purge.{IsPurgeOf, purge_keeps_configuration}
use pid_ctl.Tests.Fixtures.{
  Disk, disk_files, disk-IsPosix, put, state_path, empty_disk, num, snapshot_of,
}

-- The text 7 5 / é, of which the last is two bytes.
abbrev bytes : Text
bytes = b'7' ∷ b'/' ∷ 195 ∷ 169 ∷ []

percent_encode_lem_example :
    (percent_decode (percent_encode bytes) ≡ bytes) × All IsSafeByte (percent_encode bytes)
percent_encode_lem_example = percent_encode_lem bytes (omega arith)

-- set {cv} {cv:url}
abbrev pieces : List Piece
pieces =
    Piece.plain (b's' ∷ b'e' ∷ b't' ∷ 32 ∷ [])
    ∷ Piece.cv
    ∷ Piece.plain (32 ∷ [])
    ∷ Piece.cv_url
    ∷ []

build_command-filled_example :
    build_command (written pieces) bytes ≡ filled bytes (percent_encode bytes) pieces
build_command-filled_example =
    build_command-filled pieces bytes
      (
        (
          (λ e. omega (arith, e)),
          ((λ e. omega (arith, e)), ((λ e. omega (arith, e)), ((λ e. omega (arith, e)), tt))),
        ),
        (tt, (((λ e. omega (arith, e)), tt), (tt, tt))),
      )
      (omega arith)

-- A child that exits in the third round, two milliseconds after its start at 5.
abbrev pub polls : ℕ → Poll
polls zero = record { try_wait = ok none; now = 5 }
polls (suc zero) = record { try_wait = ok none; now = 1000005 }
polls (suc (suc n)) = record { try_wait = ok (some true); now = 2000005 + n * 1000000 }

polls-clock : (r : ℕ) → (polls r).now + poll_sleep ≤ (polls (suc r)).now
polls-clock zero = omega arith
polls-clock (suc zero) = omega arith
polls-clock (suc (suc n)) = omega arith

abbrev pub child : Child
child = record { started = 4; polls = polls }

-- Its pipe says nothing, and is closed with it.
abbrev quiet : Started
quiet = record {
  child = child;
  output = ok [];
  closes = true;
  killed = child;
  killed_closes = true;
}

child-IsTimed : IsTimed child
child-IsTimed = record { from = omega arith; sleeps = polls-clock }

wait_child_deadline-Returns_example :
    (w : Waited) × (last : ℕ) × (wait_child_deadline child 10000000 ≡ some w)
    × (last < 10000000 / poll_sleep + 2)
    × Decided (4 + 10000000) polls 0 last w
wait_child_deadline-Returns_example =
    wait_child_deadline-Returns child 10000000 (omega arith) polls-clock

-- Every number is written as 7 and read as seven.
abbrev pub sevens : FloatText Fixed
sevens = record {
  display = λ precision v. b'7' ∷ [];
  parse = λ t. some (num 7);
  power_of_ten = λ n. num (10 ^ n);
}

abbrev pub outside : Outside Disk
outside = record {
  write_line = λ t d. (none, d);
  write_file = λ p t d. (none, put p (some t) d);
  read_file = disk_files.read_to_string;
  shell = record { spawn = λ c d. (ok quiet, d) };
}

abbrev started_of : IoResult Started → Started
started_of (ok p) = p
started_of (err e) = quiet

pub outside-IsPrompt : IsPrompt outside.shell
outside-IsPrompt = record {
  closing = λ command d p e. subst IsClosing (ap started_of e) (record {
    running = child-IsTimed;
    reaped = child-IsTimed;
    closes = refl;
    killed_closes = refl;
  });
}

abbrev cv_file : FileCvSink
cv_file = record { path = state_path; precision = 2; verify = true }

verified_write_example :
    HoldsOutput Fixed-IsIeee sevens outside cv_file
      (num 7)
      (write_file_cv sevens outside cv_file (num 7) empty_disk).1
    × (write_file_cv sevens outside (record cv_file { verify = false }) (num 7) empty_disk
        ≡ (none, (write_file_cv sevens outside cv_file (num 7) empty_disk).1))
unfolding write_file_cv read_back matches number_in disk_files fixed_float
verified_write_example =
    verified_write Fixed-IsIeee sevens outside cv_file (num 7) empty_disk refl refl

-- A codec of two texts: 0 for the state that is purged, 1 for what the purge leaves.
abbrev old_state : StateSnapshot Fixed
old_state = record (snapshot_of 1500 3) { kp = some (num 2); last_cv = some (num 9) }

unfoldable two_states : Text → Option (StateSnapshot Fixed)
two_states [] = none
two_states (zero ∷ cs) = some old_state
two_states (suc c ∷ cs) = some (purged old_state "b")

abbrev purge_codec : Json Fixed
purge_codec = record { to_string_pretty = λ s. some (1 ∷ []); from_str = two_states }

abbrev purge_world : World Disk
purge_world = record { disk = put state_path (some (0 ∷ [])) empty_disk; temp_counter = 0 }

purge_keeps_configuration_example :
    let disk = (run_purge disk_files purge_codec state_path "b" purge_world).1.disk in
    IsPurgeOf (purged old_state "b") old_state
    × ((load disk_files purge_codec state_path disk ≡ loaded (some (purged old_state "b")))
        ⊎ ((e : IoError) × (disk_files.read_to_string state_path disk ≡ err e) × (e ≢ not_found)))
unfolding run_purge two_states disk_files load from_json_str validate acquire_lock lock_path save
    save_text write_and_rename ◌andthen◌ at_path clean_up temp_path purged
purge_keeps_configuration_example =
    purge_keeps_configuration disk_files disk-IsPosix purge_codec state_path "b" purge_world
      old_state refl refl (λ text e. ground (arith, e))
