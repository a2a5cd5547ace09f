-- ===== src/Adapters/Process.antt =====
-- Child processes, as `CmdPvSource` and `CmdCvSink` use them (crates/pid-ctl/src/adapters/mod.rs). The
-- operating system is the parameter `Shell`: what it says when a process is started and polled.
pub mod Wait
use pid_ctl.Prelude.{
  ℕ, zero, suc, ◌+◌, ◌*◌, ◌/◌, ◌^◌, ◌>>=◌, Bool, true, false, Option, none, some, if◌then◌else◌,
  leb,
}
use pid_ctl.App.Snapshot.{IoError}
use pid_ctl.App.StateStore.{Text, IoResult, ok, err}

-- A round of the waiting loop: `try_wait`, where an exit status is whether it is a success, and the
-- clock that is read after it.
pub record Poll : Type 0 where
  pub try_wait : IoResult (Option Bool)
  pub now : ℕ

-- What the waiting loop sees of a process: the clock when it begins, and its rounds.
pub record Child : Type 0 where
  pub started : ℕ
  pub polls : ℕ → Poll

-- A process that has been started, with a pipe that the program reads to its end: what that reading
-- gives, and whether it ends once the process has exited, which it does when every process that
-- holds the pipe has closed it. `killed` and `killed_closes` are the same after `SIGKILL` has been
-- sent to the process and its group.
pub record Started : Type 0 where
  pub child : Child
  pub output : IoResult Text
  pub closes : Bool
  pub killed : Child
  pub killed_closes : Bool

-- `sh -c command`.
pub record Shell (D : Type 0) : Type 0 where
  pub spawn : Text → D → IoResult Started × D

pub data Waited : Type 0 where
  exited : Bool → Waited
  timed_out : Waited
  wait_failed : IoError → Waited

-- What a round of the loop returns, if it does.
unfoldable pub verdict : ℕ → Poll → Option Waited
verdict deadline p = elim p.try_wait [
  | err e ↦ some (wait_failed e)
  | ok (some status) ↦ some (exited status)
  | ok none ↦ if leb deadline p.now then some timed_out else none
]

-- The loop from some round on; `none` if it has not returned after so many rounds.
unfoldable pub wait_from : ℕ → ℕ → (ℕ → Poll) → ℕ → Option Waited
wait_from zero deadline polls round = none
wait_from (suc fuel) deadline polls round = elim (verdict deadline (polls round)) [
  | some w ↦ some w
  | none ↦ wait_from fuel deadline polls (suc round)
]

-- The sleep between two rounds, in nanoseconds.
abbrev pub poll_sleep : ℕ
poll_sleep = 10 ^ 6

-- `wait_child_deadline`.
unfoldable pub wait_child_deadline : Child → ℕ → Option Waited
wait_child_deadline c dur = wait_from (dur / poll_sleep + 2) (c.started + dur) c.polls 0

-- What a reading that may not end gives: `none` is a program that hangs.
abbrev pub if_ends {ℓ} : {A : Type ℓ} → Bool → A → Option A
if_ends true a = some a
if_ends false a = none

-- `kill_child_process_tree` and `reap_child_after_kill`, whose wait is two seconds at most, and then
-- the reading of the pipe to its end.
unfoldable pub kill_and_drain : Started → Option (Unit {0})
kill_and_drain p = wait_child_deadline p.killed (2 * 10 ^ 9) >>= λ w. if_ends p.killed_closes tt
