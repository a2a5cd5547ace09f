-- ===== src/Adapters/Ends.antt =====
-- When the commands that the adapters run end (crates/pid-ctl/src/adapters/mod.rs).
use pid_ctl.Prelude.{
  ℕ, suc, ◌+◌, ◌*◌, ◌^◌, ◌≤◌, ◌≡◌, refl, Bool, true, false, Option, some, inl, inr, ◌>>=◌,
}
use pid_ctl.Float.{Float}
use pid_ctl.Core.Inversion.{Ends, >>=-Ends}
use pid_ctl.App.StateStore.{Text, IoResult, ok, err}
use pid_ctl.Adapters.Process.{
  Child, Started, Shell, Waited, exited, timed_out, wait_failed, poll_sleep, wait_child_deadline,
  if_ends, kill_and_drain,
}
use pid_ctl.Adapters.Process.Wait.{wait_child_deadline-Returns}
use pid_ctl.Adapters.Readers.{after_wait, read_cmd_pv}
use pid_ctl.Adapters.Writers.{FloatText, Outside, CmdCvSink, delivered, write_cmd_cv}
use pid_ctl.Adapters.Writers.Verify.{IoResult-cases}
use pid_ctl.Adapters.Command.{build_command}

-- The clock that is read while a process is polled does not run backwards before the first round,
-- and each sleep takes a millisecond at least.
pub record IsTimed (c : Child) : Type 0 where
  pub from : c.started ≤ (c.polls 0).now
  pub sleeps : (r : ℕ) → (c.polls r).now + poll_sleep ≤ (c.polls (suc r)).now

-- The pipe of the process is closed once it has exited or has been killed: no other process holds it.
pub record IsClosing (p : Started) : Type 0 where
  pub running : IsTimed p.child
  pub reaped : IsTimed p.killed
  pub closes : p.closes ≡ true
  pub killed_closes : p.killed_closes ≡ true

-- Every process that the shell starts is of this kind.
pub record IsPrompt {D : Type 0} (sh : Shell D) : Type 0 where
  pub closing : (command : Text) (d : D) (p : Started) → (sh.spawn command d).0 ≡ ok p → IsClosing p

wait-Ends : (c : Child) (dur : ℕ) → IsTimed c → Ends (wait_child_deadline c dur)
wait-Ends c dur t =
    let (w, last, found, _, _) = wait_child_deadline-Returns c dur t.from t.sleeps in (w, found)

if_ends-Ends {ℓ} : {A : Type ℓ} (closes : Bool) (x : A) → closes ≡ true → Ends (if_ends closes x)
if_ends-Ends true x e = (x, refl)
if_ends-Ends false x e = cc

kill_and_drain-Ends : (p : Started) → IsClosing p → Ends (kill_and_drain p)
unfolding kill_and_drain
kill_and_drain-Ends p h =
    >>=-Ends (wait_child_deadline p.killed (2 * 10 ^ 9)) _
      (wait-Ends p.killed (2 * 10 ^ 9) h.reaped)
      λ w. if_ends-Ends p.killed_closes tt h.killed_closes

module _ {F : Type 0} (parse : Text → Option F) where
  after_wait-Ends : (p : Started) (w : Waited) → IsClosing p → Ends (after_wait parse p w)
  unfolding after_wait
  after_wait-Ends p (wait_failed e) h = (_, refl)
  after_wait-Ends p timed_out h =
      >>=-Ends (kill_and_drain p) _ (kill_and_drain-Ends p h) λ u. (_, refl)
  after_wait-Ends p (exited status) h = if_ends-Ends p.closes _ h.closes

  -- What becomes of a process that has been started.
  spawned-Ends :
      {D : Type 0} (p : Started) (timeout : ℕ) (d : D)
      → IsClosing p
      → Ends {A = IoResult F × D}
          (wait_child_deadline p.child timeout >>= λ w. after_wait parse p w >>= λ r. some (r, d))
  spawned-Ends p timeout d h =
      >>=-Ends (wait_child_deadline p.child timeout) _ (wait-Ends p.child timeout h.running)
        λ w. >>=-Ends (after_wait parse p w) _ (after_wait-Ends p w h) λ r. ((r, d), refl)

  pub read_cmd_pv-Ends :
      {D : Type 0} (sh : Shell D) (command : Text) (timeout : ℕ) (d : D)
      → IsPrompt sh
      → Ends (read_cmd_pv parse sh command timeout d)
  unfolding read_cmd_pv
  read_cmd_pv-Ends sh command timeout d prompt = elim (IoResult-cases (sh.spawn command d).0) [
    | inl (e, failed) ↦ rw (failed, read_cmd_pv) ((err e, (sh.spawn command d).1), refl)
    | inr (p, spawned) ↦
        rw (spawned, read_cmd_pv)
          (spawned-Ends p timeout (sh.spawn command d).1 (prompt.closing command d p spawned))
  ]

delivered-Ends : (p : Started) (w : Waited) → IsClosing p → Ends (delivered p w)
unfolding delivered
delivered-Ends p (wait_failed e) h = (_, refl)
delivered-Ends p timed_out h =
    >>=-Ends (kill_and_drain p) _ (kill_and_drain-Ends p h) λ u. (_, refl)
delivered-Ends p (exited status) h = if_ends-Ends p.closes _ h.closes

pub write_cmd_cv-Ends :
    {F : Type 0} ⦃float : Float F⦄ (texts : FloatText F) {D : Type 0} (out : Outside D)
    (s : CmdCvSink) (cv : F) (d : D)
    → IsPrompt out.shell
    → Ends (write_cmd_cv texts out s cv d)
unfolding write_cmd_cv
write_cmd_cv-Ends texts out s cv d prompt =
    let command = build_command s.command_template (texts.display s.precision cv) in
    let d' = (out.shell.spawn command d).1 in
    elim (IoResult-cases (out.shell.spawn command d).0) [
      | inl (e, failed) ↦ rw (failed, write_cmd_cv) ((some e, d'), refl)
      | inr (p, spawned) ↦
          let h = prompt.closing command d p spawned in
          rw (spawned, write_cmd_cv)
            (>>=-Ends (wait_child_deadline p.child s.timeout) _
              (wait-Ends p.child s.timeout h.running)
              λ w. >>=-Ends (delivered p w) _ (delivered-Ends p w h) λ r. ((r, d'), refl))
    ]
