-- ===== src/Cmd/Pipe/Flush.antt =====
-- What a pipe leaves on disk.
use pid_ctl.Prelude.{
  ℕ, ◌-◌, ◌≡◌, ◌<◌, ◌⊎◌, refl, sym, ap, ◌∙◌, subst, arith, true, some, List, [], ◌∷◌, All, inl, inr,
  Option-cases,
}
use mathlib.Core.Option.{some-injective}
use pid_ctl.Float.{Float}
use pid_ctl.Core.Inversion.{>>=-eq-some}
use pid_ctl.App.StateStore.{Files, Json, World, Text}
use pid_ctl.App.Records.{
  CvSink, Readings, ControllerSession, TickOutcome, TickResult, ticked, cv_write,
}
use pid_ctl.App.Persister.{is_coalesced, persist}
use pid_ctl.App.Session.{process_pv, apply_step, persist_snapshot}
use pid_ctl.Adapters.Readers.{trim}
use pid_ctl.Adapters.Writers.{FloatText, Outside}
use pid_ctl.Adapters.Writers.Verify.{IoResult-cases}
use pid_ctl.Cli.Args.{PipeArgs}
use pid_ctl.Cmd.Once.{Exit, success, code}
use pid_ctl.Cmd.Pipe.{tick_line, Arrival, PipeState, pipe_text, pipe_line, pipe_lines, finish_line}

module _ {F : Type 0} ⦃float : Float F⦄ (texts : FloatText F) {D S : Type 0} (files : Files D)
    (format : Json F) (out : Outside S) (a : PipeArgs F) where
  process_pv-coalesced :
      (s : ControllerSession F) (sink : CvSink F S) (pv dt ff : F) (r : Readings) (b : S)
      (w : World D) {q : TickResult (TickOutcome F) × ControllerSession F × S × World D}
      → is_coalesced s.persister r.before_write ≡ true
      → process_pv files format sink s pv dt ff r b w ≡ some q
      → (q.1.persister ≡ s.persister) × (q.3 ≡ w)
  unfolding process_pv apply_step persist_snapshot persist
  process_pv-coalesced s sink pv dt ff r b w c e = ground arith

  -- A session whose last write is not an interval ago.
  abbrev pub IsFresh : ℕ → ℕ → PipeState F S D → Type 0
  IsFresh interval last x =
      (x.session.persister.flush_interval ≡ some interval)
      × (x.session.persister.last_flush ≡ some last)

  finish_line-kept :
      (x0 : PipeState F S D) (q : TickResult (TickOutcome F) × ControllerSession F × S × World D)
      → let y = finish_line a x0 q.0 q.1 q.2 q.3 in (y.1.session ≡ q.1) × (y.1.world ≡ q.3)
  unfolding finish_line
  finish_line-kept x0 (cv_write f, s, b, w) = (refl, refl)
  finish_line-kept x0 (ticked o, s, b, w) = (refl, refl)

  IsFresh-is_coalesced :
      (interval last : ℕ) (x : PipeState F S D) (now : ℕ)
      → IsFresh interval last x
      → now - last < interval
      → is_coalesced x.session.persister now ≡ true
  unfolding is_coalesced
  IsFresh-is_coalesced interval last x now (on, before) soon = ground arith

  -- What such a line leaves as it was.
  abbrev Kept : PipeState F S D → Exit × PipeState F S D → Type 0
  Kept x q = (q.1.session.persister ≡ x.session.persister) × (q.1.world ≡ x.world)

  pipe_text-Kept :
      (x : PipeState F S D) (i : Arrival) (line : Text) {q : Exit × PipeState F S D}
      → is_coalesced x.session.persister i.clocks.before_write ≡ true
      → pipe_text texts files format out a x i line ≡ some q
      → Kept x q
  unfolding pipe_text tick_line
  pipe_text-Kept x i [] c e = subst (Kept x) (some-injective _ _ e) (refl, refl)
  pipe_text-Kept x i (b ∷ bs) {q} c e = elim (Option-cases (texts.parse (b ∷ bs))) [
    | inl bad ↦
        let e' : some (code 3, record x { last_tick = some i.now }) ≡ some q =
          rw (bad, pipe_text) at e in
        subst (Kept x) (some-injective _ _ e') (refl, refl)
    | inr (v, good) ↦
        let e' : tick_line texts files format out a x i v ≡ some q = rw (good, pipe_text) at e in
        let (r, ran, left) = >>=-eq-some _ _ e' in
        let (persister, world) =
          process_pv-coalesced x.session _ _ _ _ i.clocks x.outside x.world c ran in
        let (s, w) = finish_line-kept (record x { last_tick = some i.now }) r in
        subst (Kept x) (some-injective _ _ left) (ap (λ z. z.persister) s ∙ persister, w ∙ world)
  ]

  pipe_line-Kept :
      (x : PipeState F S D) (i : Arrival) {q : Exit × PipeState F S D}
      → is_coalesced x.session.persister i.clocks.before_write ≡ true
      → pipe_line texts files format out a x i ≡ some q
      → Kept x q
  unfolding pipe_line
  pipe_line-Kept x i {q} c e = elim (IoResult-cases i.text) [
    | inl (fault, bad) ↦
        let e' : some (code 1, x) ≡ some q = rw (bad, pipe_line) at e in
        subst (Kept x) (some-injective _ _ e') (refl, refl)
    | inr (line, good) ↦
        let e' : pipe_text texts files format out a x i (trim line) ≡ some q =
          rw (good, pipe_line) at e in
        pipe_text-Kept x i (trim line) c e'
  ]

  -- After a line comes the next one, or the end.
  followed :
      (y q : Exit × PipeState F S D) (is : List Arrival)
      → (elim y.0 [
        | success ↦ pipe_lines texts files format out a y.1 is
        | code n ↦ some (code n, y.1)
      ])
        ≡ some q
      → (pipe_lines texts files format out a y.1 is ≡ some q) ⊎ (q.1 ≡ y.1)
  followed (success, y) q is e = inl e
  followed (code n, y) q is e = inr (sym (ap (λ z. z.1) (some-injective _ _ e)))

  -- After a write of the snapshot, lines that come before the flush interval has passed leave the
  -- files as they are, however the pipe ends: its end does not write the last snapshot.
  pub pipe_unflushed :
      (interval last : ℕ) (x : PipeState F S D) (is : List Arrival) (q : Exit × PipeState F S D)
      → IsFresh interval last x
      → All (λ i. i.clocks.before_write - last < interval) is
      → pipe_lines texts files format out a x is ≡ some q
      → q.1.world ≡ x.world
  unfolding pipe_lines
  pipe_unflushed interval last x [] q fresh soon e =
      sym (ap (λ z. z.1.world) (some-injective _ _ e))
  pipe_unflushed interval last x (i ∷ is) q fresh (soon, all_soon) e =
      let (y, first, rest) = >>=-eq-some (pipe_line texts files format out a x i) _ e in
      let (persister, world) =
        pipe_line-Kept x i (IsFresh-is_coalesced interval last x i.clocks.before_write fresh soon)
          first in
      elim (followed y q is rest) [
        | inl next ↦
            pipe_unflushed interval last y.1 is q
              (subst (λ p. (p.flush_interval ≡ some interval) × (p.last_flush ≡ some last))
                (sym persister) fresh)
              all_soon next
            ∙ world
        | inr over ↦ ap (λ z. z.world) over ∙ world
      ]
