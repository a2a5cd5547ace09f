-- ===== src/Cmd/Pipe/Lines.antt =====
-- What a pipe writes.
use pid_ctl.Prelude.{
  ℕ, ◌+◌, ◌≡◌, ◌≤◌, ◌⊎◌, refl, ap, ◌∙◌, subst, arith, Option, none, some, List, [], ◌∷◌, length,
  min, inl, inr, Option-cases,
}
use mathlib.Core.Option.{some-injective}
use pid_ctl.Float.{Float, nought}
use pid_ctl.Core.Inversion.{>>=-eq-some}
use pid_ctl.App.StateStore.{Files, Json, World, Text, IoResult, ok, err}
use pid_ctl.App.Records.{
  u64_max, CvSink, Readings, ControllerSession, TickOutcome, TickResult, ticked, cv_write,
}
use pid_ctl.App.Session.{process_pv}
use pid_ctl.App.Session.Ticks.{process_pv_applied}
use pid_ctl.Adapters.Readers.{trim}
use pid_ctl.Adapters.Writers.{FloatText, Outside}
use pid_ctl.Adapters.Writers.Verify.{IoResult-cases}
use pid_ctl.Cli.Args.{PipeArgs}
use pid_ctl.Cmd.Once.{Exit, success, code}
use pid_ctl.Cmd.Pipe.{
  tick_line, Arrival, PipeState, pipe_sink, pipe_text, pipe_line, pipe_lines, finish_line,
}

abbrev pub one_unless_blank : Text → ℕ
one_unless_blank [] = 0
one_unless_blank (c ∷ cs) = 1

abbrev pub counted : IoResult Text → ℕ
counted (err e) = 0
counted (ok line) = one_unless_blank (trim line)

-- How many lines are read and not blank.
abbrev pub line_count : List Arrival → ℕ
line_count [] = 0
line_count (i ∷ is) = counted i.text + line_count is

-- The sink takes one output after another.
abbrev pub Wrote : {F S : Type 0} → CvSink F S → S → List F → S → Type 0
Wrote sink b [] b' = b ≡ b'
Wrote sink b (cv ∷ cvs) b' = (mid : _) × (sink.write_cv cv b ≡ (none, mid)) × Wrote sink mid cvs b'

-- The last of a list, or what there was before.
abbrev pub last_or : {F : Type 0} → Option F → List F → Option F
last_or d [] = d
last_or d (x ∷ xs) = last_or (some x) xs

module _ {F : Type 0} ⦃float : Float F⦄ (texts : FloatText F) {D S : Type 0} (files : Files D)
    (format : Json F) (out : Outside S) (a : PipeArgs F) where
  -- A line that is not blank and does not end the pipe.
  abbrev Ticked : PipeState F S D → PipeState F S D → Type 0
  Ticked x x' =
      (cv : F) × ((pipe_sink texts files format out a).write_cv cv x.outside ≡ (none, x'.outside))
      × (x'.session.snapshot.last_cv ≡ some cv)
      × (x'.session.snapshot.iter ≡ min (x.session.snapshot.iter + 1) u64_max)

  finish_line-Ticked :
      (x x0 x' : PipeState F S D) (pv dt : F) (r : Readings) (t : TickResult (TickOutcome F))
      (s : ControllerSession F) (b : S) (w : World D)
      → process_pv files format
          (pipe_sink texts files format out a)
          x.session
          pv
          dt
          nought
          r
          x.outside
          x.world
        ≡ some (t, s, b, w)
      → finish_line a x0 t s b w ≡ (success, x')
      → Ticked x x'
  unfolding finish_line
  finish_line-Ticked x x0 x' pv dt r (cv_write f) s b w ran e = cc
  finish_line-Ticked x x0 x' pv dt r (ticked o) s b w ran e =
      let (wrote, confirmed, _, iter, _) =
        process_pv_applied files format (pipe_sink texts files format out a) x.session pv dt nought
          r x.outside x.world ran in
      let left = ap (λ q. q.1) e in subst (Ticked x) left (o.record_of.cv, wrote, confirmed, iter)

  pipe_text-Ticked :
      (x x' : PipeState F S D) (i : Arrival) (line : Text)
      → pipe_text texts files format out a x i line ≡ some (success, x')
      → ((one_unless_blank line ≡ 0) × (x ≡ x')) ⊎ ((one_unless_blank line ≡ 1) × Ticked x x')
  unfolding pipe_text tick_line
  pipe_text-Ticked x x' i [] e = inl (refl, ap (λ q. q.1) (some-injective _ _ e))
  pipe_text-Ticked x x' i (c ∷ cs) e = inr (
    refl,
    elim (Option-cases (texts.parse (c ∷ cs))) [
      | inl bad ↦
          let e' : some (code 3, record x { last_tick = some i.now }) ≡ some (success, x') =
            rw (bad, pipe_text) at e in
          cc
      | inr (v, good) ↦
          let e' : tick_line texts files format out a x i v ≡ some (success, x') =
            rw (good, pipe_text) at e in
          let (q, ran, left) = >>=-eq-some _ _ e' in
          finish_line-Ticked x _ x' _ _ i.clocks q.0 q.1 q.2 q.3 ran (some-injective _ _ left)
    ],
  )

  pipe_line-Ticked :
      (x x' : PipeState F S D) (i : Arrival)
      → pipe_line texts files format out a x i ≡ some (success, x')
      → ((counted i.text ≡ 0) × (x ≡ x')) ⊎ ((counted i.text ≡ 1) × Ticked x x')
  unfolding pipe_line
  pipe_line-Ticked x x' i e = elim (IoResult-cases i.text) [
    | inl (fault, bad) ↦
        let e' : some (code 1, x) ≡ some (success, x') = rw (bad, pipe_line) at e in cc
    | inr (line, good) ↦
        let e' : pipe_text texts files format out a x i (trim line) ≡ some (success, x') =
          rw (good, pipe_line) at e in
        rw good (pipe_text-Ticked x x' i (trim line) e')
  ]

  -- Only a line that succeeds is followed by another.
  goes_on :
      (q : Exit × PipeState F S D) (x' : PipeState F S D) (is : List Arrival)
      → (elim q.0 [
        | success ↦ pipe_lines texts files format out a q.1 is
        | code n ↦ some (code n, q.1)
      ])
        ≡ some (success, x')
      → (q ≡ (success, q.1)) × (pipe_lines texts files format out a q.1 is ≡ some (success, x'))
  goes_on (success, y) x' is e = (refl, e)
  goes_on (code n, y) x' is e = cc

  -- One output for each line that is not blank.
  abbrev pub Written : PipeState F S D → PipeState F S D → List Arrival → Type 0
  Written x x' is =
      (cvs : List F) × Wrote (pipe_sink texts files format out a) x.outside cvs x'.outside
      × (length cvs ≡ line_count is)
      × (x'.session.snapshot.last_cv ≡ last_or x.session.snapshot.last_cv cvs)
      × (x'.session.snapshot.iter ≡ min (x.session.snapshot.iter + line_count is) u64_max)

  -- A pipe that ends with success has written one output for each line that is not blank, one after
  -- the other: the sink took each; the last is the confirmed output, or there is none and that is the
  -- one before; and the iteration count has gone up by their number, to the largest u64 at most.
  pub pipe_writes_each_line :
      (x x' : PipeState F S D) (is : List Arrival)
      → pipe_lines texts files format out a x is ≡ some (success, x')
      → x.session.snapshot.iter ≤ u64_max
      → Written x x' is
  unfolding pipe_lines
  pipe_writes_each_line x x' [] e h =
      subst (λ z. Written x z []) (ap (λ q. q.1) (some-injective _ _ e))
        ([], refl, refl, refl, omega (arith, h))
  pipe_writes_each_line x x' (i ∷ is) e h =
      let (q, first, rest) = >>=-eq-some (pipe_line texts files format out a x i) _ e in
      let (fine, next) = goes_on q x' is rest in
      elim (pipe_line-Ticked x q.1 i (first ∙ ap some fine)) [
        | inl (none_there, same) ↦
            let (cvs, wrote, many, last, iter) =
              pipe_writes_each_line q.1 x' is next
                (subst (λ z. z.session.snapshot.iter ≤ u64_max) same h) in
            rw (same, none_there) (cvs, wrote, omega (arith, many), last, omega (arith, iter))
        | inr (one_there, (cv, took, confirmed, up)) ↦
            let (cvs, wrote, many, last, iter) =
              pipe_writes_each_line q.1 x' is next (omega (arith, up)) in
            (
              cv ∷ cvs,
              (q.1.outside, took, wrote),
              omega (arith, many, one_there),
              last ∙ ap (λ d. last_or d cvs) confirmed,
              omega (arith, iter, up, one_there),
            )
      ]
