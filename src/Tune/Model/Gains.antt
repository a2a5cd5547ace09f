-- ===== src/Tune/Model/Gains.antt =====
-- How a change of the gains is noted beside the plots.
use pid_ctl.Prelude.{
  ◌^◌, ◌-◌, ◌≤◌, ◌≡◌, ◌⊎◌, refl, arith, true, false, none, some, or_some, map_some, List, [], ◌∷◌,
  ◌++◌, ap, inl, inr, if-split, if-both, leb, leb→le,
}
use pid_ctl.Float.{Float, gt}
use pid_ctl.Core.Config.{PidConfig}
use pid_ctl.Tune.Model.{
  Delta, GainAnnotation, TuneUiState, merge_delta, merge, annotate, changes, gain_delta, delta_of,
  note_gain_change,
}
use pid_ctl.Tune.Model.History.{IsCharted, Spaced, annotate-Spaced}

-- A change followed by another: the value before is that of the first which has one, the value after
-- that of the last.
pub record Joined {F : Type 0} (first second joined : Delta F) : Type 0 where
  pub before :
      map_some (λ d. d.0) joined ≡ or_some (map_some (λ d. d.0) first) (map_some (λ d. d.0) second)
  pub after :
      map_some (λ d. d.1) joined ≡ or_some (map_some (λ d. d.1) second) (map_some (λ d. d.1) first)

merge_delta-Joined : {F : Type 0} (a b : Delta F) → Joined a b (merge_delta a b)
unfolding merge_delta
merge_delta-Joined none none = record { before = refl; after = refl }
merge_delta-Joined none (some d) = record { before = refl; after = refl }
merge_delta-Joined (some d) none = record { before = refl; after = refl }
merge_delta-Joined (some d) (some e) = record { before = refl; after = refl }

-- An annotation that takes up a later one.
pub record Merged {F : Type 0} (first second merged : GainAnnotation F) : Type 0 where
  pub marker : merged.marker_tick ≡ second.marker_tick
  pub kp : Joined first.kp second.kp merged.kp
  pub ki : Joined first.ki second.ki merged.ki
  pub kd : Joined first.kd second.kd merged.kd
  pub sp : Joined first.sp second.sp merged.sp

merge-Merged : {F : Type 0} (a b : GainAnnotation F) → Merged a b (merge a b)
unfolding merge
merge-Merged a b = record {
  marker = refl;
  kp = merge_delta-Joined a.kp b.kp;
  ki = merge_delta-Joined a.ki b.ki;
  kd = merge_delta-Joined a.kd b.kd;
  sp = merge_delta-Joined a.sp b.sp;
}

-- The change stands behind the annotations that there were, or it is taken up by the last of them,
-- which is at most three ticks older.
abbrev pub Annotated :
    {F : Type 0} → GainAnnotation F → (old new : List (GainAnnotation F)) → Type 0
Annotated delta old new =
    (new ≡ old ++ (delta ∷ []))
    ⊎ ((front : List (GainAnnotation _)) × (last : GainAnnotation _) × (merged : GainAnnotation _)
        × (old ≡ front ++ (last ∷ []))
        × (new ≡ front ++ (merged ∷ []))
        × (delta.marker_tick - last.marker_tick ≤ 3)
        × Merged last delta merged)

Annotated-cons :
    {F : Type 0} (delta a : GainAnnotation F) (old new : List (GainAnnotation F))
    → Annotated delta old new
    → Annotated delta (a ∷ old) (a ∷ new)
Annotated-cons delta a old new (inl behind) = inl (ap (λ z. a ∷ z) behind)
Annotated-cons delta a old new (inr (front, last, merged, was, is, close, m)) =
    inr (a ∷ front, last, merged, ap (λ z. a ∷ z) was, ap (λ z. a ∷ z) is, close, m)

annotate-Annotated :
    {F : Type 0} (delta : GainAnnotation F) (old : List (GainAnnotation F))
    → Annotated delta old (annotate delta old)
unfolding annotate
annotate-Annotated delta [] = inl refl
annotate-Annotated delta (a ∷ []) =
    if-split (Annotated delta (a ∷ [])) (leb (delta.marker_tick - a.marker_tick) 3)
      (λ close. inr ([], a, merge a delta, refl, refl, leb→le _ _ close, merge-Merged a delta))
      (λ _. inl refl)
annotate-Annotated delta (a ∷ b ∷ rest) =
    Annotated-cons delta a (b ∷ rest) (annotate delta (b ∷ rest))
      (annotate-Annotated delta (b ∷ rest))

-- There is no change of any gain or of the setpoint.
abbrev pub Untouched : {F : Type 0} → GainAnnotation F → Type 0
Untouched d = (d.kp ≡ none) × (d.ki ≡ none) × (d.kd ≡ none) × (d.sp ≡ none)

changes-Untouched :
    {F : Type 0} (d : GainAnnotation F)
    → ((changes d ≡ false) × Untouched d) ⊎ ((changes d ≡ true) × ¬ (Untouched d))
unfolding changes
changes-Untouched d = ground arith

module _ {F : Type 0} ⦃float : Float F⦄ where
  open float use {lit, minus, abs, is_finite}

  -- A value that was finite when it was seen last, and is more than a machine epsilon from the new one.
  abbrev pub HasMoved : F → F → Type 0
  HasMoved prev curr =
      (is_finite prev ≡ true) × (gt (abs (minus curr prev)) (lit 1 (2 ^ 52)) ≡ true)

  abbrev pub IsMove : F → F → Delta F → Type 0
  IsMove prev curr d =
      (HasMoved prev curr × (d ≡ some (prev, curr))) ⊎ (¬ (HasMoved prev curr) × (d ≡ none))

  gain_delta-IsMove : (prev curr : F) → IsMove prev curr (gain_delta prev curr)
  unfolding gain_delta
  gain_delta-IsMove prev curr = ground arith

  -- The change at the current tick, from what was seen last.
  pub record IsChange (cfg : PidConfig F) (ui : TuneUiState F) (d : GainAnnotation F) : Type 0 where
    pub marker : d.marker_tick ≡ ui.tick_serial
    pub kp : IsMove ui.last_kp cfg.kp d.kp
    pub ki : IsMove ui.last_ki cfg.ki d.ki
    pub kd : IsMove ui.last_kd cfg.kd d.kd
    pub sp : IsMove ui.last_sp cfg.setpoint d.sp

  -- What `note_gain_change` leaves: the plots and the tick as they were, the gains and the setpoint
  -- as the last ones seen, and the change annotated if there is one.
  pub record Noted (cfg : PidConfig F) (ui ui' : TuneUiState F) : Type 0 where
    pub plots : ui'.plots ≡ ui.plots
    pub tick : ui'.tick_serial ≡ ui.tick_serial
    pub kp : ui'.last_kp ≡ cfg.kp
    pub ki : ui'.last_ki ≡ cfg.ki
    pub kd : ui'.last_kd ≡ cfg.kd
    pub sp : ui'.last_sp ≡ cfg.setpoint
    pub delta : GainAnnotation F
    pub change : IsChange cfg ui delta
    pub annotated :
        (Untouched delta × (ui'.annotations ≡ ui.annotations))
        ⊎ (¬ (Untouched delta) × Annotated delta ui.annotations ui'.annotations)
    pub charted : IsCharted ui'

  -- Noting the gains, of charted plots: the queues and the tick are as before, and the gains and the
  -- setpoint are the last ones seen. What has changed is each of them that was finite when it was
  -- seen last and has moved by more than a machine epsilon. If nothing has, the annotations are as
  -- before. If something has, the change is put behind them; or, if the last annotation is at most
  -- three ticks old, it takes up the change, with the values before of the earlier and the values
  -- after of the later. The annotations stay in order, none after the current tick, each more than
  -- three ticks after the one before.
  pub note_gain_change-Noted :
      (cfg : PidConfig F) (ui : TuneUiState F)
      → IsCharted ui
      → Noted cfg ui (note_gain_change cfg ui)
  unfolding note_gain_change delta_of
  note_gain_change-Noted cfg ui c = record {
    plots = refl;
    tick = refl;
    kp = refl;
    ki = refl;
    kd = refl;
    sp = refl;
    delta = delta_of cfg ui;
    change = record {
      marker = refl;
      kp = gain_delta-IsMove ui.last_kp cfg.kp;
      ki = gain_delta-IsMove ui.last_ki cfg.ki;
      kd = gain_delta-IsMove ui.last_kd cfg.kd;
      sp = gain_delta-IsMove ui.last_sp cfg.setpoint;
    };
    annotated = elim (changes-Untouched (delta_of cfg ui)) [
      | inl (still, none_moved) ↦ inl (none_moved, rw still refl)
      | inr (moves, moved) ↦
          inr (moved, rw moves (annotate-Annotated (delta_of cfg ui) ui.annotations))
    ];
    charted = record {
      cv = c.cv;
      sp = c.sp;
      serial = c.serial;
      spaced =
          if-both (Spaced 0 ui.tick_serial) (changes (delta_of cfg ui))
            (annotate-Spaced (delta_of cfg ui) ui.annotations 0 (omega arith) c.spaced) c.spaced;
    };
  }
