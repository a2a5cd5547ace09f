-- ===== src/Tune/Model.antt =====
-- What the plots of the dashboard show (crates/pid-ctl/src/tune/model.rs). A `VecDeque` is a list
-- with its front first.
pub mod History
pub mod Gains
use pid_ctl.Prelude.{
  ℕ, ◌+◌, ◌-◌, ◌^◌, min, max, Bool, true, false, not, Option, none, some, List, [], ◌∷◌, ◌++◌, ◌&&◌,
  ◌||◌, if◌then◌else◌, ltb, leb, length, is_some, ◌>>=◌,
}
use pid_ctl.Float.{Float, gt}
use pid_ctl.Core.Config.{PidConfig}
use pid_ctl.App.Records.{u64_max}

abbrev pub Delta : Type 0 → Type 0
Delta F = Option (F × F)

pub record GainAnnotation (F : Type 0) : Type 0 where
  pub marker_tick : ℕ
  pub kp : Delta F
  pub ki : Delta F
  pub kd : Delta F
  pub sp : Delta F

-- The four parallel queues.
pub record Plots (F : Type 0) : Type 0 where
  pub pv_history : List F
  pub cv_history : List F
  pub sp_history : List F
  pub serial_history : List ℕ

-- The fields of `TuneUiState` that the plots are made of.
pub record TuneUiState (F : Type 0) : Type 0 where
  pub plots : Plots F
  pub tick_serial : ℕ
  pub annotations : List (GainAnnotation F)
  pub spark_w : ℕ
  pub last_kp : F
  pub last_ki : F
  pub last_kd : F
  pub last_sp : F

-- `pop_front`, whose result is ignored.
unfoldable pub pop_front {ℓ} : {A : Type ℓ} → List A → List A
pop_front [] = []
pop_front (x ∷ xs) = xs

-- The loop that makes room for one more, on the queues of `pv` and of the others; `none` is the
-- loop that does not end, which a capacity of zero gives.
unfoldable pub make_room : {F : Type 0} → ℕ → (pv cv sp : List F) → List ℕ → Option (Plots F)
make_room cap [] cv sp serial =
    if leb cap 0
    then none
    else some
        (record { pv_history = []; cv_history = cv; sp_history = sp; serial_history = serial })
make_room cap (p ∷ pv) cv sp serial =
    let rest = make_room cap pv (pop_front cv) (pop_front sp) (pop_front serial) in
    if leb cap (length (p ∷ pv))
    then rest
    else some
        (record { pv_history = p ∷ pv; cv_history = cv; sp_history = sp; serial_history = serial })

-- `while annotations.len() > cap`.
unfoldable pub drop_old {ℓ} : {A : Type ℓ} → ℕ → List A → List A
drop_old cap [] = []
drop_old cap (a ∷ anns) =
    let rest = drop_old cap anns in if ltb cap (length (a ∷ anns)) then rest else a ∷ anns

unfoldable pub push_back : {F : Type 0} → Plots F → F → F → F → ℕ → Plots F
push_back h pv cv sp serial = record {
  pv_history = h.pv_history ++ (pv ∷ []);
  cv_history = h.cv_history ++ (cv ∷ []);
  sp_history = h.sp_history ++ (sp ∷ []);
  serial_history = h.serial_history ++ (serial ∷ []);
}

-- `push_history`, given `args.tune_history`.
unfoldable pub push_history : {F : Type 0} → ℕ → F → F → F → TuneUiState F → Option (TuneUiState F)
push_history tune_history pv cv sp ui =
    let cap = max tune_history ui.spark_w in
    let serial = min (ui.tick_serial + 1) u64_max in
    make_room cap ui.plots.pv_history ui.plots.cv_history ui.plots.sp_history
      ui.plots.serial_history
    >>= λ h. some (record ui {
      plots = push_back h pv cv sp serial;
      tick_serial = serial;
      annotations = drop_old cap ui.annotations;
    })

unfoldable pub merge_delta : {F : Type 0} → Delta F → Delta F → Delta F
merge_delta (some (from, _)) (some (_, to)) = some (from, to)
merge_delta (some a) none = some a
merge_delta none incoming = incoming

unfoldable pub merge : {F : Type 0} → GainAnnotation F → GainAnnotation F → GainAnnotation F
merge ann delta = record {
  marker_tick = delta.marker_tick;
  kp = merge_delta ann.kp delta.kp;
  ki = merge_delta ann.ki delta.ki;
  kd = merge_delta ann.kd delta.kd;
  sp = merge_delta ann.sp delta.sp;
}

unfoldable pub changes : {F : Type 0} → GainAnnotation F → Bool
changes d = is_some d.kp || is_some d.ki || is_some d.kd || is_some d.sp

-- A change, merged into the last annotation or put behind it.
unfoldable pub annotate :
    {F : Type 0} → GainAnnotation F → List (GainAnnotation F) → List (GainAnnotation F)
annotate delta [] = delta ∷ []
annotate delta (ann ∷ []) =
    if leb (delta.marker_tick - ann.marker_tick) 3 then merge ann delta ∷ [] else ann ∷ delta ∷ []
annotate delta (ann ∷ later ∷ anns) = ann ∷ annotate delta (later ∷ anns)

module _ {F : Type 0} ⦃float : Float F⦄ where
  open float use {lit, minus, abs, is_finite}

  -- `TuneUiState::new`, given `f64::NAN`.
  unfoldable pub new_ui : F → ℕ → TuneUiState F
  new_ui nan tune_history = record {
    plots = record { pv_history = []; cv_history = []; sp_history = []; serial_history = [] };
    tick_serial = 0;
    annotations = [];
    spark_w = tune_history;
    last_kp = nan;
    last_ki = nan;
    last_kd = nan;
    last_sp = nan;
  }

  -- `f64::EPSILON` is 2 to the -52.
  unfoldable pub gain_delta : F → F → Delta F
  gain_delta prev curr =
      if is_finite prev && gt (abs (minus curr prev)) (lit 1 (2 ^ 52))
      then some (prev, curr)
      else none

  unfoldable pub delta_of : PidConfig F → TuneUiState F → GainAnnotation F
  delta_of cfg ui = record {
    marker_tick = ui.tick_serial;
    kp = gain_delta ui.last_kp cfg.kp;
    ki = gain_delta ui.last_ki cfg.ki;
    kd = gain_delta ui.last_kd cfg.kd;
    sp = gain_delta ui.last_sp cfg.setpoint;
  }

  unfoldable pub note_gain_change : PidConfig F → TuneUiState F → TuneUiState F
  note_gain_change cfg ui =
      let delta = delta_of cfg ui in
      record ui {
        annotations = if changes delta then annotate delta ui.annotations else ui.annotations;
        last_kp = cfg.kp;
        last_ki = cfg.ki;
        last_kd = cfg.kd;
        last_sp = cfg.setpoint;
      }
