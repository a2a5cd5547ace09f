-- ===== src/Tune/Model/History.antt =====
-- What the plots hold after any sequence of ticks, changes of gains and of the width of the
-- terminal.
use pid_ctl.Prelude.{
  if-split, leb-false, ℕ, zero, suc, ◌+◌, ◌-◌, ◌≤◌, ◌≡◌, refl, arith, min, max, Option, some, List,
  [], ◌∷◌, ◌++◌, length, length-append, leb, leb→le, ltb, ap, ◌∙◌, ◌<◌,
}
use pid_ctl.Float.{Float}
use pid_ctl.App.Records.{u64_max}
use pid_ctl.Tune.Model.{
  GainAnnotation, Plots, TuneUiState, pop_front, make_room, drop_old, push_back, push_history,
  merge, annotate, new_ui,
}

-- The last `n` tick numbers up to `t`, the oldest first.
unfoldable pub last_serials : ℕ → ℕ → List ℕ
last_serials zero t = []
last_serials (suc n) t = (t - n) ∷ last_serials n t

-- The markers go up from `lo` to `t` at most, each more than three ticks after the one before.
unfoldable pub Spaced : {F : Type 0} → ℕ → ℕ → List (GainAnnotation F) → Type 0
Spaced lo t [] = Unit
Spaced lo t (a ∷ rest) =
    (lo ≤ a.marker_tick) × (a.marker_tick ≤ t) × Spaced (a.marker_tick + 4) t rest

Spaced-weaken :
    {F : Type 0} (rest : List (GainAnnotation F)) (lo lo' t t' : ℕ)
    → lo' ≤ lo
    → t ≤ t'
    → Spaced lo t rest
    → Spaced lo' t' rest
unfolding Spaced
Spaced-weaken [] lo lo' t t' h k s = s
Spaced-weaken (a ∷ rest) lo lo' t t' h k (p, q, r) =
    (omega arith, omega arith, Spaced-weaken rest (a.marker_tick + 4) _ t t' (omega arith) k r)

pub annotate-Spaced :
    {F : Type 0} (delta : GainAnnotation F) (rest : List (GainAnnotation F)) (lo : ℕ)
    → lo ≤ delta.marker_tick
    → Spaced lo delta.marker_tick rest
    → Spaced lo delta.marker_tick (annotate delta rest)
unfolding Spaced annotate merge
annotate-Spaced delta [] lo h s = (h, omega arith, s)
annotate-Spaced delta (a ∷ []) lo h (p, q, r) =
    if-split (Spaced lo delta.marker_tick) (leb (delta.marker_tick - a.marker_tick) 3)
      (λ _. (h, omega arith, r)) (λ far. (p, q, (omega (arith, leb-false _ _ far), omega arith, r)))
annotate-Spaced delta (a ∷ b ∷ rest) lo h (p, q, (r, s, u)) =
    (p, q, annotate-Spaced delta (b ∷ rest) (a.marker_tick + 4) (omega arith) (r, s, u))

drop_old-Spaced :
    {F : Type 0} (cap : ℕ) (rest : List (GainAnnotation F)) (lo t : ℕ)
    → Spaced lo t rest
    → Spaced lo t (drop_old cap rest)
unfolding Spaced drop_old
drop_old-Spaced cap [] lo t s = s
drop_old-Spaced cap (a ∷ rest) lo t (p, q, r) =
    if-split (Spaced lo t) (ltb cap (length (a ∷ rest)))
      (λ _.
        drop_old-Spaced cap rest lo t
          (Spaced-weaken rest (a.marker_tick + 4) lo t t (omega arith) (omega arith) r))
      (λ _. (p, q, r))

length-drop_old : {A : Type 0} (cap : ℕ) (rest : List A) → length (drop_old cap rest) ≤ cap
unfolding drop_old
length-drop_old cap [] = omega arith
length-drop_old cap (a ∷ rest) = let below = length-drop_old cap rest in ground arith

last_serials-push : (n t : ℕ) → last_serials n t ++ (suc t ∷ []) ≡ last_serials (suc n) (suc t)
unfolding last_serials
last_serials-push zero t = ap (λ z. z ∷ []) (omega arith)
last_serials-push (suc n) t =
    let head : (t - n) ≡ (suc t - suc n) = omega arith in
    ap (λ z. (t - n) ∷ z) (last_serials-push n t) ∙ ap (λ z. z ∷ last_serials (suc n) (suc t)) head

length-pop_front :
    {A : Type 0} (xs : List A) {n : ℕ} → length xs ≡ suc n → length (pop_front xs) ≡ n
unfolding pop_front
length-pop_front [] e = omega arith
length-pop_front (x ∷ xs) e = omega arith

serial-push :
    (n m tick t : ℕ) (xs : List ℕ)
    → xs ≡ last_serials n tick
    → t ≡ suc tick
    → m ≡ suc n
    → xs ++ (t ∷ []) ≡ last_serials m t
serial-push n m tick t xs e f g = let step = last_serials-push n tick in cc

-- What `n` calls of `pop_front` leave.
abbrev pub drop : {A : Type 0} → ℕ → List A → List A
drop zero xs = xs
drop (suc n) [] = []
drop (suc n) (x ∷ xs) = drop n xs

drop-pop_front : {A : Type 0} (n : ℕ) (xs : List A) → drop n (pop_front xs) ≡ drop (suc n) xs
unfolding pop_front
drop-pop_front zero [] = refl
drop-pop_front (suc n) [] = refl
drop-pop_front n (x ∷ xs) = refl

-- Queues of one length, with room for one more, whose ticks are the last ones: those that there were,
-- but for the same number at the front of each.
record HasRoom {F : Type 0} (cap t : ℕ) (pvs cvs sps : List F) (h : Plots F) : Type 0 where
  pub gone : ℕ
  pub pv : length h.pv_history ≡ min (length pvs) (cap - 1)
  pub cv : length h.cv_history ≡ length h.pv_history
  pub sp : length h.sp_history ≡ length h.pv_history
  pub serial : h.serial_history ≡ last_serials (length h.pv_history) t
  pub pv_kept : h.pv_history ≡ drop gone pvs
  pub cv_kept : h.cv_history ≡ drop gone cvs
  pub sp_kept : h.sp_history ≡ drop gone sps

-- A result of that kind.
abbrev Roomy : {F : Type 0} → ℕ → ℕ → (pvs cvs sps : List F) → Option (Plots F) → Type 0
Roomy cap t pvs cvs sps o = (h : Plots _) × (o ≡ some h) × HasRoom cap t pvs cvs sps h

make_room-Roomy :
    {F : Type 0} (cap : ℕ) (pv cv sp : List F) (serial : List ℕ) (t : ℕ)
    → 1 ≤ cap
    → length cv ≡ length pv
    → length sp ≡ length pv
    → serial ≡ last_serials (length pv) t
    → Roomy cap t pv cv sp (make_room cap pv cv sp serial)
unfolding make_room last_serials pop_front
make_room-Roomy cap [] cv sp serial t h lc ls e =
    if-split (Roomy cap t [] cv sp) (leb cap 0) (λ full. absurd (omega (arith, leb→le cap 0 full)))
      (λ _. (
        _,
        refl,
        record {
          gone = 0;
          pv = omega arith;
          cv = lc;
          sp = ls;
          serial = e;
          pv_kept = refl;
          cv_kept = refl;
          sp_kept = refl;
        },
      ))
make_room-Roomy cap (p ∷ pv) cv sp serial t h lc ls e =
    if-split (Roomy cap t (p ∷ pv) cv sp) (leb cap (length (p ∷ pv)))
      (λ full.
        let (k, found, r) =
          make_room-Roomy cap pv (pop_front cv) (pop_front sp) (pop_front serial) t h
            (length-pop_front cv lc) (length-pop_front sp ls) (ap pop_front e) in
        (
          k,
          found,
          record {
            gone = suc r.gone;
            pv = omega (arith, r.pv, leb→le cap (length (p ∷ pv)) full);
            cv = r.cv;
            sp = r.sp;
            serial = r.serial;
            pv_kept = r.pv_kept;
            cv_kept = r.cv_kept ∙ drop-pop_front r.gone cv;
            sp_kept = r.sp_kept ∙ drop-pop_front r.gone sp;
          },
        ))
      (λ room. (
        _,
        refl,
        record {
          gone = 0;
          pv = omega (arith, leb-false _ _ room);
          cv = lc;
          sp = ls;
          serial = e;
          pv_kept = refl;
          cv_kept = refl;
          sp_kept = refl;
        },
      ))

-- The queues have one length, and their ticks are the last ones. The annotations stand in order,
-- more than three ticks apart.
pub record IsCharted {F : Type 0} (ui : TuneUiState F) : Type 0 where
  pub cv : length ui.plots.cv_history ≡ length ui.plots.pv_history
  pub sp : length ui.plots.sp_history ≡ length ui.plots.pv_history
  pub serial : ui.plots.serial_history ≡ last_serials (length ui.plots.pv_history) ui.tick_serial
  pub spaced : Spaced 0 ui.tick_serial ui.annotations

-- What `push_history` leaves: each queue of values is the one before without the same number of its
-- first values, and with the new value behind.
pub record Pushed {F : Type 0} (cap : ℕ) (pv cv sp : F) (ui ui' : TuneUiState F) : Type 0 where
  pub charted : IsCharted ui'
  pub tick : ui'.tick_serial ≡ suc ui.tick_serial
  pub kept : length ui'.plots.pv_history ≡ min (suc (length ui.plots.pv_history)) cap
  pub gone : ℕ
  pub pvs : ui'.plots.pv_history ≡ drop gone ui.plots.pv_history ++ (pv ∷ [])
  pub cvs : ui'.plots.cv_history ≡ drop gone ui.plots.cv_history ++ (cv ∷ [])
  pub sps : ui'.plots.sp_history ≡ drop gone ui.plots.sp_history ++ (sp ∷ [])
  pub annotations : length ui'.annotations ≤ cap

pushed :
    {F : Type 0} (cap : ℕ) (pv cv sp : F) (ui : TuneUiState F) (h : Plots F) (t : ℕ)
    → 1 ≤ cap
    → t ≡ suc ui.tick_serial
    → IsCharted ui
    → HasRoom cap ui.tick_serial ui.plots.pv_history ui.plots.cv_history ui.plots.sp_history h
    → Pushed cap pv cv sp ui (record ui {
      plots = push_back h pv cv sp t;
      tick_serial = t;
      annotations = drop_old cap ui.annotations;
    })
unfolding push_back
pushed cap pv cv sp ui h t one e c r = record {
  charted = record {
    cv =
        omega
          (arith, length-append h.pv_history (pv ∷ []), length-append h.cv_history (cv ∷ []), r.cv);
    sp =
        omega
          (arith, length-append h.pv_history (pv ∷ []), length-append h.sp_history (sp ∷ []), r.sp);
    serial = serial-push _ _ _ t _ r.serial e (omega (arith, length-append h.pv_history (pv ∷ [])));
    spaced =
        drop_old-Spaced cap ui.annotations 0 t
          (Spaced-weaken ui.annotations 0 0 _ t (omega arith) (omega arith) c.spaced);
  };
  tick = e;
  kept = omega (arith, length-append h.pv_history (pv ∷ []), r.pv);
  gone = r.gone;
  pvs = ap (λ z. z ++ (pv ∷ [])) r.pv_kept;
  cvs = ap (λ z. z ++ (cv ∷ [])) r.cv_kept;
  sps = ap (λ z. z ++ (sp ∷ [])) r.sp_kept;
  annotations = length-drop_old cap ui.annotations;
}

-- Of charted plots, with a history of at least one tick and below 2^64 - 1 ticks, `push_history` ends
-- its loop, and leaves them charted with one tick more: the queues grow by one up to the capacity,
-- which is the larger of the history's length and the width of the terminal; those of PV, CV and
-- setpoint hold what they held, but for the same number of the oldest values in each, and then the
-- value pushed; the ticks are the last ones. There are at most so many annotations.
pub push_history-Pushed :
    {F : Type 0} (tune_history : ℕ) (pv cv sp : F) (ui : TuneUiState F)
    → 1 ≤ tune_history
    → ui.tick_serial < u64_max
    → IsCharted ui
    → (ui' : TuneUiState F) × (push_history tune_history pv cv sp ui ≡ some ui')
      × Pushed (max tune_history ui.spark_w) pv cv sp ui ui'
unfolding push_history
push_history-Pushed tune_history pv cv sp ui one below c =
    let (h, found, r) =
      make_room-Roomy (max tune_history ui.spark_w) ui.plots.pv_history ui.plots.cv_history
        ui.plots.sp_history ui.plots.serial_history ui.tick_serial (omega arith) c.cv c.sp
        c.serial in
    (
      _,
      rw found,
      pushed (max tune_history ui.spark_w) pv cv sp ui h (min (ui.tick_serial + 1) u64_max)
          (omega arith) (omega arith) c r,
    )

-- The plots at the start are charted.
pub new_ui-IsCharted :
    {F : Type 0} ⦃float : Float F⦄ (nan : F) (tune_history : ℕ)
    → IsCharted (new_ui nan tune_history)
unfolding new_ui last_serials Spaced
new_ui-IsCharted nan tune_history = record { cv = refl; sp = refl; serial = refl; spaced = tt }
