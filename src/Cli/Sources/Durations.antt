-- ===== src/Cli/Sources/Durations.antt =====
-- What a duration may look like: `parse_duration_flag` of crates/pid-ctl/src/cli/parse.rs.
use pid_ctl.Prelude.{
  ℕ, ◌≡◌, ◌≢◌, refl, sym, ap, ◌∙◌, arith, true, false, Option, none, some, [], ◌∷◌, ◌++◌, length,
  length-append, Bool-cases, inl, inr, Option-cases,
}
use mathlib.Core.Option.{some-injective}
use pid_ctl.Float.{Float, IsIeee, nought, ◌≺◌}
use pid_ctl.App.StateStore.{Text}
use pid_ctl.Cli.Outcome.{failed, panics, returned, not_a_duration}
use pid_ctl.Cli.Sources.{text_eq, strip_suffix, parse_duration_flag}

text_eq_refl : (xs : Text) → text_eq xs xs ≡ true
text_eq_refl [] = refl
text_eq_refl (x ∷ xs) = ground (arith, text_eq_refl xs)

eq-text_eq : (xs ys : Text) → text_eq xs ys ≡ true → xs ≡ ys
eq-text_eq [] [] e = refl
eq-text_eq [] (y ∷ ys) e = cc
eq-text_eq (x ∷ xs) [] e = cc
eq-text_eq (x ∷ xs) (y ∷ ys) e = ground (arith, eq-text_eq xs ys)

text_eq-longer : (x : ℕ) (xs ys : Text) → text_eq (x ∷ (xs ++ ys)) ys ≡ false
text_eq-longer x xs ys = elim (Bool-cases (text_eq (x ∷ (xs ++ ys)) ys)) [
  | inl same ↦
      absurd (omega (arith, ap length (eq-text_eq (x ∷ (xs ++ ys)) ys same), length-append xs ys))
  | inr differ ↦ differ
]

strip_suffix-append : (c : ℕ) (cs xs : Text) → strip_suffix (c ∷ cs) (xs ++ (c ∷ cs)) ≡ some xs
unfolding strip_suffix
strip_suffix-append c cs [] = rw (text_eq_refl (c ∷ cs)) refl
strip_suffix-append c cs (x ∷ xs) =
    rw (text_eq-longer x xs (c ∷ cs), strip_suffix-append c cs xs) refl

strip_suffix-eq :
    (suffix xs front : Text) → strip_suffix suffix xs ≡ some front → xs ≡ front ++ suffix
unfolding strip_suffix
strip_suffix-eq suffix [] front e = cc
strip_suffix-eq suffix (x ∷ xs) front e = elim (Bool-cases (text_eq (x ∷ xs) suffix)) [
  | inl same ↦
      let e' : some [] ≡ some front = rw same at e in
      eq-text_eq (x ∷ xs) suffix same ∙ ap (λ f. f ++ suffix) (some-injective _ _ e')
  | inr differ ↦ elim (Option-cases (strip_suffix suffix xs)) [
    | inl nothing ↦ let e' : none ≡ some front = rw (differ, nothing) at e in cc
    | inr (f, found) ↦
        let e' : some (x ∷ f) ≡ some front = rw (differ, found) at e in
        ap (λ r. x ∷ r) (strip_suffix-eq suffix xs f found)
        ∙ ap (λ r. r ++ suffix) (some-injective _ _ e')
  ]
]

last : ℕ → Text → ℕ
last c [] = c
last c (x ∷ xs) = last x xs

last-append : (c d : ℕ) (xs : Text) → last c (xs ++ (d ∷ [])) ≡ d
unfolding last
last-append c d [] = refl
last-append c d (x ∷ xs) = last-append x d xs

append_unit : (xs : Text) (c d : ℕ) → xs ++ (c ∷ d ∷ []) ≡ (xs ++ (c ∷ [])) ++ (d ∷ [])
append_unit [] c d = refl
append_unit (x ∷ xs) c d = ap (λ r. x ∷ r) (append_unit xs c d)

-- A unit that ends in another character than the text is no suffix of it.
strip_suffix-other :
    (front xs : Text) (c d : ℕ) → c ≢ d → strip_suffix (d ∷ []) (xs ++ (c ∷ [])) ≢ some front
strip_suffix-other front xs c d h e = h (
    sym (last-append 0 c xs)
    ∙ ap (last 0) (strip_suffix-eq (d ∷ []) (xs ++ (c ∷ [])) front e)
    ∙ last-append 0 d front)

strip_ms-other :
    (front xs : Text) (c : ℕ)
    → c ≢ b's'
    → strip_suffix (b'm' ∷ b's' ∷ []) (xs ++ (c ∷ [])) ≢ some front
strip_ms-other front xs c h e = h (
    sym (last-append 0 c xs)
    ∙ ap (last 0)
        (strip_suffix-eq (b'm' ∷ b's' ∷ []) (xs ++ (c ∷ [])) front e ∙ append_unit front b'm' b's')
    ∙ last-append 0 b's' (front ++ (b'm' ∷ [])))

none_of {ℓ} : {A : Type ℓ} (o : Option A) → ((a : A) → o ≢ some a) → o ≡ none
none_of none h = refl
none_of (some a) h = absurd (h a refl)

-- `str::parse::<f64>` accepts digits with a point and an exponent, and infinities and NaN by name:
-- no such text ends in the letter m or s.
pub record IsFloatText {F : Type 0} (parse_f64 : Text → Option F) : Type 0 where
  pub no_m : (x : Text) → parse_f64 (x ++ (b'm' ∷ [])) ≡ none
  pub no_s : (x : Text) → parse_f64 (x ++ (b's' ∷ [])) ≡ none

module _ {F : Type 0} ⦃float : Float F⦄ (parse_f64 : Text → Option F)
    (texts : IsFloatText parse_f64) where
  open float use {lit, over, from_secs}

  -- A number has no unit at its end.
  strip_s-number : (x : Text) (v : F) → parse_f64 x ≡ some v → strip_suffix (b's' ∷ []) x ≡ none
  strip_s-number x v e = none_of _ λ f g.
      let same = ap parse_f64 (strip_suffix-eq (b's' ∷ []) x f g) in let never = texts.no_s f in cc

  strip_ms-number :
      (x : Text) (v : F) → parse_f64 x ≡ some v → strip_suffix (b'm' ∷ b's' ∷ []) x ≡ none
  strip_ms-number x v e = none_of _ λ f g.
      let same =
        ap parse_f64 (strip_suffix-eq (b'm' ∷ b's' ∷ []) x f g ∙ append_unit f b'm' b's') in
      let never = texts.no_s (f ++ (b'm' ∷ [])) in cc

  -- Before a final s there is no m.
  strip_ms-seconds :
      (x : Text) (v : F)
      → parse_f64 x ≡ some v
      → strip_suffix (b'm' ∷ b's' ∷ []) (x ++ (b's' ∷ [])) ≡ none
  strip_ms-seconds x v e = none_of _ λ f g.
      let same =
        ap (strip_suffix (b's' ∷ []))
          (strip_suffix-eq (b'm' ∷ b's' ∷ []) (x ++ (b's' ∷ [])) f g ∙ append_unit f b'm' b's') in
      let left = strip_suffix-append b's' [] x in
      let right = strip_suffix-append b's' [] (f ++ (b'm' ∷ [])) in
      let front : x ≡ f ++ (b'm' ∷ []) = some-injective _ _ (sym left ∙ same ∙ right) in
      let never = texts.no_m f in let parsed = ap parse_f64 front in cc

  -- Of a text that is a number, where no number's text ends in m or s: followed by ms it is so many milliseconds, followed by s or by
  -- nothing so many seconds, each with the panic of `Duration::from_secs_f64`; followed by m, as for
  -- minutes, it is refused.
  pub duration_units :
      (x : Text) (v : F)
      → parse_f64 x ≡ some v
      → (parse_duration_flag parse_f64 (x ++ (b'm' ∷ b's' ∷ []))
          ≡ returned (from_secs (over v (lit 1000 1))))
        × (parse_duration_flag parse_f64 (x ++ (b's' ∷ [])) ≡ returned (from_secs v))
        × (parse_duration_flag parse_f64 x ≡ returned (from_secs v))
        × (parse_duration_flag parse_f64 (x ++ (b'm' ∷ [])) ≡ failed not_a_duration)
  unfolding parse_duration_flag
  duration_units x v e = (
    rw (strip_suffix-append b'm' (b's' ∷ []) x, e, parse_duration_flag) refl,
    rw (strip_ms-seconds x v e, strip_suffix-append b's' [] x, e, parse_duration_flag) refl,
    rw (strip_ms-number x v e, strip_s-number x v e, e, parse_duration_flag) refl,
    rw
        (
          none_of _ (λ f. strip_ms-other f x b'm' (λ h. omega (arith, h))),
          none_of _ (λ f. strip_suffix-other f x b'm' b's' (λ h. omega (arith, h))),
          texts.no_m x,
          parse_duration_flag,
        )
        refl,
  )

  -- A negative number of seconds panics, instead of being refused.
  duration_negative :
      IsIeee F
      → (x : Text) (v : F) → parse_f64 x ≡ some v
      → v ≺ nought
      → parse_duration_flag parse_f64 (x ++ (b's' ∷ [])) ≡ panics
  duration_negative laws x v e h =
      (duration_units x v e).1 ∙ ap returned (laws.from_secs_negative v h)
