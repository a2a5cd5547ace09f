-- ===== src/Float/Clamp.antt =====
-- What `f64::clamp` promises.
use pid_ctl.Prelude.{◌≡◌, refl, arith, some, ◌⊎◌}
use pid_ctl.Float.{Float, IsIeee, ◌≼◌, IsNumber, clamp}

module _ {F : Type 0} ⦃float : Float F⦄ where
  -- A clamped number is the number itself, within the bounds, or the bound on its side.
  abbrev pub Clamped : F → F → F → F → Type 0
  Clamped x lo hi y =
      (lo ≼ hi) × (((y ≡ x) × (lo ≼ x) × (x ≼ hi)) ⊎ ((y ≡ lo) × (x ≼ lo)) ⊎ ((y ≡ hi) × (hi ≼ x)))

  module _ (laws : IsIeee F) where
    open laws use {number_of_le, le_of_lt, lt-eq-not-le, le_trans}

    pub clamp-Clamped :
        (x lo hi : F) {y : F} → IsNumber x → clamp x lo hi ≡ some y → Clamped x lo hi y
    unfolding clamp
    clamp-Clamped x lo hi n h = ground (
      arith,
      number_of_le lo hi,
      lt-eq-not-le x lo n,
      lt-eq-not-le hi x,
      lt-eq-not-le hi lo,
      le_of_lt x lo,
      le_of_lt hi x,
    )

    pub clamp_bounds :
        (x lo hi : F) {y : F} → IsNumber x → clamp x lo hi ≡ some y → (lo ≼ y) × (y ≼ hi)
    clamp_bounds x lo hi n h = ground (arith, clamp-Clamped x lo hi n h, number_of_le lo hi)

    pub clamp_within : (x lo hi : F) → lo ≼ x → x ≼ hi → clamp x lo hi ≡ some x
    unfolding clamp
    clamp_within x lo hi h k = ground (
      arith,
      le_trans lo x hi h k,
      number_of_le lo x h,
      number_of_le x hi k,
      lt-eq-not-le x lo,
      lt-eq-not-le hi x,
    )

  pub clamp_ordered : (x lo hi : F) → lo ≼ hi → (y : F) × (clamp x lo hi ≡ some y)
  unfolding clamp
  clamp_ordered x lo hi h = rw h (_, refl)
