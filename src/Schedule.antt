-- ===== src/Schedule.antt =====
-- crates/pid-ctl/src/schedule.rs. Instants and durations are counted in nanoseconds.
use pid_ctl.Prelude.{
  Bool-cases, leb→le, inl, inr, ◌⊎◌, ℕ, zero, suc, ◌+◌, ◌*◌, ◌≤◌, ◌<◌, ◌≡◌, refl, arith,
  if◌then◌else◌, Option, none, some, leb,
}

-- `while next <= now { next += interval }`, with fuel; `none` means that the fuel ran out.
pub advance : ℕ → ℕ → ℕ → ℕ → Option ℕ
advance zero interval now next = none
advance (suc fuel) interval now next =
    let rest = advance fuel interval now (next + interval) in
    if leb next now then rest else some next

-- The loop runs at most once for each nanosecond that `now` is late.
unfoldable pub next_deadline_after_tick : ℕ → ℕ → ℕ → Option ℕ
unfolding advance
next_deadline_after_tick tick_deadline interval now =
    advance (now + 2) interval now (tick_deadline + interval)

-- What the loop returns: the first boundary `next + k * interval` after `now`.
abbrev IsFirst : ℕ → ℕ → ℕ → ℕ → Type 0
IsFirst interval now next r =
    (k : ℕ) × (r ≡ next + k * interval) × (now < r) × ((j : ℕ) → j < k → next + j * interval ≤ now)

IsFirst-later :
    (interval now next r : ℕ)
    → next ≤ now
    → IsFirst interval now (next + interval) r
    → IsFirst interval now next r
IsFirst-later interval now next r due (k, e, after, earlier) =
    (suc k, grind arith, after, boundaries)
  where
    boundaries : (j : ℕ) → j < suc k → next + j * interval ≤ now
    boundaries zero h = omega arith
    boundaries (suc j) h = let e' = earlier j (omega arith) in grind arith

advance_lem :
    (fuel interval now next : ℕ)
    → 0 < interval
    → now + 1 < fuel + next
    → 0 < fuel
    → (r : ℕ) × (advance fuel interval now next ≡ some r) × IsFirst interval now next r
unfolding advance
advance_lem zero interval now next h f p = absurd (omega arith)
advance_lem (suc fuel) interval now next h f p = elim (Bool-cases (leb next now)) [
  | inl late ↦
      let due : next ≤ now = leb→le next now late in
      let (r, e, first) =
        advance_lem fuel interval now (next + interval) h (omega arith) (omega arith) in
      rw late (r, e, IsFirst-later interval now next r due first)
  | inr early ↦ rw early (next, refl, (0, omega arith, ground arith, λ j hj. absurd (omega arith)))
]

-- For an interval that is not zero, the loop ends, at a boundary of the grid
-- `tick_deadline + k * interval` with k at least 1 that is strictly after `now`; and it is the first
-- such one, k is 1 or the boundary before it is not after `now`.
pub next_deadline_on_grid :
    (tick_deadline interval now : ℕ)
    → 0 < interval
    → (r : ℕ) × (next_deadline_after_tick tick_deadline interval now ≡ some r)
      × (k : ℕ) × (r ≡ tick_deadline + suc k * interval)
      × (now < r)
      × ((k ≡ 0) ⊎ (tick_deadline + k * interval ≤ now))
unfolding next_deadline_after_tick
next_deadline_on_grid tick_deadline interval now h =
    let (r, e, (k, q, after, earlier)) =
      advance_lem (now + 2) interval now (tick_deadline + interval) h (omega arith) (omega arith) in
    (r, e, k, grind arith, after, previous k earlier)
  where
    previous :
        (k : ℕ)
        → ((j : ℕ) → j < k → tick_deadline + interval + j * interval ≤ now)
        → (k ≡ 0) ⊎ (tick_deadline + k * interval ≤ now)
    previous zero earlier = inl refl
    previous (suc j) earlier = let e = earlier j (omega arith) in inr (grind arith)

advance_stuck : (fuel now next : ℕ) → next ≤ now → advance fuel 0 now next ≡ none
unfolding advance
advance_stuck zero now next late = refl
advance_stuck (suc fuel) now next late = ground (arith, advance_stuck fuel now (next + 0))

-- With an interval of zero, a tick that is not early never ends: however much fuel the loop is
-- given, it has no result.
pub next_deadline_zero_interval :
    (fuel tick_deadline now : ℕ)
    → tick_deadline ≤ now
    → (advance fuel 0 now (tick_deadline + 0) ≡ none)
      × (next_deadline_after_tick tick_deadline 0 now ≡ none)
unfolding next_deadline_after_tick
next_deadline_zero_interval fuel tick_deadline now late = (
  advance_stuck fuel now (tick_deadline + 0) (omega arith),
  advance_stuck (now + 2) now (tick_deadline + 0) (omega arith),
)
