-- ===== src/Adapters/Process/Wait.antt =====
-- The wait for a child ends, at the first round that decides it.
use pid_ctl.Prelude.{
  ℕ, zero, suc, ◌+◌, ◌*◌, ◌/◌, ◌≤◌, ◌<◌, ◌≡◌, refl, arith, none, some, Option-cases, inl, inr,
  Bool-cases, ◌==◌, ◌⊎◌, subst,
}
use pid_ctl.Adapters.Process.{
  Poll, Child, Waited, verdict, wait_from, poll_sleep, wait_child_deadline,
}

-- The loop returns what the round `last` decides, and no earlier one decides anything.
pub record Decided (deadline : ℕ) (polls : ℕ → Poll) (first last : ℕ) (w : Waited) : Type 0 where
  pub decides : verdict deadline (polls last) ≡ some w
  pub undecided : (r : ℕ) → first ≤ r → r < last → verdict deadline (polls r) ≡ none

eq_or_lt : (a b : ℕ) → a ≤ b → (a ≡ b) ⊎ (suc a ≤ b)
eq_or_lt a b h = elim (Bool-cases (a == b)) [
  | inl same ↦ inl (ground arith)
  | inr differ ↦ inr (ground arith)
]

verdict-none : (deadline : ℕ) (p : Poll) → verdict deadline p ≡ none → p.now < deadline
unfolding verdict
verdict-none deadline p e = ground arith

-- What `n` rounds from some round on return.
abbrev pub Returns : ℕ → ℕ → (ℕ → Poll) → ℕ → Type 0
Returns n deadline polls round =
    (w : Waited) × (last : ℕ) × (wait_from n deadline polls round ≡ some w)
    × (round ≤ last)
    × (last < round + n)
    × Decided deadline polls round last w

wait_from-found :
    (fuel deadline : ℕ) (polls : ℕ → Poll) (round : ℕ) (w : Waited)
    → verdict deadline (polls round) ≡ some w
    → Returns (suc fuel) deadline polls round
unfolding wait_from
wait_from-found fuel deadline polls round w found = (
  w,
  round,
  rw (found, wait_from) refl,
  omega arith,
  omega arith,
  record { decides = found; undecided = λ r a b. absurd (omega (arith, a, b)) },
)

wait_from-next :
    (fuel deadline : ℕ) (polls : ℕ → Poll) (round : ℕ)
    → verdict deadline (polls round) ≡ none
    → Returns fuel deadline polls (suc round)
    → Returns (suc fuel) deadline polls round
unfolding wait_from
wait_from-next fuel deadline polls round waits (w, last, found, low, high, d) = (
  w,
  last,
  rw (waits, wait_from) found,
  omega arith,
  omega arith,
  record {
    decides = d.decides;
    undecided = λ r a b. elim (eq_or_lt round r a) [
      | inl same ↦ subst (λ k. verdict deadline (polls k) ≡ none) same waits
      | inr later ↦ d.undecided r later b
    ];
  },
)

wait_from-Returns :
    (fuel deadline : ℕ) (polls : ℕ → Poll) (round : ℕ)
    → ((r : ℕ) → (polls r).now + poll_sleep ≤ (polls (suc r)).now)
    → deadline ≤ (polls round).now + fuel * poll_sleep
    → Returns (suc fuel) deadline polls round
wait_from-Returns zero deadline polls round clock enough =
    elim (Option-cases (verdict deadline (polls round))) [
      | inr (w, found) ↦ wait_from-found zero deadline polls round w found
      | inl waits ↦ absurd (omega (arith, verdict-none deadline (polls round) waits))
    ]
wait_from-Returns (suc fuel) deadline polls round clock enough =
    elim (Option-cases (verdict deadline (polls round))) [
      | inr (w, found) ↦ wait_from-found (suc fuel) deadline polls round w found
      | inl waits ↦
          wait_from-next (suc fuel) deadline polls round waits
            (wait_from-Returns fuel deadline polls (suc round) clock (omega (arith, clock round)))
    ]

-- The wait for a child ends, if the clock does not run backwards before the first round and a sleep
-- takes a millisecond at least: it returns what the first round that decides says, in at most two
-- rounds more than the timeout has milliseconds.
pub wait_child_deadline-Returns :
    (c : Child) (dur : ℕ)
    → c.started ≤ (c.polls 0).now
    → ((r : ℕ) → (c.polls r).now + poll_sleep ≤ (c.polls (suc r)).now)
    → (w : Waited) × (last : ℕ) × (wait_child_deadline c dur ≡ some w)
      × (last < dur / poll_sleep + 2)
      × Decided (c.started + dur) c.polls 0 last w
unfolding wait_child_deadline
wait_child_deadline-Returns c dur from clock =
    let rounds : (suc (dur / poll_sleep + 1)) ≡ dur / poll_sleep + 2 = omega arith in
    let (w, last, found, _, high, d) =
      subst (λ n. Returns n (c.started + dur) c.polls 0) rounds
        (wait_from-Returns (dur / poll_sleep + 1) (c.started + dur) c.polls 0 clock
          (omega (arith, from))) in
    (w, last, found, omega (arith, high), d)
