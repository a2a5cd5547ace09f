-- ===== src/App/Persister/Counting.antt =====
-- The persister over a history of calls: how failures are counted, and how often it writes.
use pid_ctl.Prelude.{
  ℕ, suc, ◌-◌, ◌≤◌, ◌<◌, ◌≡◌, ◌↔◌, refl, arith, Option, none, some, Bool, true, false, List, [],
  ◌∷◌, min, if◌then◌else◌, inl, inr, ◌⊎◌, Option-cases,
}
use pid_ctl.App.Snapshot.{StateSnapshot, StateStoreError}
use pid_ctl.App.StateStore.{FilePath, Files, Json, World, save}
use pid_ctl.App.Persister.{
  SnapshotPersister, new_persister, after_save, attempt, persist, force_flush, is_coalesced,
  fail_escalated, u32_max,
}

-- A call of `persist`, with its two clock readings, or of `force_flush`.
pub data Call (F : Type 0) : Type 0 where
  persists : StateSnapshot F → ℕ → ℕ → Call F
  flushes : StateSnapshot F → ℕ → Call F

-- The failures at the end of a list of results, newest first.
abbrev pub trailing_failures : List (Option StateStoreError) → ℕ
trailing_failures [] = 0
trailing_failures (none ∷ rs) = 0
trailing_failures (some e ∷ rs) = suc (trailing_failures rs)

module _ {D : Type 0} {F : Type 0} (files : Files D) (format : Json F) where
  -- The persister, the world and the results of the writes so far, newest first.
  pub record History : Type 0 where
    pub persister : SnapshotPersister
    pub world : World D
    pub results : List (Option StateStoreError)

  -- Whether a call writes.
  unfoldable pub writes : SnapshotPersister → Call F → Bool
  writes p (persists s now done) = elim p.store [
    | none ↦ false
    | some path ↦ if is_coalesced p now then false else true
  ]
  writes p (flushes s done) = elim p.store [ none ↦ false | some path ↦ true ]

  unfoldable pub run_call :
      SnapshotPersister → World D → Call F → Option StateStoreError × SnapshotPersister × World D
  run_call p w (persists s now done) = persist files format p s now done w
  run_call p w (flushes s done) = force_flush files format p s done w

  unfoldable pub step : History → Call F → History
  step h c =
      let r = run_call h.persister h.world c in
      record {
        persister = r.1;
        world = r.2;
        results = if writes h.persister c then r.0 ∷ h.results else h.results;
      }

  unfoldable pub run : History → List (Call F) → History
  run h [] = h
  run h (c ∷ cs) = run (step h c) cs

  abbrev IsCounted : ℕ → History → Type 0
  IsCounted after h =
      (h.persister.fail_count ≡ min (trailing_failures h.results) u32_max)
      × (h.persister.fail_after ≡ after)

  attempt-IsCounted :
      (after : ℕ) (path : FilePath) (p : SnapshotPersister) (s : StateSnapshot F) (done : ℕ)
      (w : World D) (rs : List (Option StateStoreError))
      → (p.fail_count ≡ min (trailing_failures rs) u32_max) × (p.fail_after ≡ after)
      → let r = attempt files format path p s done w in
        (r.1.fail_count ≡ min (trailing_failures (r.0 ∷ rs)) u32_max) × (r.1.fail_after ≡ after)
  unfolding attempt after_save
  attempt-IsCounted after path p s done w rs h = ground arith

  step-IsCounted :
      (after : ℕ) (h : History) (c : Call F) → IsCounted after h → IsCounted after (step h c)
  unfolding step run_call writes persist force_flush
  step-IsCounted after h (persists s now done) k = elim (Option-cases h.persister.store) [
    | inl e ↦ ground arith
    | inr (path, e) ↦
        let counted = attempt-IsCounted after path h.persister s done h.world h.results k in
        ground arith
  ]
  step-IsCounted after h (flushes s done) k = elim (Option-cases h.persister.store) [
    | inl e ↦ ground arith
    | inr (path, e) ↦
        let counted = attempt-IsCounted after path h.persister s done h.world h.results k in
        ground arith
  ]

  run-IsCounted :
      (after : ℕ) (h : History) (cs : List (Call F))
      → IsCounted after h
      → IsCounted after (run h cs)
  unfolding run
  run-IsCounted after h [] k = k
  run-IsCounted after h (c ∷ cs) k = run-IsCounted after (step h c) cs (step-IsCounted after h c k)

  -- After any history of calls, from a new persister on: the failure count is the number of failed
  -- writes since the last good one (as far as a u32 goes), and the warning escalates exactly when
  -- the threshold is not zero and that count has reached it. Calls that write nothing, with no
  -- store or within the flush interval, change neither.
  pub run_counts :
      (store lock : Option FilePath) (interval : Option ℕ) (after : ℕ) (w : World D)
      (cs : List (Call F))
      → let h =
          run
            (record {
              persister = new_persister store lock interval after;
              world = w;
              results = [];
            })
            cs in
        (h.persister.fail_count ≡ min (trailing_failures h.results) u32_max)
        × ((fail_escalated h.persister ≡ true)
            ↔ ((0 < after) × (after ≤ min (trailing_failures h.results) u32_max)))
  unfolding fail_escalated new_persister
  run_counts store lock interval after w cs =
      let start : History = record {
        persister = new_persister store lock interval after;
        world = w;
        results = [];
      } in
      let counted = run-IsCounted after start cs (omega arith, refl) in ground arith

  -- With a flush interval and a write done at `last`, `persist` leaves persister and world as they
  -- are until the interval has passed; from then on it does what `save` does, with its result, and
  -- a write that succeeds moves `last_flush` to the time at which it was done.
  persist_rate :
      (p : SnapshotPersister) (s : StateSnapshot F) (path : FilePath) (interval last now done : ℕ)
      (w : World D)
      → p.store ≡ some path
      → p.flush_interval ≡ some interval
      → p.last_flush ≡ some last
      → let r = persist files format p s now done w in
        ((now - last < interval) × (r.0 ≡ none) × (r.1 ≡ p) × (r.2 ≡ w))
        ⊎ ((interval ≤ now - last)
            × (r.0 ≡ (save files format path s w).0)
            × (r.2 ≡ (save files format path s w).1)
            × (((e : StateStoreError) × (r.0 ≡ some e)) ⊎ (r.1.last_flush ≡ some done)))
  unfolding persist is_coalesced attempt after_save
  persist_rate p s path interval last now done w a b c =
      elim (Option-cases (save files format path s w).0) [
        | inl good ↦ ground arith
        | inr (e, bad) ↦ ground arith
      ]
