-- ===== src/Tune/Distance/Least.antt =====
-- What the single-row algorithm computes.
use pid_ctl.Prelude.{
  Bool-cases, inl, inr, ◌⊎◌, ◌↔◌, ℕ, suc, ◌+◌, ◌≤◌, min, ◌≡◌, refl, ap, ◌∙◌, subst, arith, List, [],
  ◌∷◌, ◌++◌, length, ◌==◌,
}
use mathlib.Core.List.{append-nil}
use pid_ctl.Tune.Distance.{Chars, cost, first_row, sweep, next_row, last_row, last, levenshtein}

-- The distance, by recursion on both texts.
distance : Chars → Chars → ℕ
distance [] b = length b
distance (x ∷ a) [] = suc (length a)
distance (x ∷ a) (y ∷ b) =
    min (min (distance a b + cost x y) (distance a (y ∷ b) + 1)) (distance (x ∷ a) b + 1)

-- The row of the distances from `ra` to the prefixes of a text, as `rb` backwards grows by `b`.
row_from : Chars → Chars → Chars → List ℕ
row_from ra rb [] = distance ra rb ∷ []
row_from ra rb (y ∷ b) = distance ra rb ∷ row_from ra (y ∷ rb) b

after_first : List ℕ → List ℕ
after_first [] = []
after_first (n ∷ ns) = ns

-- A sequence of edits, and how many of them change something.
pub data Edits : Chars → Chars → ℕ → Type 0 where
  done : Edits [] [] 0
  keep : {a b : Chars} {n : ℕ} (x : ℕ) → Edits a b n → Edits (x ∷ a) (x ∷ b) n
  change : {a b : Chars} {n : ℕ} (x y : ℕ) → Edits a b n → Edits (x ∷ a) (y ∷ b) (suc n)
  insert : {a b : Chars} {n : ℕ} (y : ℕ) → Edits a b n → Edits a (y ∷ b) (suc n)
  delete : {a b : Chars} {n : ℕ} (x : ℕ) → Edits a b n → Edits (x ∷ a) b (suc n)

distance-cons_right : (a b : Chars) (y : ℕ) → distance a (y ∷ b) ≤ distance a b + 1
unfolding distance
distance-cons_right [] b y = omega arith
distance-cons_right (x ∷ a) b y = omega arith

distance-cons_left : (a b : Chars) (x : ℕ) → distance (x ∷ a) b ≤ distance a b + 1
unfolding distance
distance-cons_left [] [] x = omega arith
distance-cons_left (z ∷ a) [] x = omega arith
distance-cons_left a (y ∷ b) x = omega arith

distance-least : {a b : Chars} {n : ℕ} → Edits a b n → distance a b ≤ n
unfolding distance
distance-least done = omega arith
distance-least (keep x e) = ground (arith, distance-least e)
distance-least (change x y e) = ground (arith, distance-least e)
distance-least {a = a} (insert {b = b} y e) =
    omega (arith, distance-least e, distance-cons_right a b y)
distance-least {b = b} (delete {a = a} x e) =
    omega (arith, distance-least e, distance-cons_left a b x)

min-cases : (m n : ℕ) → (min m n ≡ m) ⊎ (min m n ≡ n)
min-cases m n = ground arith

-- The two characters at the head, kept or changed.
head_edit : {a b : Chars} {n : ℕ} (x y : ℕ) → Edits a b n → Edits (x ∷ a) (y ∷ b) (n + cost x y)
head_edit {a} {b} {n} x y e = elim (Bool-cases (x == y)) [
  | inl same ↦
      subst (λ k. Edits (x ∷ a) (y ∷ b) k) (ground arith)
        (subst (λ z. Edits (x ∷ a) (z ∷ b) n) (ground arith) (keep x e))
  | inr other ↦ subst (λ k. Edits (x ∷ a) (y ∷ b) k) (ground arith) (change x y e)
]

distance-nil : (a : Chars) → distance a [] ≡ length a
unfolding distance
distance-nil [] = refl
distance-nil (x ∷ a) = refl

distance-Edits : (a b : Chars) → Edits a b (distance a b)
unfolding distance
distance-Edits [] [] = done
distance-Edits [] (y ∷ b) = insert y (distance-Edits [] b)
distance-Edits (x ∷ a) [] = delete x (subst (Edits a []) (distance-nil a) (distance-Edits a []))
distance-Edits (x ∷ a) (y ∷ b) =
    let p = head_edit x y (distance-Edits a b) in
    let q = delete x (distance-Edits a (y ∷ b)) in
    let r = insert y (distance-Edits (x ∷ a) b) in
    elim (min-cases (min (distance a b + cost x y) (distance a (y ∷ b) + 1))
      (distance (x ∷ a) b + 1)) [
        | inr e ↦ subst (Edits (x ∷ a) (y ∷ b)) (omega (arith, e)) r
        | inl e ↦ elim (min-cases (distance a b + cost x y) (distance a (y ∷ b) + 1)) [
          | inl f ↦ subst (Edits (x ∷ a) (y ∷ b)) (omega (arith, e, f)) p
          | inr f ↦ subst (Edits (x ∷ a) (y ∷ b)) (omega (arith, e, f)) q
        ]
      ]

-- The row of the algorithm is the row of the distances.
row_from-cons :
    (ra rb b : Chars) → row_from ra rb b ≡ distance ra rb ∷ after_first (row_from ra rb b)
unfolding row_from after_first
row_from-cons ra rb [] = refl
row_from-cons ra rb (y ∷ b) = refl

sweep-row_from :
    (x : ℕ) (ra rb b : Chars)
    → sweep x b (distance ra rb) (distance (x ∷ ra) rb) (after_first (row_from ra rb b))
      ≡ after_first (row_from (x ∷ ra) rb b)
unfolding sweep row_from after_first distance
sweep-row_from x ra rb [] = refl
sweep-row_from x ra rb (y ∷ b) =
    rw (row_from-cons ra (y ∷ rb) b, row_from-cons (x ∷ ra) (y ∷ rb) b)
      (ap (λ ns. distance (x ∷ ra) (y ∷ rb) ∷ ns) (sweep-row_from x ra (y ∷ rb) b))

-- A text backwards, in front of another one.
back : Chars → Chars → Chars
back [] r = r
back (x ∷ a) r = back a (x ∷ r)

first_row-row_from : (rb b : Chars) → first_row (length rb) b ≡ row_from [] rb b
unfolding first_row row_from distance
first_row-row_from rb [] = refl
first_row-row_from rb (y ∷ b) = ap (λ ns. length rb ∷ ns) (first_row-row_from (y ∷ rb) b)

next_row-row_from :
    (x : ℕ) (ra b : Chars)
    → next_row x b (suc (length ra)) (row_from ra [] b) ≡ row_from (x ∷ ra) [] b
unfolding next_row distance
next_row-row_from x ra b =
    rw (row_from-cons ra [] b, row_from-cons (x ∷ ra) [] b)
      (ap (λ ns. suc (length ra) ∷ ns) (sweep-row_from x ra [] b))

last_row-row_from :
    (a ra b : Chars) → last_row a b (suc (length ra)) (row_from ra [] b) ≡ row_from (back a ra) [] b
unfolding last_row back
last_row-row_from [] ra b = refl
last_row-row_from (x ∷ a) ra b =
    ap (last_row a b (suc (suc (length ra)))) (next_row-row_from x ra b)
    ∙ last_row-row_from a (x ∷ ra) b

last-row_from : (ra rb b : Chars) → last (row_from ra rb b) ≡ distance ra (back b rb)
unfolding row_from back last
last-row_from ra rb [] = refl
last-row_from ra rb (y ∷ []) = refl
last-row_from ra rb (y ∷ z ∷ b) = last-row_from ra (y ∷ rb) (z ∷ b)

levenshtein-distance : (a b : Chars) → levenshtein a b ≡ distance (back a []) (back b [])
unfolding levenshtein
levenshtein-distance a b =
    ap (λ row. last (last_row a b 1 row)) (first_row-row_from [] b)
    ∙ (ap last (last_row-row_from a [] b) ∙ last-row_from (back a []) [] b)

Edits-back :
    {a b c d : Chars} {n m : ℕ} → Edits a b n → Edits c d m → Edits (back a c) (back b d) (n + m)
unfolding back
Edits-back {c = c} {d = d} done f = subst (Edits c d) (omega arith) f
Edits-back (keep x e) f = Edits-back e (keep x f)
Edits-back {c = c} {d = d} (change {a = a} {b = b} x y e) f =
    subst (Edits (back a (x ∷ c)) (back b (y ∷ d))) (omega arith) (Edits-back e (change x y f))
Edits-back {c = c} {d = d} (insert {a = a} {b = b} y e) f =
    subst (Edits (back a c) (back b (y ∷ d))) (omega arith) (Edits-back e (insert y f))
Edits-back {c = c} {d = d} (delete {a = a} {b = b} x e) f =
    subst (Edits (back a (x ∷ c)) (back b d)) (omega arith) (Edits-back e (delete x f))

back-back : (a c d : Chars) → back (back a c) d ≡ back c (a ++ d)
unfolding back
back-back [] c d = refl
back-back (x ∷ a) c d = back-back a (x ∷ c) d

back_twice : (a : Chars) → back (back a []) [] ≡ a
unfolding back
back_twice a = back-back a [] [] ∙ append-nil a

levenshtein-Edits : (a b : Chars) → Edits a b (levenshtein a b)
levenshtein-Edits a b =
    let d = distance (back a []) (back b []) in
    let again = Edits-back (distance-Edits (back a []) (back b [])) done in
    let there : Edits a b (d + 0) =
      subst (λ z. Edits z b (d + 0)) (back_twice a)
        (subst (λ z. Edits (back (back a []) []) z (d + 0)) (back_twice b) again) in
    subst (Edits a b) (omega (arith, levenshtein-distance a b)) there

Edits-least : {a b : Chars} {n : ℕ} → Edits a b n → levenshtein a b ≤ n
Edits-least {a} {b} e = omega (arith, distance-least (Edits-back e done), levenshtein-distance a b)

-- The result of the single-row algorithm is the least number of edits, each of which changes,
-- inserts or deletes one character, that make the second text out of the first: at most `n` edits
-- do so exactly if the result is at most `n`.
pub levenshtein_least :
    (a b : Chars) (n : ℕ) → ((k : ℕ) × (k ≤ n) × Edits a b k) ↔ (levenshtein a b ≤ n)
levenshtein_least a b n = (
  λ (k, below, e). omega (arith, below, Edits-least e),
  λ below. (levenshtein a b, below, levenshtein-Edits a b),
)
