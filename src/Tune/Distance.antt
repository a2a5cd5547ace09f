-- ===== src/Tune/Distance.antt =====
-- The fuzzy match of command names (crates/pid-ctl/src/tune/input.rs). A text is the list of its
-- characters, by their code points.
pub mod Least
use pid_ctl.Prelude.{
  ℕ, suc, ◌+◌, min, Bool, true, false, List, [], ◌∷◌, if◌then◌else◌, ltb, leb, ◌==◌, take, length,
  ◌||◌, ◌&&◌, map,
}

abbrev pub Chars : Type 0
Chars = List ℕ

abbrev pub cost : ℕ → ℕ → ℕ
cost x y = if x == y then 0 else 1

-- `row`, before the first character of `a`: the numbers from 0 to the length of `b`.
unfoldable pub first_row : ℕ → Chars → List ℕ
first_row j [] = j ∷ []
first_row j (y ∷ b) = j ∷ first_row (suc j) b

-- The inner loop for the character `x`, from some column on, where `prev` is the old value in the
-- column before, and `left` the new one.
unfoldable pub sweep : ℕ → Chars → (prev left : ℕ) → List ℕ → List ℕ
sweep x [] prev left olds = []
sweep x (y ∷ b) prev left [] = []
sweep x (y ∷ b) prev left (old ∷ olds) =
    let new = min (min (prev + cost x y) (old + 1)) (left + 1) in new ∷ sweep x b old new olds

-- A round of the outer loop.
unfoldable pub next_row : ℕ → Chars → ℕ → List ℕ → List ℕ
next_row x b i [] = []
next_row x b i (prev ∷ olds) = i ∷ sweep x b prev i olds

unfoldable pub last_row : Chars → Chars → ℕ → List ℕ → List ℕ
last_row [] b i row = row
last_row (x ∷ a) b i row = last_row a b (suc i) (next_row x b i row)

-- `row[b.len()]`.
unfoldable pub last : List ℕ → ℕ
last [] = 0
last (n ∷ []) = n
last (n ∷ m ∷ ns) = last (m ∷ ns)

unfoldable pub levenshtein : Chars → Chars → ℕ
levenshtein a b = last (last_row a b 1 (first_row 0 b))
