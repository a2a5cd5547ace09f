-- ===== src/Tune/Suggest/Close.antt =====
-- Every suggestion is close to what was typed.
use pid_ctl.Prelude.{
  ℕ, zero, suc, ◌≤◌, ◌≡◌, ◌⊎◌, inl, inr, refl, sym, ap, ◌∙◌, arith, Bool, true, List, [], ◌∷◌, map,
  take, length, All, if-both, if-split, leb→le, ltb,
}
use mathlib.Core.List.{Memᴰ}
use mathlib.Core.Bool.{true≢false}
use pid_ctl.Tune.Distance.{Chars, levenshtein}
use pid_ctl.Tune.Distance.Least.{Edits, levenshtein_least}
use pid_ctl.Tune.Suggest.{
  starts_with, byte_len, filter, not_after, insert, sort, score, is_near, word_of, nearest,
  or_nearest, fuzzy_names, fuzzy_command_names, command_mode_words,
}

module _ {ℓ κ μ} {A : Type ℓ} {B : Type κ} where
  All-map : (P : B → Type μ) (f : A → B) (xs : List A) → All (λ x. P (f x)) xs → All P (map f xs)
  All-map P f [] _ = tt
  All-map P f (x ∷ xs) (p, ps) = (p, All-map P f xs ps)

module _ {ℓ κ} {A : Type ℓ} (P : A → Type κ) where
  All-take : (n : ℕ) (xs : List A) → All P xs → All P (take n xs)
  All-take zero xs _ = tt
  All-take (suc n) [] _ = tt
  All-take (suc n) (x ∷ xs) (p, ps) = (p, All-take n xs ps)

  -- What holds of an element if the test does holds of what the filter keeps.
  All-filter : (p : A → Bool) (xs : List A) → All (λ x. p x ≡ true → P x) xs → All P (filter p xs)
  unfolding filter
  All-filter p [] _ = tt
  All-filter p (x ∷ xs) (h, hs) =
      if-split (All P) (p x) (λ yes. (h yes, All-filter p xs hs)) (λ _. All-filter p xs hs)

All-insert :
    (P : Chars × ℕ → Type 0) (s : Chars × ℕ) (ss : List (Chars × ℕ))
    → P s
    → All P ss
    → All P (insert s ss)
unfolding insert
All-insert P s [] p _ = (p, tt)
All-insert P s (t ∷ ts) p (q, qs) =
    if-both (All P) (not_after s t) (p, (q, qs)) (q, All-insert P s ts p qs)

All-sort : (P : Chars × ℕ → Type 0) (ss : List (Chars × ℕ)) → All P ss → All P (sort ss)
unfolding sort
All-sort P [] _ = tt
All-sort P (s ∷ ss) (p, ps) = All-insert P s (sort ss) p (All-sort P ss ps)

-- All of `xs` have `P`, if all that are among `xs` have it.
All-among {ℓ κ} :
    {A : Type ℓ} (P : A → Type κ) (xs : List A) → ((x : A) → Memᴰ x xs → P x) → All P xs
All-among P [] h = tt
All-among P (x ∷ xs) h = (h x (Memᴰ.head refl), All-among P xs (λ y m. h y (Memᴰ.tail m)))

-- At most two edits make the command out of what was typed.
abbrev pub WithinTwo : Chars → Chars → Type 0
WithinTwo token c = (k : ℕ) × (k ≤ 2) × Edits token c k

-- One of the words, which begins with what was typed or is two edits away at most.
abbrev pub Suggested : List Chars → Chars → Chars → Type 0
Suggested words token c = Memᴰ c words × ((starts_with c token ≡ true) ⊎ WithinTwo token c)

nearest-Suggested :
    (words : List Chars) (token : Chars) → All (Suggested words token) (nearest token words)
unfolding nearest
nearest-Suggested words token =
    let P : Chars × ℕ → Type 0 = λ s. Suggested words token s.0 in
    let scored =
      All-map (λ s. is_near s ≡ true → P s) (score token) words
        (All-among (λ c. is_near (score token c) ≡ true → Suggested words token c) words
          (λ c m near.
            (m, inr ((levenshtein_least token c 2).1 (leb→le (levenshtein token c) 2 near))))) in
    All-take (Suggested words token) 5 _ (
      All-map (Suggested words token) word_of _
        (All-sort P _ (All-filter P is_near (map (score token) words) scored)))

or_nearest-Suggested :
    (words : List Chars) (token : Chars) (prefixes : List Chars)
    → All (Suggested words token) prefixes
    → All (Suggested words token) (or_nearest token words prefixes)
unfolding or_nearest
or_nearest-Suggested words token [] _ =
    if-both (All (Suggested words token)) (ltb 8 (byte_len token)) tt
      (nearest-Suggested words token)
or_nearest-Suggested words token (p ∷ prefixes) ps = ps

fuzzy_names-Suggested :
    (words : List Chars) (token : Chars) → All (Suggested words token) (fuzzy_names words token)
unfolding fuzzy_names
fuzzy_names-Suggested words [] = tt
fuzzy_names-Suggested words (t ∷ token) = or_nearest-Suggested words (t ∷ token) _ (
    All-filter (Suggested words (t ∷ token)) (λ c. starts_with c (t ∷ token)) words
      (All-among (λ c. starts_with c (t ∷ token) ≡ true → Suggested words (t ∷ token) c) words
        (λ c m yes. (m, inl yes))))

-- Every suggestion is a word of the command line, and begins with what was typed, or at most two
-- edits of one character make it out of that.
pub fuzzy_command_names-Suggested :
    (token : Chars) → All (Suggested command_mode_words token) (fuzzy_command_names token)
unfolding fuzzy_command_names
fuzzy_command_names-Suggested token = fuzzy_names-Suggested command_mode_words token

length-cons {ℓ} : {A : Type ℓ} (x : A) (xs : List A) → 1 ≤ length (x ∷ xs)
length-cons x xs = omega arith

length-filter {ℓ} :
    {A : Type ℓ} (p : A → Bool) (x : A) (xs : List A)
    → Memᴰ x xs
    → p x ≡ true
    → 1 ≤ length (filter p xs)
unfolding filter
length-filter p x [] m h = elim m [ ]
length-filter {A} p x (y ∷ xs) (Memᴰ.head e) h =
    if-split (λ (l : List A). 1 ≤ length l) (p y) (λ _. length-cons y (filter p xs))
      (λ no. absurd (true≢false (sym h ∙ ap p e ∙ no)))
length-filter {A} p x (y ∷ xs) (Memᴰ.tail m) h =
    let rest = length-filter p x xs m h in
    if-both (λ (l : List A). 1 ≤ length l) (p y) (length-cons y (filter p xs)) rest

Memᴰ-map {ℓ κ} :
    {A : Type ℓ} {B : Type κ} (f : A → B) (x : A) (xs : List A) → Memᴰ x xs → Memᴰ (f x) (map f xs)
Memᴰ-map f x [] m = elim m [ ]
Memᴰ-map f x (y ∷ xs) (Memᴰ.head e) = Memᴰ.head (ap f e)
Memᴰ-map f x (y ∷ xs) (Memᴰ.tail m) = Memᴰ.tail (Memᴰ-map f x xs m)

length-insert : (s : Chars × ℕ) (ss : List (Chars × ℕ)) → 1 ≤ length (insert s ss)
unfolding insert
length-insert s [] = omega arith
length-insert s (t ∷ ts) =
    if-both (λ (l : List (Chars × ℕ)). 1 ≤ length l) (not_after s t) (length-cons s (t ∷ ts))
      (length-cons t (insert s ts))

length-sort : (ss : List (Chars × ℕ)) → 1 ≤ length ss → 1 ≤ length (sort ss)
unfolding sort
length-sort [] h = h
length-sort (s ∷ ss) _ = length-insert s (sort ss)

length-take-map : (ss : List (Chars × ℕ)) → 1 ≤ length ss → 1 ≤ length (take 5 (map word_of ss))
length-take-map [] h = h
length-take-map (s ∷ ss) _ = omega arith

length-nearest :
    (words : List Chars) (token c : Chars)
    → Memᴰ c words
    → levenshtein token c ≤ 2
    → 1 ≤ length (nearest token words)
unfolding nearest
length-nearest words token c m near =
    let kept =
      length-filter is_near (score token c) (map (score token) words)
        (Memᴰ-map (score token) c words m) (ground arith) in
    length-take-map _ (length-sort _ kept)

length-or_nearest :
    (words : List Chars) (token : Chars) (prefixes : List Chars)
    → byte_len token ≤ 8
    → (1 ≤ length prefixes) ⊎ (1 ≤ length (nearest token words))
    → 1 ≤ length (or_nearest token words prefixes)
unfolding or_nearest
length-or_nearest words token (p ∷ prefixes) short h = omega arith
length-or_nearest words token [] short (inl h) = absurd (omega (arith, h))
length-or_nearest words token [] short (inr h) =
    if-split (λ (l : List Chars). 1 ≤ length l) (ltb 8 (byte_len token))
      (λ long. absurd (ground (arith, long, short))) (λ _. h)

-- What is typed, of at most eight bytes and not nothing, gets a suggestion if some command begins
-- with it, or if at most two edits of one character make some command out of it.
length-fuzzy_command_names :
    (t : ℕ) (token c : Chars)
    → byte_len (t ∷ token) ≤ 8
    → Memᴰ c command_mode_words
    → (starts_with c (t ∷ token) ≡ true) ⊎ WithinTwo (t ∷ token) c
    → 1 ≤ length (fuzzy_command_names (t ∷ token))
unfolding fuzzy_command_names fuzzy_names
length-fuzzy_command_names t token c short m (inl begins) =
    length-or_nearest command_mode_words (t ∷ token) _ short
      (inl (length-filter (λ w. starts_with w (t ∷ token)) c command_mode_words m begins))
length-fuzzy_command_names t token c short m (inr edits) =
    length-or_nearest command_mode_words (t ∷ token) _ short (
      inr (
        length-nearest command_mode_words (t ∷ token) c m
          ((levenshtein_least (t ∷ token) c 2).0 edits)))
