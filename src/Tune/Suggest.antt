-- ===== src/Tune/Suggest.antt =====
-- The suggestions for a mistyped command (`fuzzy_command_names` of
-- crates/pid-ctl/src/tune/input.rs).
pub mod Close
use pid_ctl.Prelude.{
  ℕ, zero, suc, ◌+◌, ◌≡◌, Bool, true, false, List, [], ◌∷◌, map, take, length, if◌then◌else◌, ltb,
  leb, ◌==◌, ◌&&◌,
}
use pid_ctl.Tune.Distance.{Chars, levenshtein}

unfoldable pub starts_with : Chars → Chars → Bool
starts_with c [] = true
starts_with [] (t ∷ token) = false
starts_with (x ∷ c) (t ∷ token) = (x == t) && starts_with c token

-- `str::len`, the number of bytes.
unfoldable pub byte_len : Chars → ℕ
byte_len [] = 0
byte_len (x ∷ xs) =
    (if ltb x 128 then 1 else if ltb x 2048 then 2 else if ltb x 65536 then 3 else 4) + byte_len xs

unfoldable pub filter {ℓ} : {A : Type ℓ} → (A → Bool) → List A → List A
filter p [] = []
filter p (x ∷ xs) = let rest = filter p xs in if p x then x ∷ rest else rest

-- The order of texts is not after.
unfoldable pub text_le : Chars → Chars → Bool
text_le [] b = true
text_le (x ∷ a) [] = false
text_le (x ∷ a) (y ∷ b) = let rest = text_le a b in if x == y then rest else ltb x y

-- The closer first, then by the text.
unfoldable pub not_after : Chars × ℕ → Chars × ℕ → Bool
not_after (c, d) (c', d') = if d == d' then text_le c c' else ltb d d'

unfoldable pub insert : Chars × ℕ → List (Chars × ℕ) → List (Chars × ℕ)
insert s [] = s ∷ []
insert s (t ∷ ts) = let rest = insert s ts in if not_after s t then s ∷ t ∷ ts else t ∷ rest

-- `sort_by`.
unfoldable pub sort : List (Chars × ℕ) → List (Chars × ℕ)
sort [] = []
sort (s ∷ ss) = insert s (sort ss)

abbrev pub score : Chars → Chars → Chars × ℕ
score token c = (c, levenshtein token c)

abbrev pub is_near : Chars × ℕ → Bool
is_near s = leb s.1 2

abbrev pub word_of : Chars × ℕ → Chars
word_of s = s.0

unfoldable pub nearest : Chars → List Chars → List Chars
nearest token words = take 5 (map word_of (sort (filter is_near (map (score token) words))))

unfoldable pub or_nearest : Chars → List Chars → List Chars → List Chars
or_nearest token words [] = if ltb 8 (byte_len token) then [] else nearest token words
or_nearest token words (p ∷ prefixes) = p ∷ prefixes

-- `fuzzy_command_names`, on any list of words.
unfoldable pub fuzzy_names : List Chars → Chars → List Chars
fuzzy_names words [] = []
fuzzy_names words (t ∷ token) =
    or_nearest (t ∷ token) words (filter (λ c. starts_with c (t ∷ token)) words)

abbrev pub command_mode_words : List Chars
command_mode_words =
    (b'k' ∷ b'p' ∷ [])
    ∷ (b'k' ∷ b'i' ∷ [])
    ∷ (b'k' ∷ b'd' ∷ [])
    ∷ (b's' ∷ b'p' ∷ [])
    ∷ (b'i' ∷ b'n' ∷ b't' ∷ b'e' ∷ b'r' ∷ b'v' ∷ b'a' ∷ b'l' ∷ [])
    ∷ (b'r' ∷ b'e' ∷ b's' ∷ b'e' ∷ b't' ∷ [])
    ∷ (b'h' ∷ b'o' ∷ b'l' ∷ b'd' ∷ [])
    ∷ (b'r' ∷ b'e' ∷ b's' ∷ b'u' ∷ b'm' ∷ b'e' ∷ [])
    ∷ (b's' ∷ b'a' ∷ b'v' ∷ b'e' ∷ [])
    ∷ (b'e' ∷ b'x' ∷ b'p' ∷ b'o' ∷ b'r' ∷ b't' ∷ [])
    ∷ (b'q' ∷ b'u' ∷ b'i' ∷ b't' ∷ [])
    ∷ (b'e' ∷ b'x' ∷ b'i' ∷ b't' ∷ [])
    ∷ []

unfoldable pub fuzzy_command_names : Chars → List Chars
fuzzy_command_names = fuzzy_names command_mode_words
