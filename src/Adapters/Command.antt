-- ===== src/Adapters/Command.antt =====
-- The command line that `CmdCvSink` runs (`build_command` and `percent_encode` of
-- crates/pid-ctl/src/adapters/mod.rs). A text is the list of its bytes.
pub mod Encoding
pub mod Template
use pid_ctl.Prelude.{
  ℕ, zero, suc, ◌+◌, ◌/◌, ◌%◌, ◌-◌, Bool, true, false, List, [], ◌∷◌, ◌++◌, length, if◌then◌else◌,
  ltb, leb, ◌==◌, ◌&&◌, ◌||◌,
}
use pid_ctl.App.StateStore.{Text}

unfoldable pub is_unreserved : ℕ → Bool
is_unreserved c =
    (leb b'A' c && leb c b'Z')
    || (leb b'a' c && leb c b'z')
    || (leb b'0' c && leb c b'9')
    || c == b'-'
    || c == b'_'
    || c == b'.'
    || c == b'~'

-- A digit of `{:X}`.
unfoldable pub hex_digit : ℕ → ℕ
hex_digit n = if ltb n 10 then b'0' + n else b'A' + (n - 10)

unfoldable pub encode_byte : ℕ → Text
encode_byte c =
    if is_unreserved c then c ∷ [] else b'%' ∷ hex_digit (c / 16) ∷ hex_digit (c % 16) ∷ []

unfoldable pub percent_encode : Text → Text
percent_encode [] = []
percent_encode (c ∷ cs) = encode_byte c ++ percent_encode cs

-- Whether a text begins with another.
unfoldable pub starts_with : Text → Text → Bool
starts_with xs [] = true
starts_with [] (p ∷ ps) = false
starts_with (x ∷ xs) (p ∷ ps) = (x == p) && starts_with xs ps

-- `str::replace`, from the left: `skip` counts the bytes of a match that are still to be passed.
unfoldable pub replace_from : ℕ → Text → Text → Text → Text
replace_from skip pattern to [] = []
replace_from (suc skip) pattern to (x ∷ xs) = replace_from skip pattern to xs
replace_from zero pattern to (x ∷ xs) = elim (starts_with (x ∷ xs) pattern) [
  | true ↦ to ++ replace_from (length pattern - 1) pattern to xs
  | false ↦ x ∷ replace_from zero pattern to xs
]

abbrev pub replace : Text → Text → Text → Text
replace s pattern to = replace_from zero pattern to s

abbrev pub cv_url_placeholder : Text
cv_url_placeholder = b'{' ∷ b'c' ∷ b'v' ∷ b':' ∷ b'u' ∷ b'r' ∷ b'l' ∷ b'}' ∷ []

abbrev pub cv_placeholder : Text
cv_placeholder = b'{' ∷ b'c' ∷ b'v' ∷ b'}' ∷ []

-- `build_command`, given the output as it is formatted.
unfoldable pub build_command : Text → Text → Text
build_command template cv_str =
    replace (replace template cv_url_placeholder (percent_encode cv_str)) cv_placeholder cv_str
