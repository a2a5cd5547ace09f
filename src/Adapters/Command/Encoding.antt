-- ===== src/Adapters/Command/Encoding.antt =====
-- Percent encoding can be undone, and leaves nothing that a URL or a shell would read otherwise.
use pid_ctl.Prelude.{
  ℕ, ◌+◌, ◌*◌, ◌/◌, ◌%◌, ◌-◌, ◌<◌, ◌≡◌, inl, inr, refl, ◌∙◌, arith, true, [], ◌∷◌, ◌++◌, ap,
  if◌then◌else◌, ltb, ◌==◌, All, All-append, Bool-cases, ◌||◌,
}
use pid_ctl.App.StateStore.{Text}
use pid_ctl.Adapters.Command.{is_unreserved, hex_digit, encode_byte, percent_encode}

-- The value of a digit.
unfoldable pub hex_value : ℕ → ℕ
hex_value c = if ltb c b'A' then c - b'0' else c - b'A' + 10

-- Percent decoding, as RFC 3986 defines it: a % is followed by two digits.
unfoldable pub percent_decode : Text → Text
percent_decode [] = []
percent_decode (c ∷ []) = c ∷ []
percent_decode (c ∷ d ∷ []) = c ∷ d ∷ []
percent_decode (c ∷ d ∷ e ∷ cs) =
    let escaped = (hex_value d * 16 + hex_value e) ∷ percent_decode cs in
    let plain = c ∷ percent_decode (d ∷ e ∷ cs) in if c == b'%' then escaped else plain

-- Every byte of an encoded text is unreserved, or the sign of an escape.
abbrev pub IsSafeByte : ℕ → Type 0
IsSafeByte c = (is_unreserved c || c == b'%') ≡ true

hex_value-digit : (n : ℕ) → n < 16 → hex_value (hex_digit n) ≡ n
unfolding hex_value hex_digit
hex_value-digit n h = ground arith

decode-plain :
    (c : ℕ) (cs : Text) → is_unreserved c ≡ true → percent_decode (c ∷ cs) ≡ c ∷ percent_decode cs
unfolding percent_decode is_unreserved
decode-plain c [] h = refl
decode-plain c (d ∷ []) h = refl
decode-plain c (d ∷ e ∷ cs) h = ground arith

decode-byte :
    (c : ℕ) (cs : Text) → c < 256 → percent_decode (encode_byte c ++ cs) ≡ c ∷ percent_decode cs
unfolding encode_byte percent_decode
decode-byte c cs h = elim (Bool-cases (is_unreserved c)) [
  | inl plain ↦ rw plain (decode-plain c cs plain)
  | inr escaped ↦
      rw (escaped, hex_value-digit (c / 16) (omega arith), hex_value-digit (c % 16) (omega arith))
        (ap (λ n. n ∷ percent_decode cs) (omega arith))
]

encode_byte-IsSafeByte : (c : ℕ) → c < 256 → All IsSafeByte (encode_byte c)
unfolding encode_byte is_unreserved hex_digit
encode_byte-IsSafeByte c h = ground arith

-- Of a text of bytes: percent decoding gives it back, and every byte of the encoded text is
-- unreserved or a percent sign.
pub percent_encode_lem :
    (s : Text)
    → All (λ c. c < 256) s
    → (percent_decode (percent_encode s) ≡ s) × All IsSafeByte (percent_encode s)
unfolding percent_encode percent_decode
percent_encode_lem [] _ = (refl, tt)
percent_encode_lem (c ∷ cs) (h, hs) =
    let (back, safe) = percent_encode_lem cs hs in
    (
      decode-byte c (percent_encode cs) h ∙ ap (λ r. c ∷ r) back,
      All-append IsSafeByte (encode_byte c) (percent_encode cs) (encode_byte-IsSafeByte c h) safe,
    )
