-- ===== src/Adapters/Command/Template.antt =====
-- The placeholders of a command line are replaced, each by its own text, and nothing else is.
use pid_ctl.Prelude.{zero, ◌≡◌, ◌≢◌, ◌<◌, refl, ◌∙◌, ap, arith, List, [], ◌∷◌, ◌++◌, length, All}
use pid_ctl.App.StateStore.{Text}
use pid_ctl.Adapters.Command.Encoding.{IsSafeByte, percent_encode_lem}
use pid_ctl.Adapters.Command.{
  is_unreserved, percent_encode, starts_with, replace_from, replace, cv_url_placeholder,
  cv_placeholder, build_command,
}

-- A template, piece by piece: a text without braces, or one of the placeholders.
pub data Piece : Type 0 where
  plain : Text → Piece
  cv cv_url : Piece

abbrev pub NoBrace : Text → Type 0
NoBrace s = All (λ c. c ≢ b'{') s

abbrev pub IsPlain : Piece → Type 0
IsPlain (plain s) = NoBrace s
IsPlain cv = Unit
IsPlain cv_url = Unit

unfoldable pub written : List Piece → Text
written [] = []
written (plain s ∷ ps) = s ++ written ps
written (cv ∷ ps) = cv_placeholder ++ written ps
written (cv_url ∷ ps) = cv_url_placeholder ++ written ps

-- The pieces with other texts for the placeholders.
unfoldable pub filled : Text → Text → List Piece → Text
filled value url [] = []
filled value url (plain s ∷ ps) = s ++ filled value url ps
filled value url (cv ∷ ps) = value ++ filled value url ps
filled value url (cv_url ∷ ps) = url ++ filled value url ps

-- A text with no brace is passed.
replace-plain :
    (ps to s rest : Text)
    → NoBrace s
    → replace_from zero (b'{' ∷ ps) to (s ++ rest) ≡ s ++ replace_from zero (b'{' ∷ ps) to rest
unfolding replace_from starts_with
replace-plain ps to [] rest _ = refl
replace-plain ps to (x ∷ s) rest (h, hs) = ground (arith, replace-plain ps to s rest hs)

replace-skip :
    (pattern to s rest : Text)
    → replace_from (length s) pattern to (s ++ rest) ≡ replace_from zero pattern to rest
unfolding replace_from
replace-skip pattern to [] rest = refl
replace-skip pattern to (x ∷ s) rest = replace-skip pattern to s rest

replace-url :
    (to rest : Text)
    → replace (cv_url_placeholder ++ rest) cv_url_placeholder to
      ≡ to ++ replace rest cv_url_placeholder to
unfolding replace_from starts_with
replace-url to rest = refl

-- The other placeholder is no match, and is passed.
replace-cv_kept :
    (to rest : Text)
    → replace (cv_placeholder ++ rest) cv_url_placeholder to
      ≡ cv_placeholder ++ replace rest cv_url_placeholder to
unfolding replace_from starts_with
replace-cv_kept to rest = refl

replace-cv :
    (to rest : Text)
    → replace (cv_placeholder ++ rest) cv_placeholder to ≡ to ++ replace rest cv_placeholder to
unfolding replace_from starts_with
replace-cv to rest = refl

-- The first replacement fills in the encoded text and leaves the other placeholder.
replace_urls :
    (url : Text) (ps : List Piece)
    → All IsPlain ps
    → replace (written ps) cv_url_placeholder url ≡ filled cv_placeholder url ps
unfolding written filled replace_from
replace_urls url [] _ = refl
replace_urls url (plain s ∷ ps) (h, hs) =
    replace-plain _ url s (written ps) h ∙ ap (λ r. s ++ r) (replace_urls url ps hs)
replace_urls url (cv ∷ ps) (h, hs) =
    replace-cv_kept url (written ps) ∙ ap (λ r. cv_placeholder ++ r) (replace_urls url ps hs)
replace_urls url (cv_url ∷ ps) (h, hs) =
    replace-url url (written ps) ∙ ap (λ r. url ++ r) (replace_urls url ps hs)

-- The second fills in the output, and does not look at what the first has put there.
replace_cvs :
    (value url : Text) (ps : List Piece)
    → NoBrace url
    → All IsPlain ps
    → replace (filled cv_placeholder url ps) cv_placeholder value ≡ filled value url ps
unfolding filled replace_from
replace_cvs value url [] n _ = refl
replace_cvs value url (plain s ∷ ps) n (h, hs) =
    replace-plain _ value s _ h ∙ ap (λ r. s ++ r) (replace_cvs value url ps n hs)
replace_cvs value url (cv ∷ ps) n (h, hs) =
    replace-cv value (filled cv_placeholder url ps)
    ∙ ap (λ r. value ++ r) (replace_cvs value url ps n hs)
replace_cvs value url (cv_url ∷ ps) n (h, hs) =
    replace-plain _ value url _ n ∙ ap (λ r. url ++ r) (replace_cvs value url ps n hs)

IsSafeByte-NoBrace : (s : Text) → All IsSafeByte s → NoBrace s
unfolding is_unreserved
IsSafeByte-NoBrace [] _ = tt
IsSafeByte-NoBrace (c ∷ s) (h, hs) = ((λ e. ground arith), IsSafeByte-NoBrace s hs)

-- Of a template made of texts without an opening brace and of placeholders, `build_command` makes the
-- same texts with the output for each {cv} and its percent encoding for each {cv:url}, whatever
-- bytes the output has.
pub build_command-filled :
    (ps : List Piece) (value : Text)
    → All IsPlain ps
    → All (λ c. c < 256) value
    → build_command (written ps) value ≡ filled value (percent_encode value) ps
unfolding build_command
build_command-filled ps value h bytes =
    ap (λ s. replace s cv_placeholder value) (replace_urls (percent_encode value) ps h)
    ∙ replace_cvs value (percent_encode value) ps
        (IsSafeByte-NoBrace (percent_encode value) (percent_encode_lem value bytes).1) h
