-- ===== src/Models/Config.antt =====
-- The fields of a config.pbtxt that the model manager reads: _strip_comments and parse_config of
-- docker/supersonic-model-manager/model_manager/validation.py. The regular expressions are matched
-- by hand: each has one way to match at a place.
use purdue_af.Common.{
  ℕ, Bool, true, false, String, Option, none, some, [], ◌∷◌, ◌==◌, if◌then◌else◌,
}
use purdue_af.Common.Text.{Text, codes, lstrip}

abbrev newline : ℕ
newline = 10

abbrev quote : ℕ
quote = 34

-- re.sub(r"#[^\n]*", "", text); `inside` is whether a comment is being read.
comments_from : Bool → Text → Text
comments_from inside [] = []
comments_from true (c ∷ t) =
    if c == newline then c ∷ comments_from false t else comments_from true t
comments_from false (c ∷ t) = if c == b'#' then comments_from true t else c ∷ comments_from false t

unfoldable pub strip_comments : Text → Text
unfolding comments_from
strip_comments text = comments_from false text

-- The rest of the text after what it starts with.
after : Text → Text → Option Text
after [] t = some t
after (d ∷ p) [] = none
after (d ∷ p) (c ∷ t) = if c == d then after p t else none

-- [^"]*" up to the quote
up_to_quote : Text → Option Text
up_to_quote [] = none
up_to_quote (c ∷ t) =
    if c == quote then some [] else elim (up_to_quote t) [ none ↦ none | some v ↦ some (c ∷ v) ]

quoted : Text → Option Text
unfolding up_to_quote
quoted [] = none
quoted (c ∷ t) = if c == quote then up_to_quote t else none

after_colon : Text → Option Text
unfolding quoted
after_colon [] = none
after_colon (c ∷ t) = if c == b':' then quoted (lstrip t) else none

-- {field}\s*:\s*"([^"]*)" at the start of the text
field_at : Text → Text → Option Text
unfolding after after_colon
field_at field t = elim (after field t) [ none ↦ none | some rest ↦ after_colon (lstrip rest) ]

abbrev first_of : Option Text → Option Text → Option Text
first_of none b = b
first_of (some v) b = some v

-- The first match at the start of a line, with spaces before it if `anywhere`.
search_field : Bool → Bool → Text → Text → Option Text
unfolding field_at
search_field anywhere at_start field [] = none
search_field anywhere at_start field (c ∷ t) =
    let rest = search_field anywhere (c == newline) field t in
    if at_start
    then first_of (field_at field (if anywhere then lstrip (c ∷ t) else c ∷ t)) rest
    else rest

unfoldable pub scalar : Text → String → Option Text
unfolding search_field
scalar text field =
    first_of (search_field false true (codes field) text)
      (search_field true true (codes field) text)

-- `error` is an OSError's text.
pub record Config : Type 0 where
  pub error : Option Text
  pub name : Option Text
  pub platform : Option Text
  pub backend : Option Text
  pub default_model_filename : Option Text

abbrev pub no_config : Config
no_config = record {
  error = none;
  name = none;
  platform = none;
  backend = none;
  default_model_filename = none;
}

-- What reading the file gives: an OSError's text, or the file's.
pub data Contents : Type 0 where
  unreadable readable : Text → Contents

unfoldable pub parse_config : Contents → Config
parse_config (unreadable e) = record no_config { error = some e }
parse_config (readable text) =
    let t = strip_comments text in
    record {
      error = none;
      name = scalar t "name";
      platform = scalar t "platform";
      backend = scalar t "backend";
      default_model_filename = scalar t "default_model_filename";
    }
