-- ===== src/ParseArgs.antt =====
-- crates/tagents-core/src/parse_args.rs: a command line read as node's `parseArgs` reads it. The loop over
-- the words is a state machine: between two words it is `ready`, it `wants` the value of an option, or
-- a `--` has `ended` the options.
use tagents.Prelude.{
  ℕ, suc, Bool, true, false, ◌&&◌, not, Option, none, some, List, [], ◌∷◌, ◌++◌, leb, ltb, ◌==◌,
  if◌then◌else◌,
}
use tagents.Text.{Text, word, text_eq, strip_prefix, is_empty}
use tagents.Dict.{Dict, get, insert, member}
use tagents.Exec.{Result, ok, err}
use tagents.Utf8.{Bytes, from_utf8_lossy, replacement}
pub mod Reading
pub mod Given
pub mod Values
pub mod Sound
pub mod Faults

pub data Kind : Type 0 where
  text many flag : Kind

abbrev pub Options : Type 0
Options = List (Text × Kind)

-- The message is all there is to a `ParseError`.
abbrev pub ParseError : Type 0
ParseError = Text

pub record Parsed : Type 0 where
  pub texts : Dict (List Bytes)
  pub flags : List Text
  pub positionals : List Bytes

-- `Parsed::default`
abbrev pub nothing_parsed : Parsed
nothing_parsed = record { texts = []; flags = []; positionals = [] }

abbrev pub all_of : Option (List Bytes) → List Bytes
all_of none = []
all_of (some values) = values

unfoldable pub last : List Bytes → Option Bytes
last [] = none
last (x ∷ []) = some x
last (x ∷ y ∷ xs) = last (y ∷ xs)

-- `Parsed::texts` and `Parsed::text`
unfoldable pub texts_of : Text → Parsed → List Bytes
texts_of name parsed = all_of (get name parsed.texts)

unfoldable pub text_of : Text → Parsed → Option Bytes
unfolding last texts_of
text_of name parsed = last (texts_of name parsed)

abbrev pub looks_like_an_option : Bytes → Bool
looks_like_an_option (c ∷ _ ∷ _) = c == b'-'
looks_like_an_option _ = false

abbrev first_char : Text → ℕ
first_char [] = replacement
first_char (c ∷ _) = c

abbrev rest_of : Bytes → Bytes
rest_of [] = []
rest_of (_ ∷ bytes) = bytes

-- `short`: a character of two UTF-16 units prints as the replacement character.
unfoldable pub short : Bytes → Text
short bytes =
    let first = first_char (from_utf8_lossy (rest_of bytes)) in
    b'-' ∷ (if leb 0x10000 first then replacement else first) ∷ []

unfoldable pub unknown : Text → Bool → ParseError
unknown raw positionals =
    if positionals
    then word "Unknown option '"
      ++ raw
      ++ word
          "'. To specify a positional argument starting with a '-', place it at the end of the command after '--', as in '-- \""
      ++ raw
      ++ word "\""
    else word "Unknown option '" ++ raw ++ word "'"

unfoldable pub positional_error : Bytes → ParseError
positional_error bytes =
    word "Unexpected argument '"
    ++ (from_utf8_lossy bytes ++ word "'. This command does not take positional arguments")

unfoldable pub keep : Parsed → Text → Kind → Bytes → Parsed
keep parsed name kind value =
    let values = all_of (get name parsed.texts) in
    record parsed { texts = insert name (kept kind values ++ value ∷ []) parsed.texts }
  where
    kept : Kind → List Bytes → List Bytes
    kept text values = []
    kept many values = values
    kept flag values = values

-- The bytes before the first `=` and, where there is one, those behind it.
unfoldable pub split_equals : Bytes → Bytes × Option Bytes
split_equals [] = ([], none)
split_equals (b ∷ bytes) =
    let rest = split_equals bytes in if b == b'=' then ([], some bytes) else (b ∷ rest.0, rest.1)

-- The name and the value of a long option: a name of nothing makes the whole word the name.
unfoldable pub name_and_value : Bytes → Bytes × Option Bytes
unfolding split_equals
name_and_value long =
    let halves = split_equals long in if is_empty halves.0 then (long, none) else halves

unfoldable pub listed : Text → Options → Option Kind
listed name [] = none
listed name ((option, kind) ∷ options) =
    let rest = listed name options in if text_eq option name then some kind else rest

pub data Reader : Type 0 where
  ready ended : Reader
  wants : (name : Text) (kind : Kind) (raw : Text) → Reader

pub record Grammar : Type 0 where
  pub options : Options
  pub positionals : Bool

abbrev pub dashes : Text
dashes = b'-' ∷ b'-' ∷ []

unfoldable pub missing : Text → ParseError
missing name = word "Option '--" ++ (name ++ word " <value>' argument missing")

abbrev pub line_break : Text
line_break = 0xa ∷ []

unfoldable pub ambiguous : Text → ParseError
ambiguous raw =
    word "Option '"
    ++ raw
    ++ word "' argument is ambiguous."
    ++ line_break
    ++ word "Did you forget to specify the option argument for '"
    ++ raw
    ++ word "'?"
    ++ line_break
    ++ word "To specify an option argument starting with a dash use '"
    ++ raw
    ++ word "=-XYZ'."

unfoldable pub no_argument : Text → ParseError
no_argument name = word "Option '--" ++ (name ++ word "' does not take an argument")

abbrev pub Step : Type 0
Step = Result ParseError (Reader × Parsed)

-- A listed option.
unfoldable pub read_option : Text → Kind → Text → Option Bytes → Parsed → Step
read_option name flag raw (some _) parsed = err (no_argument name)
read_option name flag raw none parsed = ok (
  ready,
  record parsed {
    flags = if member name parsed.flags then parsed.flags else parsed.flags ++ name ∷ [];
  },
)
read_option name kind raw (some value) parsed = ok (ready, keep parsed name kind value)
read_option name kind raw none parsed = ok (wants name kind raw, parsed)

unfoldable pub read_long : Grammar → Bytes → Option Bytes → Parsed → Step
unfolding read_option
read_long grammar name inline parsed =
    let raw = from_utf8_lossy (dashes ++ name) in
    elim (listed name grammar.options) [
      | none ↦ err (unknown raw grammar.positionals)
      | some kind ↦ read_option name kind raw inline parsed
    ]

unfoldable pub read_positional : Reader → Grammar → Bytes → Parsed → Step
read_positional next grammar bytes parsed =
    if grammar.positionals
    then ok (next, record parsed { positionals = parsed.positionals ++ bytes ∷ [] })
    else err (positional_error bytes)

-- One word.
unfoldable pub step : Grammar → Reader → Parsed → Bytes → Step
unfolding read_long read_positional name_and_value
step grammar ended parsed bytes = read_positional ended grammar bytes parsed
step grammar (wants name kind raw) parsed bytes =
    if looks_like_an_option bytes
    then err (ambiguous raw)
    else ok (ready, keep parsed name kind bytes)
step grammar ready parsed bytes =
    if text_eq bytes dashes then ok (ended, parsed) else elim (strip_prefix dashes bytes) [
      | some long ↦ read_long grammar (name_and_value long).0 (name_and_value long).1 parsed
      | none ↦
          if looks_like_an_option bytes
          then err (unknown (short bytes) grammar.positionals)
          else read_positional ready grammar bytes parsed
    ]

abbrev pub finish : Reader → Parsed → Result ParseError Parsed
finish (wants name kind raw) parsed = err (missing name)
finish ready parsed = ok parsed
finish ended parsed = ok parsed

unfoldable pub read_from : Grammar → Step → List Bytes → Result ParseError Parsed
unfolding step
read_from grammar (err why) words = err why
read_from grammar (ok (reader, parsed)) [] = finish reader parsed
read_from grammar (ok (reader, parsed)) (bytes ∷ words) =
    read_from grammar (step grammar reader parsed bytes) words

-- `read`
unfoldable pub read : Grammar → List Bytes → Result ParseError Parsed
unfolding read_from
read grammar words = read_from grammar (ok (ready, nothing_parsed)) words
