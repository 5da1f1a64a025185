-- ===== src/ParseArgs/Faults.antt =====
-- crates/tagents-core/src/parse_args.rs: the proofs on the errors of `read`.
use tagents.Prelude.{
  ◌≡◌, ◌≢◌, ◌==◌, refl, ap, ◌∙◌, true, false, none, some, List, [], ◌∷◌, ◌++◌, arith, Option,
}
use tagents.Text.{Text, is_empty, text_eq, strip_prefix}
use tagents.Text.Split.{is_free}
use tagents.Exec.{ok, err}
use tagents.Utf8.{Bytes, from_utf8_lossy}
use tagents.ParseArgs.{
  Kind, flag, Parsed, nothing_parsed, ParseError, listed, Grammar, ready, wants, dashes, step,
  read_from, read, looks_like_an_option, read_option, read_long, read_positional, unknown, missing,
  ambiguous, no_argument, positional_error, short,
}
use tagents.ParseArgs.Reading.{
  Item, line_of, meanings, AllValid, IsListed, nv-name, nv-append, is_empty-append, step-long,
  step-alone, step-joined, awaited, read_items,
}

-- What may be wrong at a place of the line: an option that is not listed, alone or with a value behind a
-- `=`; a flag with a value; an option without its value at the end of the line; one before a word that
-- looks like an option; a word with one dash; a positional where the grammar takes none.
pub data Fault : Type 0 where
  unlisted : Text → Fault
  unlisted_value filled_flag : Text → Bytes → Fault
  at_end : Text → Kind → Fault
  before_dash : Text → Kind → Bytes → Fault
  one_dash : Text → Fault
  unexpected : Bytes → Fault

-- The faulty words, before others: nothing stands behind the end.
unfoldable pub fault_line : Fault → List Bytes → List Bytes
fault_line (unlisted name) rest = (dashes ++ name) ∷ rest
fault_line (unlisted_value name value) rest = (dashes ++ name ++ b'=' ∷ value) ∷ rest
fault_line (filled_flag name value) rest = (dashes ++ name ++ b'=' ∷ value) ∷ rest
fault_line (at_end name kind) rest = (dashes ++ name) ∷ []
fault_line (before_dash name kind next) rest = (dashes ++ name) ∷ next ∷ rest
fault_line (one_dash bytes) rest = (b'-' ∷ bytes) ∷ rest
fault_line (unexpected bytes) rest = bytes ∷ rest

unfoldable pub complaint : Grammar → Fault → ParseError
complaint g (unlisted name) = unknown (from_utf8_lossy (dashes ++ name)) g.positionals
complaint g (unlisted_value name _) = unknown (from_utf8_lossy (dashes ++ name)) g.positionals
complaint g (filled_flag name _) = no_argument name
complaint g (at_end name _) = missing name
complaint g (before_dash name _ _) = ambiguous (from_utf8_lossy (dashes ++ name))
complaint g (one_dash bytes) = unknown (short (b'-' ∷ bytes)) g.positionals
complaint g (unexpected bytes) = positional_error bytes

pub record IsUnlisted (g : Grammar) (name : Text) : Type 0 where
  pub absent : listed name g.options ≡ none
  pub filled : is_empty name ≡ false
  pub free : is_free b'=' name ≡ true

abbrev IsOneDash : Bytes → Type 0
IsOneDash [] = ⊥
IsOneDash (c ∷ _) = (c == b'-') ≡ false

abbrev pub IsFault : Grammar → Fault → Type 0
IsFault g (unlisted name) = IsUnlisted g name
IsFault g (unlisted_value name _) = IsUnlisted g name
IsFault g (filled_flag name _) = IsListed g name flag
IsFault g (at_end name kind) = IsListed g name kind × (kind ≢ flag)
IsFault g (before_dash name kind next) =
    IsListed g name kind × (kind ≢ flag) × (looks_like_an_option next ≡ true)
IsFault g (one_dash bytes) = IsOneDash bytes
IsFault g (unexpected bytes) = (g.positionals ≡ false) × (looks_like_an_option bytes ≡ false)

module _ (g : Grammar) (p : Parsed) where
  refused_long :
      (name : Text) (inline : Option Bytes)
      → IsUnlisted g name
      → read_long g name inline p ≡ err (unknown (from_utf8_lossy (dashes ++ name)) g.positionals)
  unfolding read_long
  refused_long name inline bad = rw (read_long, bad.absent) refl

  step-one_dash :
      (bytes : Bytes)
      → IsOneDash bytes
      → step g ready p (b'-' ∷ bytes) ≡ err (unknown (short (b'-' ∷ bytes)) g.positionals)
  unfolding step text_eq strip_prefix
  step-one_dash [] bad = absurd bad
  step-one_dash (c ∷ []) bad = ground arith
  step-one_dash (c ∷ d ∷ bytes) bad = ground arith

  step-unexpected :
      (bytes : Bytes)
      → g.positionals ≡ false
      → looks_like_an_option bytes ≡ false
      → step g ready p bytes ≡ err (positional_error bytes)
  unfolding step text_eq strip_prefix read_positional
  step-unexpected [] bare h = ground arith
  step-unexpected (c ∷ []) bare h = ground arith
  step-unexpected (c ∷ d ∷ bytes) bare h = ground arith

  after_wants :
      (name : Text) (kind : Kind) (raw : Text) (next : Bytes)
      → looks_like_an_option next ≡ true
      → step g (wants name kind raw) p next ≡ err (ambiguous raw)
  unfolding step
  after_wants name kind raw next h = rw h refl

  -- The fault stops the reader there, and what is behind it is not read.
  read_from-fault :
      (f : Fault) (rest : List Bytes)
      → IsFault g f
      → read_from g (ok (ready, p)) (fault_line f rest) ≡ err (complaint g f)
  unfolding fault_line complaint read_from read_option
  read_from-fault (unlisted name) rest bad =
      ap (λ t. read_from g t rest)
        (step-long g p name bad.filled
          ∙ ap (λ nv. read_long g nv.0 nv.1 p) (nv-name name bad.free)
          ∙ refused_long name none bad)
  read_from-fault (unlisted_value name value) rest bad =
      ap (λ t. read_from g t rest)
        (step-long g p (name ++ b'=' ∷ value) (is_empty-append name (b'=' ∷ value) bad.filled)
          ∙ ap (λ nv. read_long g nv.0 nv.1 p) (nv-append name value bad.filled bad.free)
          ∙ refused_long name (some value) bad)
  read_from-fault (filled_flag name value) rest bad =
      ap (λ t. read_from g t rest) (step-joined g p name flag value bad)
  read_from-fault (at_end name kind) rest bad =
      ap (λ t. read_from g t []) (step-alone g p name kind bad.0 ∙ awaited g p name kind _ bad.1)
  read_from-fault (before_dash name kind next) rest bad =
      ap (λ t. read_from g t (next ∷ rest))
        (step-alone g p name kind bad.0 ∙ awaited g p name kind _ bad.1)
      ∙ ap (λ t. read_from g t rest) (after_wants name kind _ next bad.2)
  read_from-fault (one_dash bytes) rest bad = ap (λ t. read_from g t rest) (step-one_dash bytes bad)
  read_from-fault (unexpected bytes) rest bad =
      ap (λ t. read_from g t rest) (step-unexpected bytes bad.0 bad.1)

-- A command line whose first fault stands behind items that the grammar lists is refused with the error of
-- that fault: an option that is not listed, a flag with a value, an option whose value is missing at the end
-- of the line or is a word that looks like an option, a word with one dash, or a positional that the grammar
-- does not take. What is behind the fault makes no difference.
pub read-complaint :
    (g : Grammar) (items : List Item) (f : Fault) (rest : List Bytes)
    → AllValid g items
    → IsFault g f
    → read g (line_of items (fault_line f rest)) ≡ err (complaint g f)
unfolding read
read-complaint g items f rest valid bad =
    read_items g items nothing_parsed (fault_line f rest) valid
    ∙ read_from-fault g (meanings items nothing_parsed) f rest bad
