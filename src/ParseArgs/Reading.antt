-- ===== src/ParseArgs/Reading.antt =====
-- crates/tagents-core/src/parse_args.rs: the proofs on lines of flags, options with values and positionals.
use tagents.Prelude.{
  ◌≡◌, ◌≢◌, refl, sym, ap, ◌∙◌, append_nil, append_assoc, true, false, Option, none, some, List, [],
  ◌∷◌, ◌++◌, arith, if◌then◌else◌, Bool-cases, inl, inr,
}
use tagents.Dict.{member}
use tagents.Text.{Text, all_chars, text_eq, strip_prefix, is_empty}
use tagents.Text.Split.{is_free}
use tagents.Exec.{ok}
use tagents.Utf8.{Bytes, from_utf8_lossy}
use tagents.ParseArgs.{
  Kind, text, many, flag, Parsed, nothing_parsed, keep, split_equals, name_and_value, listed,
  Grammar, Reader, ready, ended, wants, dashes, step, read_from, read, looks_like_an_option,
  read_option, read_long, read_positional,
}

-- What a person may write: a flag, an option with its value behind a `=` or in the next word, or a
-- positional.
pub data Item : Type 0 where
  switch : Text → Item
  joined apart : Text → Kind → Bytes → Item
  plain : Bytes → Item

unfoldable pub words_of : Item → List Bytes → List Bytes
words_of (switch name) rest = (dashes ++ name) ∷ rest
words_of (joined name kind value) rest = (dashes ++ name ++ b'=' ∷ value) ∷ rest
words_of (apart name kind value) rest = (dashes ++ name) ∷ value ∷ rest
words_of (plain bytes) rest = bytes ∷ rest

unfoldable pub meaning : Item → Parsed → Parsed
meaning (switch name) p = record p {
  flags = if member name p.flags then p.flags else p.flags ++ name ∷ [];
}
meaning (joined name kind value) p = keep p name kind value
meaning (apart name kind value) p = keep p name kind value
meaning (plain bytes) p = record p { positionals = p.positionals ++ bytes ∷ [] }

-- The words of the items, before others.
unfoldable pub line_of : List Item → List Bytes → List Bytes
unfolding words_of
line_of [] rest = rest
line_of (item ∷ items) rest = words_of item (line_of items rest)

unfoldable pub meanings : List Item → Parsed → Parsed
unfolding meaning
meanings [] p = p
meanings (item ∷ items) p = meanings items (meaning item p)

-- A name that the grammar lists with the kind.
pub record IsListed (g : Grammar) (name : Text) (kind : Kind) : Type 0 where
  pub found : listed name g.options ≡ some kind
  pub filled : is_empty name ≡ false
  pub free : is_free b'=' name ≡ true

abbrev pub IsValid : Grammar → Item → Type 0
IsValid g (switch name) = IsListed g name flag
IsValid g (joined name kind value) = IsListed g name kind × (kind ≢ flag)
IsValid g (apart name kind value) =
    IsListed g name kind × (kind ≢ flag) × (looks_like_an_option value ≡ false)
IsValid g (plain bytes) = (g.positionals ≡ true) × (looks_like_an_option bytes ≡ false)

abbrev pub AllValid : Grammar → List Item → Type 0
AllValid g [] = Unit
AllValid g (item ∷ items) = IsValid g item × AllValid g items

split_equals-name : (name : Text) → is_free b'=' name ≡ true → split_equals name ≡ (name, none)
unfolding split_equals all_chars
split_equals-name [] h = refl
split_equals-name (c ∷ name) h = let ih = split_equals-name name in ground arith

split_equals-append :
    (name value : Text)
    → is_free b'=' name ≡ true
    → split_equals (name ++ b'=' ∷ value) ≡ (name, some value)
unfolding split_equals all_chars
split_equals-append [] value h = refl
split_equals-append (c ∷ name) value h = let ih = split_equals-append name value in ground arith

pub nv-name : (name : Text) → is_free b'=' name ≡ true → name_and_value name ≡ (name, none)
unfolding name_and_value
nv-name name h =
    rw (split_equals-name name h)
      (elim (Bool-cases (is_empty name)) [ inl e ↦ rw e refl | inr e ↦ rw e refl ])

pub nv-append :
    (name value : Text)
    → is_empty name ≡ false
    → is_free b'=' name ≡ true
    → name_and_value (name ++ b'=' ∷ value) ≡ (name, some value)
unfolding name_and_value
nv-append name value filled h = rw (split_equals-append name value h, filled) refl

pub is_empty-append : (a b : Text) → is_empty a ≡ false → is_empty (a ++ b) ≡ false
is_empty-append [] b h = absurd (ground arith)
is_empty-append (x ∷ a) b h = refl

module _ (g : Grammar) (p : Parsed) where
  pub step-long :
      (long : Bytes)
      → is_empty long ≡ false
      → step g ready p (dashes ++ long)
        ≡ read_long g (name_and_value long).0 (name_and_value long).1 p
  unfolding step text_eq strip_prefix
  step-long [] h = absurd (ground arith)
  step-long (c ∷ long) h = refl

  -- What a listed option leaves the reader at, with a value behind a `=` or not.
  read_long-listed :
      (name : Text) (kind : Kind) (inline : Option Bytes)
      → IsListed g name kind
      → read_long g name inline p
        ≡ read_option name kind (from_utf8_lossy (dashes ++ name)) inline p
  unfolding read_long
  read_long-listed name kind inline valid = rw (read_long, valid.found) refl

  pub step-alone :
      (name : Text) (kind : Kind)
      → IsListed g name kind
      → step g ready p (dashes ++ name)
        ≡ read_option name kind (from_utf8_lossy (dashes ++ name)) none p
  step-alone name kind valid =
      step-long name valid.filled
      ∙ ap (λ nv. read_long g nv.0 nv.1 p) (nv-name name valid.free)
      ∙ read_long-listed name kind none valid

  pub step-joined :
      (name : Text) (kind : Kind) (value : Bytes)
      → IsListed g name kind
      → step g ready p (dashes ++ name ++ b'=' ∷ value)
        ≡ read_option name kind (from_utf8_lossy (dashes ++ name)) (some value) p
  step-joined name kind value valid =
      step-long (name ++ b'=' ∷ value) (is_empty-append name (b'=' ∷ value) valid.filled)
      ∙ ap (λ nv. read_long g nv.0 nv.1 p) (nv-append name value valid.filled valid.free)
      ∙ read_long-listed name kind (some value) valid

  taken :
      (name : Text) (kind : Kind) (raw : Text) (value : Bytes)
      → kind ≢ flag
      → read_option name kind raw (some value) p ≡ ok (ready, keep p name kind value)
  unfolding read_option
  taken name text raw value h = refl
  taken name many raw value h = refl
  taken name flag raw value h = absurd (h refl)

  pub awaited :
      (name : Text) (kind : Kind) (raw : Text)
      → kind ≢ flag
      → read_option name kind raw none p ≡ ok (wants name kind raw, p)
  unfolding read_option
  awaited name text raw h = refl
  awaited name many raw h = refl
  awaited name flag raw h = absurd (h refl)

  step-plain :
      (bytes : Bytes)
      → g.positionals ≡ true
      → looks_like_an_option bytes ≡ false
      → step g ready p bytes ≡ ok (ready, meaning (plain bytes) p)
  unfolding step text_eq strip_prefix read_positional meaning
  step-plain [] takes h = ground arith
  step-plain (c ∷ []) takes h = ground arith
  step-plain (c ∷ d ∷ bytes) takes h = ground arith

  after_wants :
      (name : Text) (kind : Kind) (raw : Text) (value : Bytes)
      → looks_like_an_option value ≡ false
      → step g (wants name kind raw) p value ≡ ok (ready, keep p name kind value)
  unfolding step
  after_wants name kind raw value h = rw h refl

  read_item :
      (item : Item) (rest : List Bytes)
      → IsValid g item
      → read_from g (ok (ready, p)) (words_of item rest)
        ≡ read_from g (ok (ready, meaning item p)) rest
  unfolding words_of meaning read_from read_option
  read_item (switch name) rest valid = ap (λ t. read_from g t rest) (step-alone name flag valid)
  read_item (joined name kind value) rest valid =
      ap (λ t. read_from g t rest)
        (step-joined name kind value valid.0 ∙ taken name kind _ value valid.1)
  read_item (apart name kind value) rest valid =
      ap (λ t. read_from g t (value ∷ rest))
        (step-alone name kind valid.0 ∙ awaited name kind _ valid.1)
      ∙ ap (λ t. read_from g t rest) (after_wants name kind _ value valid.2)
  read_item (plain bytes) rest valid =
      ap (λ t. read_from g t rest) (step-plain bytes valid.0 valid.1)

pub read_items :
    (g : Grammar) (items : List Item) (p : Parsed) (rest : List Bytes)
    → AllValid g items
    → read_from g (ok (ready, p)) (line_of items rest)
      ≡ read_from g (ok (ready, meanings items p)) rest
unfolding line_of meanings
read_items g [] p rest valid = refl
read_items g (item ∷ items) p rest valid =
    read_item g p item (line_of items rest) valid.0
    ∙ read_items g items (meaning item p) rest valid.1

-- The words after a `--`.
pub with_positionals : List Bytes → Parsed → Parsed
with_positionals words p = record p { positionals = p.positionals ++ words }

positional_taken :
    (next : Reader) (g : Grammar) (bytes : Bytes) (p : Parsed)
    → g.positionals ≡ true
    → read_positional next g bytes p
      ≡ ok (next, record p { positionals = p.positionals ++ bytes ∷ [] })
unfolding read_positional
positional_taken next g bytes p takes = ground arith

after_dashes :
    (g : Grammar) (p : Parsed) (words : List Bytes)
    → g.positionals ≡ true
    → read_from g (ok (ended, p)) words ≡ ok (with_positionals words p)
unfolding read_from step read_positional with_positionals
after_dashes g p [] takes =
    ap (λ ws. ok (record p { positionals = ws })) (sym (append_nil p.positionals))
after_dashes g p (bytes ∷ words) takes =
    ap (λ t. read_from g t words) (positional_taken ended g bytes p takes)
    ∙ after_dashes g (record p { positionals = p.positionals ++ bytes ∷ [] }) words takes
    ∙ ap (λ ws. ok (record p { positionals = ws })) (append_assoc p.positionals (bytes ∷ []) words)

-- A command line of flags, options with their values and positionals, each of a listed name and kind, is
-- read without an error as what its items mean one after the other; so it is when a `--` and any words
-- follow, which are all positionals, for a grammar that takes them.
pub read-line_of :
    (g : Grammar) (items : List Item) (rest : List Bytes)
    → AllValid g items
    → (read g (line_of items []) ≡ ok (meanings items nothing_parsed))
      × (g.positionals ≡ true
          → read g (line_of items (dashes ∷ rest))
            ≡ ok (with_positionals rest (meanings items nothing_parsed)))
unfolding read read_from step text_eq
read-line_of g items rest valid = (
  read_items g items nothing_parsed [] valid,
  (λ takes.
      read_items g items nothing_parsed (dashes ∷ rest) valid
      ∙ after_dashes g (meanings items nothing_parsed) rest takes),
)
