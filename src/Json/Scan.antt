-- ===== src/Json/Scan.antt =====
-- crates/tagents-core/src/json.rs: the parts of the parser that read one thing, each from the text that is left
-- and giving what is left behind it. A run of plain characters, which the source copies at once, is read
-- here a character at a time.
use tagents.Prelude.{
  ℕ, zero, suc, ◌+◌, ◌-◌, ◌*◌, Bool, true, false, ◌&&◌, ◌||◌, not, Option, none, some, List, [],
  ◌∷◌, ◌++◌, leb, ltb, ◌==◌, length, if◌then◌else◌,
}
use tagents.Text.{Text, strip_prefix, is_ascii_digit, is_empty, all_chars, take}
use tagents.Text.Pieces.{drop}
use tagents.Utf8.{replacement}
use tagents.Utf16.{Units, units, encode, is_high, is_low, is_char, paired}
use tagents.Json.{Value, string, halves}
pub mod Shorter

-- `Text`: characters, and code units from the first half without a partner on.
pub data Literal : Type 0 where
  chars coded : List ℕ → Literal

-- `Text::push`
unfoldable pub push : ℕ → Literal → Literal
unfolding encode
push c (chars s) = chars (s ++ c ∷ [])
push c (coded us) = coded (us ++ encode c)

-- `Text::push_lone`
unfoldable pub push_lone : ℕ → Literal → Literal
unfolding units
push_lone half (chars s) = coded (units s ++ half ∷ [])
push_lone half (coded us) = coded (us ++ half ∷ [])

-- `Text::into_value`
unfoldable pub into_value : Literal → Value
into_value (chars s) = string s
into_value (coded us) = halves us

-- `Text::into_units`
unfoldable pub into_units : Literal → Units
into_units (chars s) = units s
into_units (coded us) = us

abbrev pub is_gap : ℕ → Bool
is_gap c = c == 0x20 || c == 0x9 || c == 0xa || c == 0xd

unfoldable pub skip_space : Text → Text
skip_space [] = []
skip_space (c ∷ s) = if is_gap c then skip_space s else c ∷ s

-- The digits at the start, and what is behind them.
unfoldable pub digits_at : Text → Text × Text
digits_at [] = ([], [])
digits_at (c ∷ s) =
    let rest = digits_at s in if is_ascii_digit c then (c ∷ rest.0, rest.1) else ([], c ∷ s)

-- `digits_at_least_one`
unfoldable pub some_digits : Text → Option (Text × Text)
unfolding digits_at
some_digits s = let read = digits_at s in if is_empty read.0 then none else some read

-- The parts of `number`: the sign, the whole part, the fraction and the exponent.
abbrev pub sign_at : Text → Text × Text
sign_at [] = ([], [])
sign_at (c ∷ s) = if c == b'-' then (c ∷ [], s) else ([], c ∷ s)

unfoldable pub whole_at : Text → Option (Text × Text)
unfolding digits_at
whole_at [] = none
whole_at (c ∷ s) =
    let read = digits_at s in
    if c == b'0'
    then some (c ∷ [], s)
    else if leb b'1' c && leb c b'9'
    then some (c ∷ read.0, read.1)
    else none

unfoldable pub fraction_at : Text → Option (Text × Text)
unfolding some_digits
fraction_at [] = some ([], [])
fraction_at (c ∷ s) =
    if c == b'.'
    then elim (some_digits s) [ none ↦ none | some (ds, rest) ↦ some (c ∷ ds, rest) ]
    else some ([], c ∷ s)

abbrev pub exponent_sign_at : Text → Text × Text
exponent_sign_at [] = ([], [])
exponent_sign_at (c ∷ s) = if c == b'+' || c == b'-' then (c ∷ [], s) else ([], c ∷ s)

unfoldable pub exponent_at : Text → Option (Text × Text)
unfolding some_digits
exponent_at [] = some ([], [])
exponent_at (c ∷ s) =
    let signed = exponent_sign_at s in
    if c == b'e' || c == b'E'
    then elim (some_digits signed.1) [
      | none ↦ none
      | some (ds, rest) ↦ some (c ∷ signed.0 ++ ds, rest)
    ]
    else some ([], c ∷ s)

-- The text that `number` hands to the parser of floats, behind its sign.
unfoldable pub unsigned_at : Text → Text → Option (Text × Text)
unfolding whole_at fraction_at exponent_at
unsigned_at sign s = elim (whole_at s) [
  | none ↦ none
  | some (whole, s1) ↦ elim (fraction_at s1) [
    | none ↦ none
    | some (fraction, s2) ↦ elim (exponent_at s2) [
      | none ↦ none
      | some (exponent, s3) ↦ some (sign ++ (whole ++ (fraction ++ exponent)), s3)
    ]
  ]
]

unfoldable pub number_at : Text → Option (Text × Text)
unfolding unsigned_at
number_at s = unsigned_at (sign_at s).0 (sign_at s).1

-- `u8::is_ascii_hexdigit` with the digit's value
unfoldable pub hex_value : ℕ → Option ℕ
hex_value c =
    if leb b'0' c && leb c b'9'
    then some (c - b'0')
    else if leb b'a' c && leb c b'f'
    then some (c - b'a' + 10)
    else if leb b'A' c && leb c b'F'
    then some (c - b'A' + 10)
    else none

unfoldable pub hex_digits : ℕ → Text → Option ℕ
unfolding hex_value
hex_digits n [] = some n
hex_digits n (c ∷ s) = elim (hex_value c) [ none ↦ none | some d ↦ hex_digits (n * 16 + d) s ]

-- `code_unit`, of the text from the backslash on
unfoldable pub code_unit : Text → Option ℕ
unfolding hex_digits
code_unit (a ∷ b ∷ h1 ∷ h2 ∷ h3 ∷ h4 ∷ rest) =
    if a == b'\\' && b == b'u' then hex_digits 0 (h1 ∷ h2 ∷ h3 ∷ h4 ∷ []) else none
code_unit _ = none

abbrev pub low_half : Option ℕ → Option ℕ
low_half none = none
low_half (some u) = if is_low u then some u else none

abbrev pub scalar : ℕ → Option ℕ
scalar u = if is_char u then some u else none

-- `unicode_escape`
unfoldable pub unicode_escape : Text → Option (Option ℕ × ℕ)
unfolding code_unit paired drop
unicode_escape s = elim (code_unit s) [
  | none ↦ none
  | some first ↦ elim (if is_high first then low_half (code_unit (drop 6 s)) else none) [
    | some second ↦ some (scalar (paired first second), 12)
    | none ↦ some (scalar first, 6)
  ]
]

-- The character of an escape of one letter.
abbrev pub short_escape : ℕ → Option ℕ
short_escape c =
    if c == b'"' || c == b'\\' || c == b'/'
    then some c
    else if c == b'b'
    then some 0x8
    else if c == b'f'
    then some 0xc
    else if c == b'n'
    then some 0xa
    else if c == b'r'
    then some 0xd
    else if c == b't'
    then some 0x9
    else none

-- What an escape adds, of the text from the backslash on: a half without a partner is kept when `exact`.
unfoldable pub add_escape : Bool → Option ℕ → Text → Literal → Option Literal
unfolding push push_lone code_unit
add_escape exact (some c) s out = some (push c out)
add_escape true none s out = elim (code_unit s) [ none ↦ none | some u ↦ some (push_lone u out) ]
add_escape false none s out = some (push replacement out)

-- What a backslash and the text behind it add, and what is left.
unfoldable pub escape_at : Bool → Literal → Text → Option (Literal × Text)
unfolding push unicode_escape add_escape drop
escape_at exact out [] = none
escape_at exact out (e ∷ s) =
    if e == b'u'
    then elim (unicode_escape (b'\\' ∷ e ∷ s)) [
      | none ↦ none
      | some (unit, len) ↦ elim (add_escape exact unit (b'\\' ∷ e ∷ s) out) [
        | none ↦ none
        | some more ↦ some (more, drop (len - 2) s)
      ]
    ]
    else elim (short_escape e) [ none ↦ none | some c ↦ some (push c out, s) ]

-- `string`, behind the opening quote. Each round takes one character at least.
unfoldable pub string_rounds : ℕ → Bool → Literal → Text → Option (Literal × Text)
unfolding push escape_at
string_rounds zero exact out s = none
string_rounds (suc fuel) exact out [] = none
string_rounds (suc fuel) exact out (c ∷ s) =
    let plain = string_rounds fuel exact (push c out) s in
    if c == b'"'
    then some (out, s)
    else if c == b'\\'
    then elim (escape_at exact out s) [
      | none ↦ none
      | some (more, rest) ↦ string_rounds fuel exact more rest
    ]
    else if ltb c 0x20
    then none
    else plain

unfoldable pub string_at : Bool → Text → Option (Literal × Text)
unfolding string_rounds
string_at exact s = string_rounds (suc (length s)) exact (chars []) s
