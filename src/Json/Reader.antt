-- ===== src/Json/Reader.antt =====
-- crates/tagents-core/src/json.rs: the parser, with its own stack of open containers. It holds the text that is
-- left in place of the index. The parser of floats is Rust's, a parameter.
use tagents.Prelude.{
  ℕ, zero, suc, ◌+◌, ◌-◌, Bool, true, false, ◌&&◌, ◌||◌, not, Option, none, some, List, [], ◌∷◌,
  ◌++◌, leb, ltb, ◌==◌, length, if◌then◌else◌,
}
use tagents.Text.{Text, word, strip_prefix, is_empty, is_ascii_digit}
use tagents.Utf16.{Units, units, text16}
use tagents.Json.{
  F64, Value, null, bool, number, string, halves, array, object, keyed, Items, no_items, Members,
  no_members, member, push_item, push_member,
}
use tagents.Json.Scan.{
  Literal, chars, coded, into_value, into_units, skip_space, number_at, string_at,
}
pub mod Strings
pub mod Literals
pub mod Pieces
pub mod Rounds
pub mod Plain
pub mod RoundTrip
pub mod Ends

-- `Open`: the container, and the key that waits for its value.
pub data Open : Type 0 where
  in_array : Items → Open
  in_object in_keyed : Members → List ℕ → Open

-- Every key as code units.
unfoldable pub coded_members : Members → Members
unfolding units
coded_members no_members = no_members
coded_members (member k v ms) = member (units k) v (coded_members ms)

-- `Open::object`
unfoldable pub open_object : Members → Literal → Open
unfolding coded_members
open_object ms (chars key) = in_object ms key
open_object ms (coded key) = in_keyed (coded_members ms) key

pub record Parser : Type 0 where
  pub rest : Text
  pub exact : Bool
  pub lone_key : Bool
  pub keep_keys : Bool

abbrev pub at : Parser → Text → Parser
at p s = record p { rest = s }

-- A key as it is kept: text, unless `keep_keys`, and then also code units.
unfoldable pub kept_key : Parser → Literal → Literal × Parser
unfolding text16
kept_key p (chars key) = (chars key, p)
kept_key p (coded key) =
    if p.keep_keys then (coded key, p) else (chars (text16 key), record p { lone_key = true })

-- `self.next()? == byte`, and what is left
abbrev pub expect : ℕ → Text → Option Text
expect byte [] = none
expect byte (c ∷ s) = if c == byte then some s else none

-- `key`
unfoldable pub key_at : Parser → Option (Literal × Parser)
unfolding string_at kept_key skip_space
key_at p = elim (expect b'"' p.rest) [
  | none ↦ none
  | some s ↦ elim (string_at p.exact s) [
    | none ↦ none
    | some (key, s1) ↦ elim (expect b':' (skip_space s1)) [
      | none ↦ none
      | some s2 ↦ some ((kept_key p key).0, record (kept_key p key).1 { rest = s2 })
    ]
  ]
]

-- What the start of a value gives: a container that opens, or a value that is complete.
pub data Started : Type 0 where
  opened : Open → Parser → Started
  complete : Value → Parser → Started

unfoldable pub array_at : Parser → Text → Option Started
array_at p [] = none
array_at p (c ∷ s) = some (
    if c == b']'
    then complete (array no_items) (at p s)
    else opened (in_array no_items) (at p (c ∷ s)))

unfoldable pub object_at : Parser → Text → Option Started
unfolding key_at open_object
object_at p [] = none
object_at p (c ∷ s) =
    if c == b'}'
    then some (complete (object no_members) (at p s))
    else elim (key_at (at p (c ∷ s))) [
      | none ↦ none
      | some (key, after) ↦ some (opened (open_object no_members key) after)
    ]

-- `literal`
unfoldable pub literal_at : Parser → Text → Value → Text → Option Started
unfolding strip_prefix
literal_at p expected v s = elim (strip_prefix expected s) [
  | none ↦ none
  | some rest ↦ some (complete v (at p rest))
]

-- `number`: what Rust's parser of floats says of the text.
unfoldable pub number_value : (Text → Option F64) → Parser → Text → Option Started
unfolding number_at
number_value parse_f64 p s = elim (number_at s) [
  | none ↦ none
  | some (spelled, rest) ↦ elim (parse_f64 spelled) [
    | none ↦ none
    | some n ↦ some (complete (number n) (at p rest))
  ]
]

unfoldable pub string_value : Parser → Text → Option Started
unfolding string_at into_value
string_value p s = elim (string_at p.exact s) [
  | none ↦ none
  | some (read, rest) ↦ some (complete (into_value read) (at p rest))
]

unfoldable pub value_at : (Text → Option F64) → Parser → Text → Option Started
unfolding array_at object_at literal_at number_value string_value skip_space word
value_at parse_f64 p [] = none
value_at parse_f64 p (c ∷ s) =
    if c == b'['
    then array_at p (skip_space s)
    else if c == b'{'
    then object_at p (skip_space s)
    else if c == b'"'
    then string_value p s
    else if c == b't'
    then literal_at p (word "true") (bool true) (c ∷ s)
    else if c == b'f'
    then literal_at p (word "false") (bool false) (c ∷ s)
    else if c == b'n'
    then literal_at p (word "null") null (c ∷ s)
    else if c == b'-' || is_ascii_digit c
    then number_value parse_f64 p (c ∷ s)
    else none

-- The end of the inner loop: the document is complete, or the next value of a container starts.
pub data Handed : Type 0 where
  finished : Value → Parser → Handed
  more : List Open → Parser → Handed

-- The character behind a complete value in a container: a comma, or the end of the container.
unfoldable pub after_value :
    ℕ → Text → (Text → Option Handed) → (Text → Option Handed) → Option Handed
after_value close [] comma closed = none
after_value close (c ∷ s) comma closed =
    if c == b',' then comma s else if c == close then closed s else none

unfoldable pub next_key : (Literal → Open) → List Open → Option (Literal × Parser) → Option Handed
next_key open_with stack none = none
next_key open_with stack (some (key, after)) = some (more (open_with key ∷ stack) after)

-- A complete value is handed to the container it sits in, and containers are closed while their end follows.
unfoldable pub hand : Value → List Open → Parser → Option Handed
unfolding skip_space push_item push_member key_at open_object into_units after_value next_key
hand done [] p = if is_empty (skip_space p.rest) then some (finished done (at p [])) else none
hand done (in_array vs ∷ stack) p =
    after_value b']' (skip_space p.rest)
      (λ s. some (more (in_array (push_item done vs) ∷ stack) (at p s)))
      (λ s. hand (array (push_item done vs)) stack (at p s))
hand done (in_object ms key ∷ stack) p =
    after_value b'}' (skip_space p.rest)
      (λ s. next_key (open_object (push_member key done ms)) stack (key_at (at p (skip_space s))))
      (λ s. hand (object (push_member key done ms)) stack (at p s))
hand done (in_keyed ms key ∷ stack) p =
    after_value b'}' (skip_space p.rest)
      (λ s.
        next_key (λ next. in_keyed (push_member key done ms) (into_units next)) stack
          (key_at (at p (skip_space s))))
      (λ s. hand (keyed (push_member key done ms)) stack (at p s))

-- How a reading ends: `exhausted` is that the fuel has run out.
pub data Outcome : Type 0 where
  read : Value → Parser → Outcome
  refused exhausted : Outcome

-- What follows a value that was handed on, and the start of a value: `next` is the next round.
unfoldable pub after_hand : (List Open → Parser → Outcome) → Option Handed → Outcome
after_hand next none = refused
after_hand next (some (finished v end)) = read v end
after_hand next (some (more stack p)) = next stack p

unfoldable pub after_start : (List Open → Parser → Outcome) → List Open → Option Started → Outcome
unfolding hand after_hand
after_start next stack none = refused
after_start next stack (some (opened container p)) = next (container ∷ stack) p
after_start next stack (some (complete done p)) = after_hand next (hand done stack p)

abbrev pub value_of : Outcome → Option Value
value_of (read v p) = some v
value_of refused = none
value_of exhausted = none

-- `Exact`: the value, and whether a key had a half without a partner
abbrev pub exact_of : Outcome → Option (Value × Bool)
exact_of (read v p) = some (v, p.lone_key)
exact_of refused = none
exact_of exhausted = none

module _ (parse_f64 : Text → Option F64) where
  abbrev pub next_value : Parser → Option Started
  next_value p = value_at parse_f64 p p.rest

  -- `document`: each round takes one character at least.
  unfoldable pub document : ℕ → List Open → Parser → Outcome
  unfolding value_at skip_space after_start
  document zero stack p = exhausted
  document (suc fuel) stack p =
      after_start (document fuel) stack (next_value (at p (skip_space p.rest)))

  abbrev whole_document : Bool → Bool → Text → Outcome
  whole_document exact keep_keys s =
      document (suc (length s)) []
        (record { rest = s; exact = exact; lone_key = false; keep_keys = keep_keys })

  -- `parse`
  unfoldable pub parse : Text → Option Value
  unfolding document
  parse s = value_of (whole_document false false s)

  -- `parse_exact`
  unfoldable pub parse_exact : Text → Option (Value × Bool)
  unfolding document
  parse_exact s = exact_of (whole_document true false s)

  -- `parse_whole`
  unfoldable pub parse_whole : Text → Option Value
  unfolding document
  parse_whole s = value_of (whole_document true true s)
