-- ===== src/Json.antt =====
-- crates/tagents-core/src/json.rs: the values. A text of the source is a sequence of bytes in UTF-8; here it
-- is the sequence of its characters. Each byte that the code looks for is ASCII and so a character.
use tagents.Prelude.{
  ℕ, ◌+◌, ◌-◌, ◌*◌, ◌/◌, ◌%◌, ◌^◌, Bool, true, false, not, ◌&&◌, ◌||◌, Option, none, some, List, [],
  ◌∷◌, ◌++◌, leb, ltb, ◌==◌, if◌then◌else◌,
}
use tagents.Text.{Text, text_eq, is_empty}
use tagents.Utf16.{Units, units, from_utf16}
pub mod Order
pub mod Writer
pub mod Scan
pub mod Reader
pub mod Number
pub mod RoundTrip

-- An `f64` by its 64 bits.
abbrev pub F64 : Type 0
F64 = ℕ

abbrev pub exponent_bits : F64 → ℕ
exponent_bits n = n / 2 ^ 52 % 2048

-- `n.is_finite()`
abbrev pub is_finite : F64 → Bool
is_finite n = ltb (exponent_bits n) 2047

-- `n == 0.0`, of either sign
abbrev pub is_zero : F64 → Bool
is_zero n = n % 2 ^ 63 == 0

-- `Value`: an array holds its items, and an object its members, whose keys are texts in `object` and code
-- units in `keyed`.
mutual
  pub data Value : Type 0 where
    null : Value
    bool : Bool → Value
    number : F64 → Value
    string : Text → Value
    halves : Units → Value
    array : Items → Value
    object keyed : Members → Value

  pub data Items : Type 0 where
    no_items : Items
    item : Value → Items → Items

  pub data Members : Type 0 where
    no_members : Members
    member : List ℕ → Value → Members → Members

abbrev pub Entry : Type 0
Entry = List ℕ × Value

abbrev pub entries_of : Members → List Entry
entries_of no_members = []
entries_of (member k v ms) = (k, v) ∷ entries_of ms

abbrev pub items_of : Items → List Value
items_of no_items = []
items_of (item v vs) = v ∷ items_of vs

-- `items.push(value)` and `members.push((key, value))`
unfoldable pub push_item : Value → Items → Items
push_item v no_items = item v no_items
push_item v (item w ws) = item w (push_item v ws)

unfoldable pub push_member : List ℕ → Value → Members → Members
push_member k v no_members = member k v no_members
push_member k v (member j w ms) = member j w (push_member k v ms)

-- `members.iter().rev().find(..)`
unfoldable pub find_last : (List ℕ → Bool) → Members → Option Value
find_last is no_members = none
find_last is (member k v ms) =
    let later = find_last is ms in
    elim later [ some w ↦ some w | none ↦ if is k then some v else none ]

-- `is_key`
unfoldable pub is_key : Units → Text → Bool
is_key us key = text_eq us (units key)

-- `Value::get`
unfoldable pub get : Text → Value → Option Value
unfolding find_last is_key
get key (object ms) = find_last (λ k. text_eq k key) ms
get key (keyed ms) = find_last (λ k. is_key k key) ms
get key _ = none

unfoldable pub retain : (List ℕ → Bool) → Members → Members
retain keeps no_members = no_members
retain keeps (member k v ms) =
    let rest = retain keeps ms in if keeps k then member k v rest else rest

-- `Value::remove`
unfoldable pub remove : Text → Value → Value
unfolding retain is_key
remove key (object ms) = object (retain (λ k. not (text_eq k key)) ms)
remove key (keyed ms) = keyed (retain (λ k. not (is_key k key)) ms)
remove key v = v

-- `Value::as_str`
unfoldable pub as_str : Value → Option Text
as_str (string s) = some s
as_str _ = none

-- `Value::units`
unfoldable pub units_of : Value → Option Units
units_of (string s) = some (units s)
units_of (halves us) = some us
units_of _ = none

-- `Value::from_units`
unfoldable pub from_units : Units → Value
from_units us = elim (from_utf16 us) [ some s ↦ string s | none ↦ halves us ]

-- `Value::truthy`
unfoldable pub truthy : Value → Bool
truthy null = false
truthy (bool b) = b
truthy (number n) = not (is_zero n)
truthy (string s) = not (is_empty s)
truthy (halves us) = true
truthy (array vs) = true
truthy (object ms) = true
truthy (keyed ms) = true
