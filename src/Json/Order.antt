-- ===== src/Json/Order.antt =====
-- crates/tagents-core/src/json.rs, `array_index` and `js_order`: the members of an object in the order in
-- which JavaScript keeps them.
use tagents.Prelude.{
  ℕ, ◌+◌, ◌*◌, ◌-◌, ◌^◌, Bool, true, false, not, ◌&&◌, ◌||◌, Option, none, some, List, [], ◌∷◌, leb,
  ltb, ◌==◌, if◌then◌else◌,
}
use tagents.Text.{Text, text_eq, starts_with, all_chars, is_ascii_digit, is_empty}
use tagents.Utf16.{Units, from_utf16}
use tagents.Json.{Value, Entry}
pub mod Laws
pub mod Keys

-- The number that digits spell, behind the digits read so far.
unfoldable pub digits_value : ℕ → Text → ℕ
digits_value n [] = n
digits_value n (c ∷ s) = digits_value (n * 10 + (c - b'0')) s

-- `key.parse::<u32>().ok()` of digits
unfoldable pub parse_u32 : Text → Option ℕ
unfolding digits_value
parse_u32 s =
    if is_empty s
    then none
    else if ltb (digits_value 0 s) (2 ^ 32)
    then some (digits_value 0 s)
    else none

unfoldable pub array_index : Text → Option ℕ
unfolding text_eq starts_with all_chars parse_u32
array_index key =
    if (text_eq key (b'0' ∷ []) || not (starts_with (b'0' ∷ []) key))
      && all_chars is_ascii_digit key
    then elim (parse_u32 key) [ none ↦ none | some i ↦ if i == 2 ^ 32 - 1 then none else some i ]
    else none

-- The index of a key given as code units.
unfoldable pub units_index : Units → Option ℕ
unfolding from_utf16 array_index
units_index us = elim (from_utf16 us) [ none ↦ none | some s ↦ array_index s ]

-- The slots of the keys read so far: a key that has one gets the new value there.
unfoldable pub place : List ℕ → Value → List Entry → List Entry
place k v [] = (k, v) ∷ []
place k v ((j, w) ∷ slots) =
    let rest = place k v slots in if text_eq j k then (j, v) ∷ slots else (j, w) ∷ rest

unfoldable pub place_all : List Entry → List Entry → List Entry
unfolding place
place_all slots [] = slots
place_all slots ((k, v) ∷ ms) = place_all (place k v slots) ms

-- `(0, index) <= (1, 0)`, and the other comparisons of the sort's keys
abbrev pub rank_le : Option ℕ → Option ℕ → Bool
rank_le (some i) (some j) = leb i j
rank_le (some i) none = true
rank_le none (some j) = false
rank_le none none = true

-- A stable sort by the index of the key.
module _ (index : List ℕ → Option ℕ) where
  unfoldable pub insert_entry : Entry → List Entry → List Entry
  insert_entry e [] = e ∷ []
  insert_entry e (f ∷ fs) =
      let rest = insert_entry e fs in
      if rank_le (index e.0) (index f.0) then e ∷ f ∷ fs else f ∷ rest

  unfoldable pub sort_entries : List Entry → List Entry
  unfolding insert_entry
  sort_entries [] = []
  sort_entries (e ∷ es) = insert_entry e (sort_entries es)

  unfoldable pub js_order : List Entry → List Entry
  unfolding place_all sort_entries
  js_order members = sort_entries (place_all [] members)
