-- ===== src/Json/Writer.antt =====
-- crates/tagents-core/src/json.rs: `quote_units`, `quote_prefix16` and `stringify`, which prints from a stack
-- of open containers. `quote` is serde_json's, a parameter; so is the text of a number, which
-- Json/Number has.
use tagents.Prelude.{
  ℕ, zero, suc, ◌+◌, ◌-◌, ◌*◌, ◌/◌, ◌%◌, Bool, true, false, not, ◌&&◌, Option, none, some, List, [],
  ◌∷◌, ◌++◌, map, length, ltb, if◌then◌else◌,
}
use tagents.Text.{Text, word, take}
use tagents.Utf16.{Units, units, Piece, char, lone, decode_utf16}
use tagents.Json.{
  F64, is_finite, Value, null, bool, number, string, halves, array, object, keyed, Items, no_items,
  item, Members, no_members, member, Entry, entries_of, items_of,
}
use tagents.Json.Order.{array_index, units_index, js_order}
pub mod Shown
pub mod Loop
pub mod Rounds
pub mod Quoted

-- A digit of `{:x}`
unfoldable pub hex_digit : ℕ → ℕ
hex_digit d = if ltb d 10 then b'0' + d else b'a' + (d - 10)

-- `format!("\\u{:04x}", unit)`
unfoldable pub unit_escape : ℕ → Text
unfolding hex_digit
unit_escape u =
    b'\\'
    ∷ b'u'
    ∷ hex_digit (u / 4096 % 16)
    ∷ hex_digit (u / 256 % 16)
    ∷ hex_digit (u / 16 % 16)
    ∷ hex_digit (u % 16)
    ∷ []

-- `&quoted[1..quoted.len() - 1]`
abbrev without_last : Text → Text
without_last [] = []
without_last (c ∷ []) = []
without_last (c ∷ d ∷ s) = c ∷ without_last (d ∷ s)

unfoldable pub between_quotes : Text → Text
between_quotes [] = []
between_quotes (c ∷ s) = without_last s

-- What the code takes from other crates: serde_json's text of a string, and the text of a number.
pub record Printing : Type 0 where
  pub quote : Text → Text
  pub number_text : F64 → Text

pub data Name : Type 0 where
  text_name units_name : List ℕ → Name

pub record Level : Type 0 where
  pub members : List (Option Name × Value)
  pub close : ℕ
  pub written : Bool

pub record Printer : Type 0 where
  pub out : Text
  pub levels : List Level
  pub pending : Option Value

abbrev two_each : ℕ → Text
two_each zero = []
two_each (suc n) = 0x20 ∷ 0x20 ∷ two_each n

unfoldable pub newline : ℕ → Text
newline depth = 0xa ∷ two_each depth

abbrev pub unnamed : Value → Option Name × Value
unnamed v = (none, v)

abbrev pub text_named : Entry → Option Name × Value
text_named e = (some (text_name e.0), e.1)

abbrev pub units_named : Entry → Option Name × Value
units_named e = (some (units_name e.0), e.1)

module _ (std : Printing) where
  -- `quote_units`: `run` is the text since the last half without a partner.
  unfoldable pub quote_pieces : Text → List Piece → Text
  unfolding between_quotes unit_escape
  quote_pieces run [] = between_quotes (std.quote run)
  quote_pieces run (char c ∷ ps) = quote_pieces (run ++ c ∷ []) ps
  quote_pieces run (lone u ∷ ps) =
      between_quotes (std.quote run) ++ (unit_escape u ++ quote_pieces [] ps)

  unfoldable pub quote_units : Units → Text
  unfolding quote_pieces decode_utf16
  quote_units us = b'"' ∷ (quote_pieces [] (decode_utf16 us) ++ b'"' ∷ [])

  unfoldable pub quote_prefix16 : Text → ℕ → Text
  unfolding quote_units
  quote_prefix16 s n = quote_units (take n (units s))

  unfoldable pub name_text : Name → Text
  unfolding quote_units
  name_text (text_name s) = std.quote s
  name_text (units_name us) = quote_units us

  -- `begin`: what a value writes at its start, and the level of a container.
  unfoldable pub begin : Value → Text × Option Level
  unfolding word quote_units js_order
  begin null = (word "null", none)
  begin (bool b) = (if b then word "true" else word "false", none)
  begin (number n) = (if is_finite n then std.number_text n else word "null", none)
  begin (string s) = (std.quote s, none)
  begin (halves us) = (quote_units us, none)
  begin (array vs) = (
    b'[' ∷ [],
    some (record { members = map unnamed (items_of vs); close = b']'; written = false }),
  )
  begin (object ms) = (
    b'{' ∷ [],
    some (record {
      members = map text_named (js_order array_index (entries_of ms));
      close = b'}';
      written = false;
    }),
  )
  begin (keyed ms) = (
    b'{' ∷ [],
    some (record {
      members = map units_named (js_order units_index (entries_of ms));
      close = b'}';
      written = false;
    }),
  )

  -- A member's name, with what stands behind it.
  unfoldable pub key_text : Bool → Option Name → Text
  unfolding name_text
  key_text indent none = []
  key_text indent (some name) = name_text name ++ (b':' ∷ (if indent then 0x20 ∷ [] else []))

  abbrev pub opened : Option Level → List Level → List Level
  opened none levels = levels
  opened (some level) levels = level ∷ levels

  -- What a round does first: the pending value is begun.
  unfoldable pub begun : Printer → Printer
  unfolding begin
  begun p = elim p.pending [
    | none ↦ p
    | some v ↦ record {
      out = p.out ++ (begin v).0;
      levels = opened (begin v).1 p.levels;
      pending = none;
    }
  ]

  -- The next member of the innermost container, or its end.
  unfoldable pub next_member :
      Bool → Text → List (Option Name × Value) → ℕ → Bool → List Level → Printer
  unfolding newline key_text
  next_member indent out [] close written levels = record {
    out = (if indent && written then out ++ newline (length levels) else out) ++ close ∷ [];
    levels = levels;
    pending = none;
  }
  next_member indent out ((name, v) ∷ ms) close written levels = record {
    out =
        out
        ++ ((if written then b',' ∷ [] else [])
            ++ ((if indent then newline (suc (length levels)) else []) ++ key_text indent name));
    levels = record { members = ms; close = close; written = true } ∷ levels;
    pending = some v;
  }

  -- The loop, with fuel; `none` is that the fuel has run out.
  unfoldable pub rounds : ℕ → Bool → Printer → Option Text
  unfolding next_member begun
  rounds zero indent p = none
  rounds (suc fuel) indent p =
      let now = begun p in
      elim now.levels [
        | [] ↦ some now.out
        | level ∷ levels ↦
            rounds fuel indent
              (next_member indent now.out level.members level.close level.written levels)
      ]

-- One round for each value, and one for the end of each container.
unfoldable mutual
  pub cost : Value → ℕ
  cost (array vs) = suc (cost_items vs)
  cost (object ms) = suc (cost_members ms)
  cost (keyed ms) = suc (cost_members ms)
  cost _ = 0

  pub cost_items : Items → ℕ
  cost_items no_items = 0
  cost_items (item v vs) = suc (cost v) + cost_items vs

  pub cost_members : Members → ℕ
  cost_members no_members = 0
  cost_members (member k v ms) = suc (cost v) + cost_members ms

-- `stringify`
unfoldable pub stringify : Printing → Value → Bool → Option Text
unfolding rounds cost
stringify std v indent =
    rounds std (suc (cost v)) indent (record { out = []; levels = []; pending = some v })
