-- ===== src/Utf16.antt =====
-- The UTF-16 code units of a text: Rust's `str::encode_utf16`, `char::decode_utf16` and
-- `String::from_utf16`, which crates/tagents-core/src/js.rs and json.rs hold JavaScript's strings by.
use tagents.Prelude.{
  ℕ, ◌+◌, ◌-◌, ◌*◌, ◌/◌, ◌%◌, Bool, true, false, ◌&&◌, ◌||◌, Option, none, some, List, [], ◌∷◌,
  ◌++◌, leb, ltb, if◌then◌else◌,
}
use tagents.Text.{Text}
use tagents.Utf8.{replacement}
pub mod Laws

-- A sequence of code units.
abbrev pub Units : Type 0
Units = List ℕ

abbrev pub is_high : ℕ → Bool
is_high u = leb 0xd800 u && ltb u 0xdc00

abbrev pub is_low : ℕ → Bool
is_low u = leb 0xdc00 u && ltb u 0xe000

-- What `char::from_u32` takes.
abbrev pub is_char : ℕ → Bool
is_char c = ltb c 0xd800 || (leb 0xe000 c && ltb c 0x110000)

-- The character of a high half and a low one.
unfoldable pub paired : ℕ → ℕ → ℕ
paired high low = 0x10000 + (high - 0xd800) * 1024 + (low - 0xdc00)

-- `c.encode_utf16(..)`
unfoldable pub encode : ℕ → Units
encode c =
    if ltb c 0x10000
    then c ∷ []
    else (0xd800 + (c - 0x10000) / 1024) ∷ (0xdc00 + (c - 0x10000) % 1024) ∷ []

-- `js::units`
unfoldable pub units : Text → Units
unfolding encode
units [] = []
units (c ∷ s) = encode c ++ units s

-- A character, or a half that has no partner.
pub data Piece : Type 0 where
  char lone : ℕ → Piece

unfoldable pub alone : ℕ → Piece
alone u = if is_high u || is_low u then lone u else char u

-- `char::decode_utf16`
unfoldable pub decode_utf16 : Units → List Piece
unfolding paired alone
decode_utf16 [] = []
decode_utf16 (u ∷ []) = alone u ∷ []
decode_utf16 (u ∷ v ∷ us) =
    let pair = char (paired u v) ∷ decode_utf16 us in
    let single = alone u ∷ decode_utf16 (v ∷ us) in if is_high u && is_low v then pair else single

-- The text of pieces that are all characters.
unfoldable pub whole : List Piece → Option Text
whole [] = some []
whole (lone u ∷ ps) = none
whole (char c ∷ ps) = elim (whole ps) [ none ↦ none | some s ↦ some (c ∷ s) ]

-- `String::from_utf16(units).ok()`
unfoldable pub from_utf16 : Units → Option Text
unfolding decode_utf16 whole
from_utf16 us = whole (decode_utf16 us)

unfoldable pub shown : List Piece → Text
shown [] = []
shown (char c ∷ ps) = c ∷ shown ps
shown (lone u ∷ ps) = replacement ∷ shown ps

-- `js::text16`
unfoldable pub text16 : Units → Text
unfolding decode_utf16 shown
text16 us = shown (decode_utf16 us)
