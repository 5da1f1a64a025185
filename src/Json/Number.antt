-- ===== src/Json/Number.antt =====
-- crates/tagents-core/src/js.rs: `number_text`, the text that JavaScript prints for a number, from the text in
-- scientific notation that Rust's formatter gives. The formatter and the parser of floats are Rust's.
use tagents.Prelude.{
  ℕ, zero, suc, ◌+◌, ◌-◌, ◌*◌, ◌^◌, ◌%◌, Bool, true, false, not, ◌&&◌, ◌||◌, Option, none, some,
  List, [], ◌∷◌, ◌++◌, leb, ltb, ◌==◌, length, min, if◌then◌else◌,
}
use tagents.Int.{ℤ, pos, negsuc, add}
use tagents.Text.{Text, word, is_ascii_digit, is_empty, all_chars, take}
use tagents.Text.Pieces.{drop, split_once}
use tagents.Json.{F64, is_finite, is_zero}
use tagents.Json.Order.{digits_value}
pub mod Digits
pub mod Decimal
pub mod Layout
pub mod Scientific
pub mod Spelling

-- What Rust's library does: `format!("{x:e}")`, `format!("{x:.places$e}")` and `text.parse::<f64>().ok()`.
pub record Floats : Type 0 where
  pub lower_exp : F64 → Text
  pub lower_exp_places : ℕ → F64 → Text
  pub parse_f64 : Text → Option F64

abbrev pub is_negative : F64 → Bool
is_negative x = leb (2 ^ 63) x

abbrev pub magnitude : F64 → F64
magnitude x = x % 2 ^ 63

abbrev is_infinite : F64 → Bool
is_infinite x = x % 2 ^ 63 == 2047 * 2 ^ 52

-- `chars().filter(char::is_ascii_digit)`
unfoldable pub digits_of : Text → Text
digits_of [] = []
digits_of (c ∷ s) = let rest = digits_of s in if is_ascii_digit c then c ∷ rest else rest

abbrev digit_count : Option (Text × Text) → ℕ
digit_count none = 0
digit_count (some (mantissa, exponent)) = length (digits_of mantissa)

abbrev pub same_float : Option F64 → F64 → Bool
same_float none x = false
same_float (some y) x = y == x

unfoldable pub shortest_scientific : Floats → F64 → Text
unfolding split_once digits_of
shortest_scientific std x =
    let shortest = std.lower_exp x in
    let exact = std.lower_exp_places (digit_count (split_once b'e' shortest) - 1) x in
    if same_float (std.parse_f64 exact) x then exact else shortest

-- `text.parse::<i32>().ok()`
abbrev pub signed : Bool → ℕ → Option ℤ
signed false n = if ltb n (2 ^ 31) then some (pos n) else none
signed true zero = some (pos 0)
signed true (suc n) = if ltb n (2 ^ 31) then some (negsuc n) else none

unfoldable pub unsigned_i32 : Bool → Text → Option ℤ
unfolding all_chars digits_value
unsigned_i32 minus s =
    if is_empty s || not (all_chars is_ascii_digit s) then none else signed minus (digits_value 0 s)

unfoldable pub parse_i32 : Text → Option ℤ
unfolding unsigned_i32
parse_i32 [] = none
parse_i32 (c ∷ s) =
    if c == b'-'
    then unsigned_i32 true s
    else if c == b'+'
    then unsigned_i32 false s
    else unsigned_i32 false (c ∷ s)

abbrev pub or_zero : Option ℤ → ℤ
or_zero none = pos 0
or_zero (some n) = n

abbrev pub zeros : ℕ → Text
zeros zero = []
zeros (suc n) = b'0' ∷ zeros n

-- An exponent with its sign.
unfoldable pub with_power : Text → ℕ → ℕ → Text
unfolding take drop
with_power digits sign power =
    let rest = drop 1 digits in
    take 1 digits
    ++ ((if is_empty rest then [] else b'.' ∷ rest)
        ++ (b'e' ∷ sign ∷ tagents.Text.number_text power))

-- The layout of digits of which the point stands before the first one, or `point` digits behind that place.
unfoldable pub layout : Text → ℤ → Text
unfolding with_power take drop
layout digits (pos point) =
    let k = length digits in
    if leb k point && leb point 21
    then digits ++ zeros (point - k)
    else if ltb 0 point && leb point 21
    then take (min point k) digits ++ (b'.' ∷ drop (min point k) digits)
    else if point == 0
    then b'0' ∷ b'.' ∷ digits
    else with_power digits b'+' (point - 1)
layout digits (negsuc n) =
    if ltb (n + 1) 6
    then b'0' ∷ b'.' ∷ (zeros (n + 1) ++ digits)
    else with_power digits b'-' (n + 2)

unfoldable pub number_text : Floats → F64 → Text
unfolding shortest_scientific split_once digits_of parse_i32 layout add word
number_text std x =
    if not (is_finite x) && not (is_infinite x)
    then word "NaN"
    else if is_zero x
    then b'0' ∷ []
    else if is_infinite x
    then (if is_negative x then word "-Infinity" else word "Infinity")
    else let scientific = shortest_scientific std (magnitude x) in
      elim (split_once b'e' scientific) [
        | none ↦ scientific
        | some (mantissa, exponent) ↦
            (if is_negative x then b'-' ∷ [] else [])
            ++ layout (digits_of mantissa) (add (or_zero (parse_i32 exponent)) (pos 1))
      ]
