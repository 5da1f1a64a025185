-- ===== src/Json/Reader/Plain.antt =====
-- crates/tagents-core/src/json.rs: the values that a document has, and the lemmas on the first characters of their texts.
use tagents.Prelude.{
  ℕ, ◌^◌, ◌≡◌, ◌≢◌, Bool, true, false, Option, none, some, ◌∷◌, ◌++◌, ltb, ◌==◌, All,
}
use tagents.Text.{Text}
use tagents.Utf16.{from_utf16}
use tagents.Json.{
  F64, is_finite, Value, null, bool, number, string, halves, array, object, keyed, Items, no_items,
  item, Members, no_members, member,
}
use tagents.Json.Scan.{is_gap, number_at}
use tagents.Json.Reader.Pieces.{IsEnd}

-- What the text of a finite number other than -0 is to the scanner and to Rust's parser of floats.
pub record IsSpelling (number_text : F64 → Text) (parse_f64 : Text → Option F64) : Type 0 where
  pub scanned :
      (n : F64) (rest : Text)
      → is_finite n ≡ true
      → IsEnd rest
      → number_at (number_text n ++ rest) ≡ some (number_text n, rest)
  pub parsed :
      (n : F64)
      → is_finite n ≡ true
      → n ≢ 2 ^ 63
      → ltb n (2 ^ 64) ≡ true
      → parse_f64 (number_text n) ≡ some n

-- The values that a document has: no infinite numbers, no -0, no keys with a half, and no strings with one
-- where the parser does not keep them.
abbrev mutual
  pub IsPlain : Bool → Value → Type 0
  IsPlain exact null = Unit {0}
  IsPlain exact (bool b) = Unit {0}
  IsPlain exact (number n) = (is_finite n ≡ true) × (n ≢ 2 ^ 63) × (ltb n (2 ^ 64) ≡ true)
  IsPlain exact (string s) = Unit {0}
  IsPlain exact (halves us) =
      (exact ≡ true) × (All (λ u. ltb u 0x10000 ≡ true) us) × (from_utf16 us ≡ none)
  IsPlain exact (array vs) = AllPlain exact vs
  IsPlain exact (object ms) = MembersPlain exact ms
  IsPlain exact (keyed ms) = ⊥

  pub AllPlain : Bool → Items → Type 0
  AllPlain exact no_items = Unit {0}
  AllPlain exact (item v vs) = IsPlain exact v × AllPlain exact vs

  pub MembersPlain : Bool → Members → Type 0
  MembersPlain exact no_members = Unit {0}
  MembersPlain exact (member k v ms) = IsPlain exact v × MembersPlain exact ms

-- How a value's text begins.
pub record Opening (text : Text) : Type 0 where
  pub head : ℕ
  pub tail : Text
  pub splits : text ≡ head ∷ tail
  pub no_gap : is_gap head ≡ false
  pub no_close : (head == b']') ≡ false
