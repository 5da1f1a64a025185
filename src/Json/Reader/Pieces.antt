-- ===== src/Json/Reader/Pieces.antt =====
-- crates/tagents-core/src/json.rs: the lemmas on white space, keys and scalars at the front of a printed text.
use tagents.Prelude.{
  ℕ, zero, suc, ◌≡◌, refl, ap, ◌∙◌, Bool, true, false, ◌||◌, Option, none, some, [], ◌∷◌, ◌++◌, ltb,
  ◌==◌, arith, if◌then◌else◌, append_assoc, All,
}
use tagents.Text.{Text, word, strip_prefix, is_ascii_digit}
use tagents.Utf16.{Units, decode_utf16, from_utf16}
use tagents.Json.{F64, Value, null, bool, number, string, halves}
use tagents.Json.Scan.{
  Literal, chars, coded, into_value, is_gap, skip_space, number_at, unsigned_at, whole_at,
  fraction_at, exponent_at, string_at,
}
use tagents.Json.Writer.{Printing, newline, key_text, text_name, name_text, quote_units}
use tagents.Json.Writer.Quoted.{IsQuoting, escapes, pieces_text, quote_units-text}
use tagents.Json.Reader.{
  Parser, at, kept_key, key_at, complete, literal_at, number_value, string_value, value_at,
}
use tagents.Json.Reader.Literals.{string_at-escapes, string_at-units}

skip_space-two_each : (n : ℕ) (t : Text) → skip_space (newline n ++ t) ≡ skip_space t
unfolding newline skip_space
skip_space-two_each zero t = refl
skip_space-two_each (suc n) t = skip_space-two_each n t

pub skip_space-newline :
    (indent : Bool) (n : ℕ) (t : Text)
    → skip_space ((if indent then newline n else []) ++ t) ≡ skip_space t
skip_space-newline true n t = skip_space-two_each n t
skip_space-newline false n t = refl

pub skip_space-head : (c : ℕ) (t : Text) → is_gap c ≡ false → skip_space (c ∷ t) ≡ c ∷ t
unfolding skip_space
skip_space-head c t h = rw h refl

-- What may stand behind a value: the number ends there.
abbrev pub IsEnd : Text → Type 0
IsEnd [] = Unit {0}
IsEnd (c ∷ s) = (is_ascii_digit c || c == b'.' || c == b'e' || c == b'E') ≡ false

-- The parts of a number, one after the other.
pub unsigned_at-parts :
    (sign s w f e s1 s2 s3 : Text)
    → whole_at s ≡ some (w, s1)
    → fraction_at s1 ≡ some (f, s2)
    → exponent_at s2 ≡ some (e, s3)
    → unsigned_at sign s ≡ some (sign ++ (w ++ (f ++ e)), s3)
unfolding unsigned_at
unsigned_at-parts sign s w f e s1 s2 s3 hw hf he = rw (hw, unsigned_at, hf, he) refl

pub number_at-head :
    (c : ℕ) (s : Text) {r : Text × Text}
    → number_at (c ∷ s) ≡ some r
    → (c == b'-' || is_ascii_digit c) ≡ true
unfolding number_at whole_at
number_at-head c s h = ground arith

module _ (std : Printing) (quoting : IsQuoting std.quote) (parse_f64 : Text → Option F64) where
  string_at-quote :
      (exact : Bool) (s t : Text)
      → (std.quote s ++ t ≡ b'"' ∷ (escapes s ++ b'"' ∷ t))
        × (string_at exact (escapes s ++ b'"' ∷ t) ≡ some (chars s, t))
  string_at-quote exact s t = (
    ap (λ q. q ++ t) (quoting.escaped s)
        ∙ ap (λ r. b'"' ∷ r) (append_assoc (escapes s) (b'"' ∷ []) t),
    string_at-escapes exact s t,
  )

  key_at-quoted :
      (p : Parser) (k s rest : Text)
      → string_at p.exact s ≡ some (chars k, b':' ∷ rest)
      → key_at (at p (b'"' ∷ s)) ≡ some (chars k, at p rest)
  unfolding key_at kept_key skip_space
  key_at-quoted p k s rest h = rw (h, key_at) refl

  -- A key with its colon.
  pub key_at-key_text :
      (p : Parser) (indent : Bool) (k t : Text)
      → key_at (at p (key_text std indent (some (text_name k)) ++ t))
        ≡ some (chars k, at p ((if indent then 0x20 ∷ [] else []) ++ t))
  unfolding key_text name_text
  key_at-key_text p indent k t =
      let behind = (if indent then 0x20 ∷ [] else []) ++ t in
      let read = string_at-quote p.exact k (b':' ∷ behind) in
      let split = append_assoc (std.quote k) (b':' ∷ (if indent then 0x20 ∷ [] else [])) t in
      rw (split, read.0) (key_at-quoted p k (escapes k ++ b'"' ∷ b':' ∷ behind) behind read.1)

  -- A value that is complete at once.
  abbrev pub Reads : Value → Text → Type 0
  Reads v text =
      (p : Parser) (rest : Text)
      → IsEnd rest
      → value_at parse_f64 (at p (text ++ rest)) (text ++ rest) ≡ some (complete v (at p rest))

  pub null-Reads : Reads null (word "null")
  unfolding word value_at literal_at strip_prefix
  null-Reads p rest h = refl

  pub bool-Reads : (b : Bool) → Reads (bool b) (if b then word "true" else word "false")
  unfolding word value_at literal_at strip_prefix
  bool-Reads true p rest h = refl
  bool-Reads false p rest h = refl

  string_value-quoted :
      (p : Parser) (l : Literal) (s rest : Text)
      → string_at p.exact s ≡ some (l, rest)
      → value_at parse_f64 (at p (b'"' ∷ s)) (b'"' ∷ s) ≡ some (complete (into_value l) (at p rest))
  unfolding value_at string_value
  string_value-quoted p l s rest h = rw (h, string_value) refl

  pub string-Reads : (s : Text) → Reads (string s) (std.quote s)
  unfolding into_value
  string-Reads s p rest h =
      let read = string_at-quote p.exact s rest in
      rw (read.0) (string_value-quoted p (chars s) (escapes s ++ b'"' ∷ rest) rest read.1)

  -- Code units, where the parser keeps halves.
  pub halves_read :
      (us : Units) (p : Parser) (rest : Text)
      → All (λ u. ltb u 0x10000 ≡ true) us
      → from_utf16 us ≡ none
      → p.exact ≡ true
      → value_at parse_f64 (at p (quote_units std us ++ rest)) (quote_units std us ++ rest)
        ≡ some (complete (halves us) (at p rest))
  unfolding into_value
  halves_read us p rest h lone keeps =
      let text = pieces_text (decode_utf16 us) in
      let split =
        ap (λ q. q ++ rest) (quote_units-text std quoting us)
        ∙ ap (λ r. b'"' ∷ r) (append_assoc text (b'"' ∷ []) rest) in
      rw split (
        string_value-quoted p (coded us) (text ++ b'"' ∷ rest) rest
          (rw keeps (string_at-units us rest h lone)))

  -- A number whose text the scanner takes whole.
  pub number_read :
      (n : F64) (c : ℕ) (s : Text) (p : Parser) (rest : Text)
      → number_at ((c ∷ s) ++ rest) ≡ some (c ∷ s, rest)
      → parse_f64 (c ∷ s) ≡ some n
      → value_at parse_f64 (at p (c ∷ (s ++ rest))) (c ∷ (s ++ rest))
        ≡ some (complete (number n) (at p rest))
  unfolding value_at number_value
  number_read n c s p rest taken parsed =
      let head = number_at-head c (s ++ rest) taken in ground (arith, head)
