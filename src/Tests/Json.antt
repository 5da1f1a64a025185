-- ===== src/Tests/Json.antt =====
-- crates/tagents-core/src/json.rs: each theorem at one document, and runs of the reader and the writer.
use tagents.Prelude.{◌≡◌, ◌≢◌, refl, true, false, none, some, [], ◌∷◌, ◌++◌, arith}
use tagents.Text.{Text, word, is_ascii_digit}
use tagents.Utf16.{from_utf16}
use tagents.Json.{
  F64, is_finite, Value, null, bool, number, string, halves, array, object, no_items, item,
  no_members, member, Members, entries_of, get,
}
use tagents.Json.Order.{array_index, js_order}
use tagents.Json.Order.Keys.{IsUnique, IsSorted, js_order_lem}
use tagents.Json.Writer.{Printing, stringify}
use tagents.Json.Writer.Quoted.{escapes, IsQuoting}
use tagents.Json.Writer.Shown.{ordered, show, members_of}
use tagents.Json.Writer.Rounds.{stringify_lem}
use tagents.Json.Reader.{exhausted, document, parse, parse_exact, parse_whole}
use tagents.Json.Reader.Plain.{IsSpelling, IsPlain}
use tagents.Json.Reader.Ends.{document-ne-exhausted}
use tagents.Json.RoundTrip.{printing, parse-stringify}
use tagents.Json.Number.{number_text}
use tagents.Json.Number.Spelling.{number_text-IsSpelling}
use tagents.Tests.Floats.{floats, floats-IsFloats}

abbrev quote : Text → Text
quote s = b'"' ∷ (escapes s ++ b'"' ∷ [])

quote-IsQuoting : IsQuoting quote
quote-IsQuoting = record { escaped = λ s. refl }

abbrev std : Printing
std = printing quote floats

-- {"b": 2, "1": [true, "\ud83d"], "b": "\n"}
abbrev document_value : Value
document_value = object (
    member (b'b' ∷ []) (number 2) (
      member (b'1' ∷ []) (array (item (bool true) (item (halves (0xd83d ∷ [])) no_items)))
        (member (b'b' ∷ []) (string (0xa ∷ [])) no_members)))

lone_half : from_utf16 (0xd83d ∷ []) ≡ none
unfolding from_utf16
lone_half = refl

document_value-IsPlain : IsPlain true document_value
document_value-IsPlain = (
  (refl, (λ e. absurd (omega (arith, e))), refl),
  ((tt, ((refl, (refl, tt), lone_half), tt)), (tt, tt)),
)

parse-stringify_example :
    (text : Text) × (stringify std document_value false ≡ some text)
    × (parse_whole floats.parse_f64 text ≡ some (ordered document_value))
    × (parse_exact floats.parse_f64 text ≡ some (ordered document_value, false))
    × (IsPlain false document_value → parse floats.parse_f64 text ≡ some (ordered document_value))
parse-stringify_example =
    parse-stringify quote floats quote-IsQuoting floats-IsFloats false document_value
      document_value-IsPlain

number_text-IsSpelling_example : IsSpelling (number_text floats) floats.parse_f64
number_text-IsSpelling_example = number_text-IsSpelling floats floats-IsFloats

printed :
    stringify std document_value false ≡ some (word "{\"1\":[true,\"\\ud83d\"],\"b\":\"\\n\"}")
unfolding stringify word escapes tagents.Json.Writer.unit_escape tagents.Text.text_eq array_index
printed = refl

stringify_lem_example :
    stringify std document_value true ≡ some (show std true 0 (ordered document_value))
stringify_lem_example = stringify_lem std document_value true

document-ne-exhausted_example :
    document floats.parse_f64 4 []
      (record { rest = word "[1,"; exact = false; lone_key = false; keep_keys = false })
    ≢ exhausted
document-ne-exhausted_example =
    document-ne-exhausted floats.parse_f64 4 []
      (record { rest = word "[1,"; exact = false; lone_key = false; keep_keys = false })
      (unfold word in omega arith)

abbrev members : Members
members =
    member (b'b' ∷ []) null (member (b'2' ∷ []) null (member (b'b' ∷ []) (bool true) no_members))

js_order_lem_example :
    let es = js_order array_index (entries_of members) in
    IsUnique es
    × IsSorted array_index es
    × (get (b'b' ∷ []) (object (members_of es)) ≡ get (b'b' ∷ []) (object members))
js_order_lem_example = js_order_lem array_index members (b'b' ∷ [])
