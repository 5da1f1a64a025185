-- ===== src/Tests/Session.antt =====
-- crates/tagents-core/src/session: each theorem at one stream or turn, and runs of the reader.
use tagents.Prelude.{ℕ, ◌+◌, ◌%◌, ◌≡◌, refl, true, false, some, List, [], ◌∷◌, ◌++◌, arith}
use tagents.Int.{ℤ, pos, negsuc}
use tagents.Text.{Text, word}
use tagents.Utf8.{Bytes}
use tagents.Json.{F64, Value, bool, string, object, no_members, member, get}
use tagents.Json.Writer.{Printing}
use tagents.Json.Writer.Quoted.{escapes, IsQuoting}
use tagents.Json.Writer.Shown.{ordered}
use tagents.Json.Reader.{parse_whole}
use tagents.Json.RoundTrip.{printing}
use tagents.Tests.Floats.{floats, floats-IsFloats}
use tagents.Session.Stream.{unheard, reader_of, pushes, finish, payload_of}
use tagents.Session.Stream.Cut.{hear_lines, lines_of, concat, finish-pushes}
use tagents.Session.Stream.Quiet.{quiet, quiet-finish}
use tagents.Session.Outcome.{Outcome, timeout, to_value, document}
use tagents.Session.Outcome.Plain.{IsNumber, parse_whole-document}

abbrev quote : Text → Text
quote s = b'"' ∷ (escapes s ++ b'"' ∷ [])

quote-IsQuoting : IsQuoting quote
quote-IsQuoting = record { escaped = λ s. refl }

abbrev std : Printing
std = printing quote floats

-- A tool call and a result, cut in the middle of the first line, with no newline at the end.
abbrev chunks : List Bytes
chunks =
    word "{\"type\":\"assistant\",\"message\":{\"content\":[{\"type\":\"tool_use\",\"na"
    ∷ word "me\":\"Bash\"}]}}\n{\"type\":\"result\",\"is_error\":false}"
    ∷ []

finish-pushes_example :
    (finish std floats.parse_f64 (pushes std floats.parse_f64 chunks (reader_of true))).heard
    ≡ hear_lines std floats.parse_f64 true (lines_of (concat chunks)) unheard
finish-pushes_example = finish-pushes std floats.parse_f64 true chunks

quiet-finish_example :
    quiet (finish std floats.parse_f64 (pushes std floats.parse_f64 chunks (reader_of true))).heard
    ≡ (finish std floats.parse_f64 (pushes std floats.parse_f64 chunks (reader_of false))).heard
quiet-finish_example = quiet-finish std floats.parse_f64 chunks

abbrev from_i32 : ℤ → F64
from_i32 (pos n) = n % 1000
from_i32 (negsuc n) = n % 1000 + 1000

abbrev from_u64 : ℕ → F64
from_u64 n = n % 1000

ints : (code : ℤ) → IsNumber (from_i32 code)
ints (pos n) = (ground arith, (λ e. absurd (omega (arith, e))), ground arith)
ints (negsuc n) = (ground arith, (λ e. absurd (omega (arith, e))), ground arith)

counts : (n : ℕ) → IsNumber (from_u64 n)
counts n = (ground arith, (λ e. absurd (omega (arith, e))), ground arith)

abbrev late : Outcome
late =
    timeout
      (record {
        session_id = some (string (b's' ∷ []));
        tool_uses = 2;
        detail = b'w' ∷ 0xd83d ∷ [];
        saw_text = true;
        saw_result = false;
      })
      400

parse_whole-document_example :
    (text : Text) × (document from_i32 from_u64 std late true ≡ some (text ++ (b'\n' ∷ [])))
    × (parse_whole floats.parse_f64 text ≡ some (ordered (to_value from_i32 from_u64 late)))
parse_whole-document_example =
    parse_whole-document quote floats from_i32 from_u64 quote-IsQuoting floats-IsFloats ints counts
      late true ((tt, (refl, (refl, tt))), (refl, (λ e. absurd (omega (arith, e))), refl))

-- A result with one key written twice.
abbrev doubled : Value
doubled = object (
    member (word "is_error") (bool false) (
      member (word "result") (string (b'x' ∷ []))
        (member (word "result") (string (b'y' ∷ [])) no_members)))

last_value : get (word "result") doubled ≡ some (string (b'y' ∷ []))
unfolding get word tagents.Text.text_eq
last_value = refl

-- `swap_remove` of the first key puts the last of the others in its place, so the older value is kept.
first_value_kept : get (word "result") (payload_of doubled true) ≡ some (string (b'x' ∷ []))
unfolding get payload_of tagents.Json.remove tagents.Session.Stream.in_schema_order
    tagents.Session.Stream.words_of word tagents.Text.text_eq
first_value_kept = refl
