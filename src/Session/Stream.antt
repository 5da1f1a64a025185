-- ===== src/Session/Stream.antt =====
-- crates/tagents-core/src/session/stream.rs: what a child prints, one JSON object on each line.
use tagents.Prelude.{
  String, ℕ, zero, suc, ◌+◌, Bool, true, false, not, ◌&&◌, ◌||◌, Option, none, some, List, [], ◌∷◌,
  ◌++◌, ◌==◌, if◌then◌else◌,
}
use tagents.Text.{Text, word, is_empty, starts_with, text_eq, trim}
use tagents.Utf8.{Bytes, from_utf8_lossy}
use tagents.Utf16.{Units, units}
use tagents.Json.{
  F64, is_finite, Value, null, bool, number, string, halves, array, object, keyed, Items, no_items,
  item, Members, no_members, member, Entry, entries_of, is_key, get, remove, as_str, units_of,
  from_units, truthy,
}
use tagents.Json.Writer.{Printing, stringify}
use tagents.Json.Writer.Shown.{members_of}
use tagents.Json.Reader.{parse_whole}
pub mod Cut
pub mod Quiet

abbrev pub payload_keys : List String
payload_keys =
    "is_error" ∷ "result" ∷ "session_id" ∷ "total_cost_usd" ∷ "duration_ms" ∷ "num_turns" ∷ []

-- What a `Reader` has read, with the lines that its listener was called with.
pub record Heard : Type 0 where
  pub payload : Option Value
  pub session_id : Option Value
  pub tool_uses : ℕ
  pub text : Units
  pub saw_result : Bool
  pub lines : List Text

-- `Reader`: what it has read, whether anyone listens, and the bytes of a line that has not ended.
pub record Reader : Type 0 where
  pub heard : Heard
  pub listening : Bool
  pub pending : Bytes

abbrev pub unheard : Heard
unheard = record {
  payload = none;
  session_id = none;
  tool_uses = 0;
  text = [];
  saw_result = false;
  lines = [];
}

-- `Reader::default` and `Reader::listening`
abbrev pub reader_of : Bool → Reader
reader_of listening = record { heard = unheard; listening = listening; pending = [] }

abbrev is_string : Value → Bool
is_string (string s) = true
is_string (halves us) = true
is_string _ = false

abbrev pub string_or_absent : Option Value → Bool
string_or_absent none = true
string_or_absent (some v) = is_string v

abbrev pub number_or_absent : Option Value → Bool
number_or_absent none = true
number_or_absent (some (number n)) = is_finite n
number_or_absent (some _) = false

abbrev bool_or_absent : Option Value → Bool
bool_or_absent none = true
bool_or_absent (some (bool b)) = true
bool_or_absent (some _) = false

unfoldable pub fits_payload : Value → Bool
fits_payload json =
    bool_or_absent (get (word "is_error") json)
    && string_or_absent (get (word "result") json)
    && string_or_absent (get (word "session_id") json)
    && number_or_absent (get (word "total_cost_usd") json)
    && number_or_absent (get (word "duration_ms") json)
    && number_or_absent (get (word "num_turns") json)

-- The last entry that a test takes, with what is before it and behind it: `rposition`.
abbrev pub Found : Type 0
Found = Option (List Entry × Entry × List Entry)

abbrev found_here : (Entry → Bool) → Entry → List Entry → Found → Found
found_here is e es (some (front, found, rest)) = some (e ∷ front, found, rest)
found_here is e es none = if is e then some ([], e, es) else none

unfoldable pub rposition : (Entry → Bool) → List Entry → Found
rposition is [] = none
rposition is (e ∷ es) = found_here is e es (rposition is es)

-- The last entry first, and the others as they were: what takes the place of the one that `swap_remove` takes.
unfoldable pub last_first : List Entry → List Entry
last_first [] = []
last_first (e ∷ []) = e ∷ []
last_first (e ∷ f ∷ es) = elim (last_first (f ∷ es)) [ [] ↦ e ∷ [] | ◌∷◌ g gs ↦ g ∷ e ∷ gs ]

-- The known members in the order of the words, each taken out of what is left.
unfoldable pub in_words : (Text → Text → Bool) → List Text → List Entry → List Entry
unfolding rposition last_first
in_words is [] known = []
in_words is (w ∷ ws) known =
    let rest = in_words is ws known in
    elim (rposition (λ e. is e.0 w) known) [
      | none ↦ rest
      | some (front, found, behind) ↦ found ∷ in_words is ws (front ++ last_first behind)
    ]

abbrev pub any_word : (Text → Text → Bool) → List Text → Entry → Bool
any_word is [] e = false
any_word is (w ∷ ws) e = is e.0 w || any_word is ws e

unfoldable pub sift : (Entry → Bool) → List Entry → List Entry
sift is [] = []
sift is (e ∷ es) = let rest = sift is es in if is e then e ∷ rest else rest

unfoldable pub in_schema_order : (Text → Text → Bool) → List Text → List Entry → List Entry
unfolding in_words sift
in_schema_order is words es =
    in_words is words (sift (any_word is words) es) ++ sift (λ e. not (any_word is words e)) es

unfoldable pub words_of : List String → List Text
words_of [] = []
words_of (w ∷ ws) = word w ∷ words_of ws

abbrev pub schema_words : Bool → List Text
schema_words with_type = words_of payload_keys ++ (if with_type then word "type" ∷ [] else [])

unfoldable pub payload_of : Value → Bool → Value
payload_of json with_type = elim (remove (word "__proto__") json) [
  | null ↦ null
  | bool b ↦ bool b
  | number n ↦ number n
  | string s ↦ string s
  | halves us ↦ halves us
  | array vs ↦ array vs
  | object ms ↦
      object (members_of (in_schema_order text_eq (schema_words with_type) (entries_of ms)))
  | keyed ms ↦ keyed (members_of (in_schema_order is_key (schema_words with_type) (entries_of ms)))
]

-- The bytes up to each newline, and those behind the last one: `split_inclusive`.
unfoldable pub split_lines : Bytes → List Bytes × Bytes
split_lines [] = ([], [])
split_lines (c ∷ s) =
    let rest = split_lines s in
    if c == b'\n'
    then ([] ∷ rest.0, rest.1)
    else elim (rest.0) [ [] ↦ ([], c ∷ rest.1) | ◌∷◌ l ls ↦ ((c ∷ l) ∷ ls, rest.1) ]

abbrev pub says : Option Text → String → Bool
says none s = false
says (some t) s = text_eq t (word s)

abbrev pub is_there : Option Value → Bool
is_there none = false
is_there (some v) = true

abbrev pub if_truthy : Option Value → Option Value
if_truthy none = none
if_truthy (some v) = if truthy v then some v else none

abbrev is_true : Option Value → Bool
is_true (some (bool b)) = b
is_true _ = false

abbrev pub is_object : Option Value → Bool
is_object none = true
is_object (some (object ms)) = true
is_object (some (keyed ms)) = true
is_object (some _) = false

abbrev pub is_named : Option Value → Bool
is_named none = false
is_named (some v) = is_string v

abbrev value_or : Value → Option Value → Value
value_or other none = other
value_or other (some v) = v

abbrev of_value : {A : Type 0} → A → (Value → A) → Option Value → A
of_value absent present none = absent
of_value absent present (some v) = present v

-- The blocks of a message, if its content is a list.
abbrev blocks_in : Option Value → Option Items
blocks_in (some (array vs)) = some vs
blocks_in _ = none

unfoldable pub message_content : Value → Option Items
message_content json = blocks_in (of_value none (get (word "content")) (get (word "message") json))

abbrev pub hear : Bool → Text → Heard → Heard
hear listening line h = if listening then record h { lines = h.lines ++ (line ∷ []) } else h

-- The bytes behind the last newline wait for more.
abbrev pub hold : Bytes → Reader → Reader
hold rest r = record r { pending = r.pending ++ rest }

module _ (std : Printing) (parse_f64 : Text → Option F64) where
  -- `stringify` of a value always ends.
  unfoldable pub printed : Value → Text
  printed v = elim (stringify std v false) [ none ↦ [] | some text ↦ text ]

  unfoldable pub event : String → Members → Text
  event kind members = printed (object (member (word "kind") (string (word kind)) members))

  abbrev result_line : Value → Text
  result_line payload =
      word "{\"kind\":\"result\",\"isError\":"
      ++ (word (if is_true (get (word "is_error") payload) then "true" else "false")
          ++ (word ",\"payload\":" ++ (printed payload ++ word "}")))

  unfoldable pub result : Bool → Value → Heard → Heard
  result listening payload h =
      record (hear listening (result_line payload) (record h { saw_result = true })) {
        payload = some payload;
      }

  abbrev tool_line : Value → Text
  tool_line block =
      let input = value_or (object no_members) (get (word "input") block) in
      event "tool_use" (
        member (word "name") (value_or null (get (word "name") block))
          (member (word "input") (remove (word "__proto__") input) no_members))

  unfoldable pub tool_use : Bool → Value → Heard → Heard
  tool_use listening block h =
      if is_object (get (word "input") block) && is_named (get (word "name") block)
      then hear listening (tool_line block) (record h { tool_uses = h.tool_uses + 1 })
      else h

  abbrev pub add_text : Bool → Units → Heard → Heard
  add_text listening us h =
      if is_empty us
      then h
      else hear listening (event "text" (member (word "text") (from_units us) no_members))
          (record h { text = h.text ++ us })

  abbrev pub text_in : Option Value → Option Units
  text_in none = none
  text_in (some v) = units_of v

  unfoldable pub text_block : Bool → Value → Heard → Heard
  text_block listening block h = elim (text_in (get (word "text") block)) [
    | none ↦ h
    | some us ↦ add_text listening us h
  ]

  abbrev pub type_of : Value → Option Text
  type_of json = elim (get (word "type") json) [ none ↦ none | some v ↦ as_str v ]

  unfoldable pub block : Bool → Value → Heard → Heard
  block listening value h =
      if says (type_of value) "tool_use"
      then tool_use listening value h
      else if says (type_of value) "text"
      then text_block listening value h
      else h

  unfoldable pub blocks : Bool → Items → Heard → Heard
  blocks listening no_items h = h
  blocks listening (item v vs) h = blocks listening vs (block listening v h)

  abbrev pub note_session : Value → Heard → Heard
  note_session json h = elim (if_truthy (get (word "session_id") json)) [
    | none ↦ h
    | some id ↦ record h { session_id = some id }
  ]

  abbrev pub has_envelope : Value → Bool
  has_envelope json =
      string_or_absent (get (word "type") json) && string_or_absent (get (word "session_id") json)

  abbrev pub is_typed : Value → Bool
  is_typed json = has_envelope json && is_there (if_truthy (get (word "type") json))

  -- What is neither a result with its type nor the blocks of a message.
  unfoldable pub untyped : Bool → Value → Heard → Heard
  untyped listening json h =
      if not (is_typed json) && fits_payload json && is_there (get (word "is_error") json)
      then result listening (payload_of json false) h
      else if is_typed json
      then hear listening
          (event "other" (member (word "type") (value_or null (get (word "type") json)) no_members))
          h
      else h

  abbrev pub message_blocks : Value → Option Items
  message_blocks json = if says (type_of json) "assistant" then message_content json else none

  unfoldable pub object_line : Bool → Value → Heard → Heard
  object_line listening json before =
      let h = if has_envelope json then note_session json before else before in
      if says (type_of json) "result" && fits_payload json
      then result listening (payload_of json true) h
      else elim (message_blocks json) [
        | some vs ↦ blocks listening vs h
        | none ↦ untyped listening json h
      ]

  unfoldable pub line : Bool → Bytes → Heard → Heard
  line listening raw h =
      let text = trim (from_utf8_lossy raw) in
      if starts_with (b'{' ∷ []) text
      then elim (parse_whole parse_f64 text) [ none ↦ h | some json ↦ object_line listening json h ]
      else h

  -- A line that has ended, behind the bytes that were there.
  unfoldable pub end_line : Bytes → Reader → Reader
  end_line raw r =
      if is_empty r.pending
      then record r { heard = line r.listening raw r.heard }
      else record r { heard = line r.listening (r.pending ++ raw) r.heard; pending = [] }

  unfoldable pub end_lines : List Bytes → Reader → Reader
  end_lines [] r = r
  end_lines (l ∷ ls) r = end_lines ls (end_line l r)

  unfoldable pub push : Bytes → Reader → Reader
  push chunk r = let split = split_lines chunk in hold split.1 (end_lines split.0 r)

  -- `end`
  unfoldable pub finish : Reader → Reader
  finish r =
      if is_empty r.pending
      then record r { pending = [] }
      else record r { heard = line r.listening r.pending r.heard; pending = [] }

  unfoldable pub pushes : List Bytes → Reader → Reader
  pushes [] r = r
  pushes (c ∷ cs) r = pushes cs (push c r)
