-- ===== src/Session/Stream/Quiet.antt =====
-- crates/tagents-core/src/session/stream.rs: the proofs on a reader with and without a listener.
use tagents.Prelude.{
  ◌≡◌, refl, sym, ap, ◌∙◌, Bool, true, false, not, ◌&&◌, Option, none, some, List, [], ◌∷◌,
  if◌then◌else◌, Bool-cases, inl, inr,
}
use tagents.Text.{Text, word, starts_with, trim}
use tagents.Utf8.{Bytes, from_utf8_lossy}
use tagents.Utf16.{Units}
use tagents.Json.{F64, Value, Items, no_items, item, get}
use tagents.Json.Writer.{Printing}
use tagents.Json.Reader.{parse_whole}
use tagents.Session.Stream.{
  Heard, unheard, reader_of, says, is_there, is_object, is_named, fits_payload, payload_of, result,
  tool_use, add_text, text_in, text_block, type_of, block, blocks, note_session, has_envelope,
  is_typed, untyped, message_blocks, object_line, line, if_truthy, pushes, finish,
}
use tagents.Session.Stream.Cut.{hear_lines, lines_of, concat, finish-pushes}

-- What is read, without the lines for the listener.
abbrev pub quiet : Heard → Heard
quiet h = record h { lines = [] }

module _ (std : Printing) (parse_f64 : Text → Option F64) where
  abbrev IsQuiet : (Bool → Heard → Heard) → Type 0
  IsQuiet f = (h : Heard) → quiet (f true h) ≡ f false (quiet h)

  result-IsQuiet : (payload : Value) → IsQuiet (λ l h. result std parse_f64 l payload h)
  unfolding result
  result-IsQuiet payload h = refl

  tool_use-IsQuiet : (v : Value) → IsQuiet (λ l h. tool_use std parse_f64 l v h)
  unfolding tool_use
  tool_use-IsQuiet v h =
      elim (Bool-cases (is_object (get (word "input") v) && is_named (get (word "name") v))) [
        | inl fits ↦ rw fits refl
        | inr other ↦ rw other refl
      ]

  text_block-IsQuiet : (v : Value) → IsQuiet (λ l h. text_block std parse_f64 l v h)
  unfolding text_block
  text_block-IsQuiet v h = cases (text_in std parse_f64 (get (word "text") v)) h
    where
      cases :
          (o : Option Units)
          → IsQuiet (λ l h. elim o [ none ↦ h | some us ↦ add_text std parse_f64 l us h ])
      cases none h = refl
      cases (some []) h = refl
      cases (some (u ∷ us)) h = refl

  block-IsQuiet : (v : Value) → IsQuiet (λ l h. block std parse_f64 l v h)
  unfolding block
  block-IsQuiet v h = elim (Bool-cases (says (type_of std parse_f64 v) "tool_use")) [
    | inl tool ↦ rw tool (tool_use-IsQuiet v h)
    | inr no_tool ↦ rw no_tool (elim (Bool-cases (says (type_of std parse_f64 v) "text")) [
      | inl text ↦ rw text (text_block-IsQuiet v h)
      | inr other ↦ rw other refl
    ])
  ]

  blocks-IsQuiet : (vs : Items) → IsQuiet (λ l h. blocks std parse_f64 l vs h)
  unfolding blocks
  blocks-IsQuiet no_items h = refl
  blocks-IsQuiet (item v vs) h =
      blocks-IsQuiet vs (block std parse_f64 true v h)
      ∙ ap (blocks std parse_f64 false vs) (block-IsQuiet v h)

  untyped-IsQuiet : (v : Value) → IsQuiet (λ l h. untyped std parse_f64 l v h)
  unfolding untyped
  untyped-IsQuiet v h =
      elim (Bool-cases
        (not (is_typed std parse_f64 v) && fits_payload v && is_there (get (word "is_error") v))) [
          | inl ends ↦ rw ends (result-IsQuiet (payload_of v false) h)
          | inr goes_on ↦ rw goes_on (elim (Bool-cases (is_typed std parse_f64 v)) [
            | inl typed ↦ rw typed refl
            | inr other ↦ rw other refl
          ])
        ]

  -- The line with what the session's id has made of the state.
  abbrev noted : Value → Heard → Heard
  noted v h = if has_envelope std parse_f64 v then note_session std parse_f64 v h else h

  noted-quiet : (v : Value) (h : Heard) → quiet (noted v h) ≡ noted v (quiet h)
  noted-quiet v h = elim (Bool-cases (has_envelope std parse_f64 v)) [
    | inl envelope ↦ rw envelope (cases (if_truthy (get (word "session_id") v)))
    | inr other ↦ rw other refl
  ]
    where
      cases :
          (o : Option Value)
          → quiet (elim o [ none ↦ h | some id ↦ record h { session_id = some id } ])
            ≡ elim o [ none ↦ quiet h | some id ↦ record (quiet h) { session_id = some id } ]
      cases none = refl
      cases (some id) = refl

  abbrev behind : Value → Bool → Heard → Heard
  behind v l h =
      if says (type_of std parse_f64 v) "result" && fits_payload v
      then result std parse_f64 l (payload_of v true) h
      else elim (message_blocks std parse_f64 v) [
        | some vs ↦ blocks std parse_f64 l vs h
        | none ↦ untyped std parse_f64 l v h
      ]

  behind-IsQuiet : (v : Value) → IsQuiet (behind v)
  behind-IsQuiet v h =
      elim (Bool-cases (says (type_of std parse_f64 v) "result" && fits_payload v)) [
        | inl ends ↦ rw ends (result-IsQuiet (payload_of v true) h)
        | inr goes_on ↦ rw goes_on (cases (message_blocks std parse_f64 v))
      ]
    where
      cases :
          (o : Option Items)
          → quiet (elim o [
            | some vs ↦ blocks std parse_f64 true vs h
            | none ↦ untyped std parse_f64 true v h
          ])
            ≡ elim o [
              | some vs ↦ blocks std parse_f64 false vs (quiet h)
              | none ↦ untyped std parse_f64 false v (quiet h)
            ]
      cases none = untyped-IsQuiet v h
      cases (some vs) = blocks-IsQuiet vs h

  object_line-IsQuiet : (v : Value) → IsQuiet (λ l h. object_line std parse_f64 l v h)
  unfolding object_line
  object_line-IsQuiet v h = behind-IsQuiet v (noted v h) ∙ ap (behind v false) (noted-quiet v h)

  line-IsQuiet : (raw : Bytes) → IsQuiet (λ l h. line std parse_f64 l raw h)
  unfolding line
  line-IsQuiet raw h = elim (Bool-cases (starts_with (b'{' ∷ []) (trim (from_utf8_lossy raw)))) [
    | inl opens ↦ rw opens (cases (parse_whole parse_f64 (trim (from_utf8_lossy raw))))
    | inr other ↦ rw other refl
  ]
    where
      cases :
          (o : Option Value)
          → quiet (elim o [ none ↦ h | some v ↦ object_line std parse_f64 true v h ])
            ≡ elim o [ none ↦ quiet h | some v ↦ object_line std parse_f64 false v (quiet h) ]
      cases none = refl
      cases (some v) = object_line-IsQuiet v h

  hear_lines-IsQuiet : (ls : List Bytes) → IsQuiet (λ l h. hear_lines std parse_f64 l ls h)
  hear_lines-IsQuiet [] h = refl
  hear_lines-IsQuiet (l ∷ ls) h =
      hear_lines-IsQuiet ls (line std parse_f64 true l h)
      ∙ ap (hear_lines std parse_f64 false ls) (line-IsQuiet l h)

-- A reader that nobody listens to reads what one with a listener does, and calls nobody.
pub quiet-finish :
    (std : Printing) (parse_f64 : Text → Option F64) (chunks : List Bytes)
    → quiet (finish std parse_f64 (pushes std parse_f64 chunks (reader_of true))).heard
      ≡ (finish std parse_f64 (pushes std parse_f64 chunks (reader_of false))).heard
quiet-finish std parse_f64 chunks =
    ap quiet (finish-pushes std parse_f64 true chunks)
    ∙ hear_lines-IsQuiet std parse_f64 (lines_of (concat chunks)) unheard
    ∙ sym (finish-pushes std parse_f64 false chunks)
