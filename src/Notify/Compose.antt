-- ===== src/Notify/Compose.antt =====
-- crates/tagents-core/src/notify/compose.rs: what a notice says.
use tagents.Prelude.{
  ℕ, ◌-◌, ◌++◌, Bool, false, ◌&&◌, ◌||◌, not, Option, none, some, List, [], ◌∷◌, ltb, leb, ◌==◌,
  if◌then◌else◌, length,
}
use tagents.Text.{
  Text, word, text_eq, is_empty, is_ascii_digit, trim, trim_start, split, basename, before, take,
}
use tagents.Dict.{Dict, get}
use tagents.Notify.Event.{AgentEvent}
use tagents.Notify.Kinds.{NoticeKind, question, permission, turn_done, cache_expiring, session_end}
use tagents.Notify.Phrases.{Phrases, Minutes, cache_body}

-- `BODY_CLIP`
abbrev pub body_clip : ℕ
body_clip = 200

abbrev is_alphanumeric : ℕ → Bool
is_alphanumeric c = is_ascii_digit c || (leb b'A' c && leb c b'Z') || (leb b'a' c && leb c b'z')

-- Whether a first word of one character is the status glyph.
unfoldable pub is_glyph : ℕ → Bool
is_glyph c =
    if ltb c 0x80
    then not (is_alphanumeric c)
    else (leb 0x2000 c && leb c 0x2bff) || (leb 0x1f000 c && leb c 0x1ffff)

-- The text from the second character on is cut only behind a first word of one character.
unfoldable pub untitle : Text → Text
unfolding is_glyph
untitle (c ∷ d ∷ s) =
    if not (c == b' ') && d == b' ' && is_glyph c
    then trim_start (λ a. a == b' ') (d ∷ s)
    else c ∷ d ∷ s
untitle title = title

pub record NameInputs : Type 0 where
  pub session_id : Text
  pub pane : Text
  pub pane_title : Text
  pub label : Text
  pub cwd : Text
  pub hostname : Text
  pub labels : Dict Text

-- `(!key.is_empty()).then(|| labels.get(key)).flatten()`
abbrev label_of : Text → Dict Text → Option Text
label_of key labels = if is_empty key then none else get key labels

-- The typed name of the session, else of the pane, else the pane title.
unfoldable pub typed_name : NameInputs → Text
unfolding untitle
typed_name o = elim (label_of o.session_id o.labels) [
  | some name ↦ name
  | none ↦ elim (label_of o.pane o.labels) [ some name ↦ name | none ↦ untitle o.pane_title ]
]

unfoldable pub agent_name : NameInputs → Text
unfolding typed_name
agent_name o =
    let typed = typed_name o in
    let name = if is_empty typed then o.label else typed in
    if is_empty name || text_eq name o.hostname || text_eq name (before b'.' o.hostname)
    then basename o.cwd
    else name

unfoldable pub clip : Text → ℕ → Text
clip text max = if leb (length text) max then text else take (max - 1) text ++ word "…"

-- `.find(|line| !line.is_empty())` over the trimmed lines
unfoldable pub first_filled : List Text → Text
first_filled [] = []
first_filled (line ∷ lines) =
    let rest = first_filled lines in if is_empty (trim line) then rest else trim line

unfoldable pub first_line : Text → Text
unfolding first_filled
first_line text = first_filled (split 0xa text)

unfoldable pub subtitle_for : NoticeKind → Bool → Phrases → Text
subtitle_for question plan p = if plan then p.kind_plan else p.kind_question
subtitle_for permission plan p = p.kind_permission
subtitle_for turn_done plan p = p.kind_turn_done
subtitle_for cache_expiring plan p = p.kind_cache_expiring
subtitle_for session_end plan p = p.kind_session_end

pub record Extra : Type 0 where
  pub plan : Bool
  pub idle_min : Option Minutes
  pub left_min : Option Minutes

-- `Extra::default`
abbrev pub plain : Extra
plain = record { plan = false; idle_min = none; left_min = none }

abbrev or_zero : Option Minutes → Minutes
or_zero none = record { negative = false; size = 0 }
or_zero (some m) = m

abbrev text_or : Text → Text → Text
text_or text fallback = if is_empty text then fallback else text

-- Whether the body is made of the last answer of the transcript, which is then read.
unfoldable pub needs_answer : NoticeKind → AgentEvent → Bool
needs_answer turn_done e = is_empty e.text && not (is_empty e.transcript)
needs_answer _ e = false

-- `body_for`; `answer` is the last answer of the transcript where it is needed, else empty.
unfoldable pub body_for : NoticeKind → AgentEvent → Extra → Phrases → Text → Text
unfolding first_line clip
body_for question e extra p answer = text_or e.text p.question_body
body_for permission e extra p answer = text_or e.text p.permission_body
body_for turn_done e extra p answer =
    if not (is_empty e.text)
    then clip e.text body_clip
    else if is_empty (first_line answer)
    then p.turn_done_body
    else clip (first_line answer) body_clip
body_for cache_expiring e extra p answer =
    cache_body p (or_zero extra.idle_min) (or_zero extra.left_min)
body_for session_end e extra p answer = text_or e.sub p.session_end_body

pub record Composed : Type 0 where
  pub title : Text
  pub subtitle : Text
  pub body : Text

unfoldable pub compose : NoticeKind → AgentEvent → Text → Extra → Phrases → Text → Composed
unfolding subtitle_for body_for
compose kind e name extra p answer =
    let project = if is_empty e.cwd then [] else basename e.cwd in
    let phrase = subtitle_for kind extra.plan p in
    record {
      title = name;
      subtitle =
          if not (is_empty project) && not (text_eq project name)
          then phrase ++ (word " · " ++ project)
          else phrase;
      body = body_for kind e extra p answer;
    }
