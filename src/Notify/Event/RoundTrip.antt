-- ===== src/Notify/Event/RoundTrip.antt =====
-- crates/tagents-core/src/notify/events.rs: the proofs on the names of the hook events and on the lines.
use tagents.Prelude.{
  ℕ, ◌*◌, ◌≡◌, ◌↔◌, refl, sym, true, false, Option, some, List, [], ◌∷◌, ◌++◌, arith, ◌==◌, ap, ◌∙◌,
}
use tagents.Text.{strip_last, Text, word, all_chars, text_eq, text_eq_iff, trim, is_empty}
use tagents.Text.Split.{join, is_free, AllFree, split-join}
use tagents.Notify.Event.{
  AgentHookEvent, AgentEvent, as_str, parse, strip_cr, event_of_fields, parse_event_line, tab,
}

named-parse : (e : AgentHookEvent) → parse (as_str e) ≡ some e
unfolding parse as_str word text_eq
named-parse AgentHookEvent.session_start = refl
named-parse AgentHookEvent.user_prompt_submit = refl
named-parse AgentHookEvent.pre_tool_use = refl
named-parse AgentHookEvent.post_tool_use = refl
named-parse AgentHookEvent.notification = refl
named-parse AgentHookEvent.stop = refl
named-parse AgentHookEvent.subagent_stop = refl
named-parse AgentHookEvent.session_end = refl

parsed-name : (name : Text) (e : AgentHookEvent) → parse name ≡ some e → name ≡ as_str e
unfolding parse as_str
parsed-name name e h = ground (
  arith,
  text_eq_iff name (word "SessionStart"),
  text_eq_iff name (word "UserPromptSubmit"),
  text_eq_iff name (word "PreToolUse"),
  text_eq_iff name (word "PostToolUse"),
  text_eq_iff name (word "Notification"),
  text_eq_iff name (word "Stop"),
  text_eq_iff name (word "SubagentStop"),
  text_eq_iff name (word "SessionEnd"),
)

-- A name is read as an event exactly when it is the event's name.
pub parse-eq-some_iff :
    (name : Text) (e : AgentHookEvent) → (parse name ≡ some e) ↔ (name ≡ as_str e)
parse-eq-some_iff name e = (parsed-name name e, (λ h. ap parse h ∙ named-parse e))

-- The fields of the line of an event whose time is written as the text.
unfoldable pub fields_of : Text → AgentEvent → List Text
fields_of raw_at e =
    raw_at
    ∷ as_str e.event
    ∷ e.key
    ∷ e.session_id
    ∷ e.agent_id
    ∷ e.pane
    ∷ e.cwd
    ∷ e.transcript
    ∷ e.config_dir
    ∷ e.tool
    ∷ e.sub
    ∷ e.text
    ∷ e.label
    ∷ []

-- The texts of the event.
abbrev pub texts_of : AgentEvent → List Text
texts_of e =
    e.key ∷ e.session_id ∷ e.agent_id ∷ e.pane ∷ e.cwd ∷ e.transcript ∷ e.config_dir ∷ e.tool
    ∷ e.sub ∷ e.text ∷ e.label ∷ []

as_str-IsFree : (e : AgentHookEvent) → is_free tab (as_str e) ≡ true
unfolding as_str word all_chars
as_str-IsFree AgentHookEvent.session_start = refl
as_str-IsFree AgentHookEvent.user_prompt_submit = refl
as_str-IsFree AgentHookEvent.pre_tool_use = refl
as_str-IsFree AgentHookEvent.post_tool_use = refl
as_str-IsFree AgentHookEvent.notification = refl
as_str-IsFree AgentHookEvent.stop = refl
as_str-IsFree AgentHookEvent.subagent_stop = refl
as_str-IsFree AgentHookEvent.session_end = refl

strip_cr-append :
    (p : Text) (c : ℕ) (q : Text) → (c == 0xd) ≡ false → strip_cr (p ++ c ∷ q) ≡ p ++ c ∷ strip_cr q
unfolding strip_last
strip_cr-append [] c [] h = ground arith
strip_cr-append [] c (a ∷ q) h = refl
strip_cr-append (a ∷ []) c q h = ap (λ t. a ∷ t) (strip_cr-append [] c q h)
strip_cr-append (a ∷ b ∷ p) c q h = ap (λ t. a ∷ t) (strip_cr-append (b ∷ p) c q h)

-- A carriage return at the end is dropped.
strip_cr-snoc : (line : Text) → strip_cr (line ++ 0xd ∷ []) ≡ line
unfolding strip_last
strip_cr-snoc [] = refl
strip_cr-snoc (a ∷ []) = refl
strip_cr-snoc (a ∷ b ∷ line) = ap (λ t. a ∷ t) (strip_cr-snoc (b ∷ line))

-- The text ends in no carriage return.
pub IsClean : Text → Type 0
IsClean text = strip_cr text ≡ text

last_of : Text → List Text → Text
last_of p [] = p
last_of p (q ∷ ps) = last_of q ps

strip_cr-join : (p : Text) (ps : List Text) → IsClean (last_of p ps) → IsClean (join tab (p ∷ ps))
unfolding IsClean last_of join
strip_cr-join p [] clean = clean
strip_cr-join p (q ∷ ps) clean =
    rw (strip_cr-append p tab (join tab (q ∷ ps)) refl, strip_cr-join q ps clean) refl

joined-event :
    (number : Text → Option ℕ) (raw_at : Text) (seconds : ℕ) (e : AgentEvent) (line : Text)
    → number raw_at ≡ some seconds
    → e.at ≡ seconds * 1000
    → is_empty (trim raw_at) ≡ false
    → AllFree tab (raw_at ∷ texts_of e)
    → strip_cr line ≡ join tab (fields_of raw_at e)
    → parse_event_line number line ≡ some e
unfolding parse_event_line event_of_fields fields_of
joined-event number raw_at seconds e line reads at blank free same =
    let pieces =
      split-join tab raw_at (as_str e.event ∷ texts_of e)
        (free.0, (as_str-IsFree e.event, free.1)) in
    rw (same, pieces, reads, blank, named-parse e.event, sym at) refl

-- The line of an event, its fields with tabs between them, gives the event back when none of its texts
-- has a tab, its time stands on the line as a text that is not blank and reads as a whole number of
-- seconds, and its label ends in no carriage return; so it does, whatever the label ends in, with a
-- carriage return at the end of the line.
pub parse_event_line-join :
    (number : Text → Option ℕ) (raw_at : Text) (seconds : ℕ) (e : AgentEvent)
    → number raw_at ≡ some seconds
    → e.at ≡ seconds * 1000
    → is_empty (trim raw_at) ≡ false
    → AllFree tab (raw_at ∷ texts_of e)
    → (IsClean e.label → parse_event_line number (join tab (fields_of raw_at e)) ≡ some e)
      × (parse_event_line number (join tab (fields_of raw_at e) ++ 0xd ∷ []) ≡ some e)
unfolding fields_of last_of IsClean
parse_event_line-join number raw_at seconds e reads at blank free =
    let line = join tab (fields_of raw_at e) in
    (
      (λ clean.
          joined-event number raw_at seconds e line reads at blank free
            (strip_cr-join raw_at (as_str e.event ∷ texts_of e) clean)),
      joined-event number raw_at seconds e (line ++ 0xd ∷ []) reads at blank free
          (strip_cr-snoc line),
    )
