-- ===== src/Notify/Event.antt =====
-- crates/tagents-core/src/notify/events.rs, its first part: the hook events and the lines of
-- `events.tsv`. The follower of that file is in Follower.
pub mod RoundTrip
use tagents.Prelude.{
  ℕ, ◌*◌, ◌≡◌, Bool, ◌==◌, Option, none, some, List, [], ◌∷◌, ◌++◌, if◌then◌else◌, refl,
}
use tagents.Text.{Text, word, text_eq, trim, is_empty, split, strip_last}

-- The separator of the fields of a line.
abbrev pub tab : ℕ
tab = 0x9

pub data AgentHookEvent : Type 0 where
  session_start user_prompt_submit pre_tool_use post_tool_use notification stop : AgentHookEvent
  subagent_stop session_end : AgentHookEvent

-- A time is a whole number of milliseconds since 1970 (seconds, in a field of a line).
pub record AgentEvent : Type 0 where
  pub at : ℕ
  pub event : AgentHookEvent
  pub key : Text
  pub session_id : Text
  pub agent_id : Text
  pub pane : Text
  pub cwd : Text
  pub transcript : Text
  pub config_dir : Text
  pub tool : Text
  pub sub : Text
  pub text : Text
  pub label : Text

-- `AgentHookEvent::as_str`
unfoldable pub as_str : AgentHookEvent → Text
as_str session_start = word "SessionStart"
as_str user_prompt_submit = word "UserPromptSubmit"
as_str pre_tool_use = word "PreToolUse"
as_str post_tool_use = word "PostToolUse"
as_str notification = word "Notification"
as_str stop = word "Stop"
as_str subagent_stop = word "SubagentStop"
as_str session_end = word "SessionEnd"

-- `AgentHookEvent::parse`
unfoldable pub parse : Text → Option AgentHookEvent
parse name =
    if text_eq name (word "SessionStart")
    then some session_start
    else if text_eq name (word "UserPromptSubmit")
    then some user_prompt_submit
    else if text_eq name (word "PreToolUse")
    then some pre_tool_use
    else if text_eq name (word "PostToolUse")
    then some post_tool_use
    else if text_eq name (word "Notification")
    then some notification
    else if text_eq name (word "Stop")
    then some stop
    else if text_eq name (word "SubagentStop")
    then some subagent_stop
    else if text_eq name (word "SessionEnd")
    then some session_end
    else none

-- `line.strip_suffix('\\r').unwrap_or(line)`
abbrev strip_cr : Text → Text
strip_cr line = strip_last 0xd line

-- The thirteen fields that a line must have; what a newer hook writes behind them is ignored.
event_of_fields : (Text → Option ℕ) → List Text → Option AgentEvent
event_of_fields number
      (raw_at ∷ event ∷ key ∷ session_id ∷ agent_id ∷ pane ∷ cwd ∷ transcript ∷ config_dir ∷ tool
        ∷ sub ∷ text ∷ label ∷ _) =
    elim (number raw_at) [
      | none ↦ none
      | some at ↦ if is_empty (trim raw_at) then none else elim (parse event) [
        | none ↦ none
        | some hook ↦ some (record {
          at = at * 1000;
          event = hook;
          key = key;
          session_id = session_id;
          agent_id = agent_id;
          pane = pane;
          cwd = cwd;
          transcript = transcript;
          config_dir = config_dir;
          tool = tool;
          sub = sub;
          text = text;
          label = label;
        })
      ]
    ]
event_of_fields number _ = none

-- `number` is `js::number` on the texts that it reads as a whole number of seconds; `none` stands for
-- a time that is not a finite number.
unfoldable pub parse_event_line : (Text → Option ℕ) → Text → Option AgentEvent
unfolding strip_last event_of_fields
parse_event_line number line = event_of_fields number (split tab (strip_cr line))
