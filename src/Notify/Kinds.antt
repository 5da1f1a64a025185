-- ===== src/Notify/Kinds.antt =====
-- crates/tagents-core/src/notify/kinds.rs: what an agent event means to a person.
pub mod Sound
use tagents.Prelude.{
  ◌≡◌, Bool, true, false, ◌&&◌, ◌||◌, not, Option, none, some, List, [], ◌∷◌, if◌then◌else◌, arith,
}
use tagents.Text.{Text, word, text_eq, is_empty, trim, starts_with, contains, to_ascii_lowercase}
use tagents.Dict.{member}
use tagents.Notify.Event.{AgentHookEvent, AgentEvent}

pub data NoticeKind : Type 0 where
  question permission turn_done cache_expiring session_end : NoticeKind

unfoldable pub as_str : NoticeKind → Text
as_str question = word "question"
as_str permission = word "permission"
as_str turn_done = word "turn_done"
as_str cache_expiring = word "cache_expiring"
as_str session_end = word "session_end"

-- `kind == other`
unfoldable pub kind_eq : NoticeKind → NoticeKind → Bool
kind_eq question question = true
kind_eq permission permission = true
kind_eq turn_done turn_done = true
kind_eq cache_expiring cache_expiring = true
kind_eq session_end session_end = true
kind_eq _ _ = false

pub record Verdict : Type 0 where
  pub kind : Option NoticeKind
  pub plan : Bool
  pub arms : Bool
  pub withdraw : Bool
  pub cancel : Bool

-- `Verdict::NOTHING`
abbrev pub nothing : Verdict
nothing = record { kind = none; plan = false; arms = false; withdraw = false; cancel = false }

-- `Verdict::GONE`
abbrev pub gone : Verdict
gone = record nothing { withdraw = true; cancel = true }

abbrev pub asks : NoticeKind → Verdict
asks kind = record nothing { kind = some kind }

abbrev pub arming : NoticeKind → Verdict
arming kind = record (asks kind) { arms = true }

-- `QUESTION_TOOLS`
abbrev pub question_tools : List Text
question_tools = word "AskUserQuestion" ∷ word "ExitPlanMode" ∷ []

unfoldable pub is_question_tool : Text → Bool
is_question_tool tool = member tool question_tools

unfoldable pub counts_session : Text → Bool
counts_session key = not (starts_with (word "s-") key)

unfoldable pub is_waiting : Text → Bool
is_waiting text = contains (word "waiting for your input") (to_ascii_lowercase text)

unfoldable pub from_notification : AgentEvent → Option Verdict
from_notification e =
    if text_eq e.sub (word "elicitation_dialog")
    then some (arming question)
    else if text_eq e.sub (word "permission_prompt")
    then some (arming permission)
    else if text_eq e.sub (word "idle_prompt") || text_eq e.sub (word "auth_success")
    then none
    else if is_waiting e.text
    then none
    else if is_empty (trim e.text)
    then none
    else some (arming permission)

-- The `match e.event` of `classify`.
unfoldable pub classify_event : AgentHookEvent → AgentEvent → Option Verdict
unfolding from_notification
classify_event AgentHookEvent.pre_tool_use e =
    if is_question_tool e.tool
    then some (record (arming question) { plan = text_eq e.tool (word "ExitPlanMode") })
    else none
classify_event AgentHookEvent.post_tool_use e = if is_question_tool e.tool then some gone else none
classify_event AgentHookEvent.notification e = from_notification e
classify_event AgentHookEvent.stop e = if is_empty e.agent_id then some (arming turn_done) else none
classify_event AgentHookEvent.subagent_stop e = none
classify_event AgentHookEvent.session_end e =
    some (record (asks session_end) { withdraw = true; cancel = true })
classify_event AgentHookEvent.user_prompt_submit e = some gone
classify_event AgentHookEvent.session_start e = some gone

unfoldable pub classify : AgentEvent → Option Verdict
unfolding classify_event
classify e = if counts_session e.key then classify_event e.event e else none
