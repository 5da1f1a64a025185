-- ===== src/Session/Outcome.antt =====
-- crates/tagents-core/src/session/outcome.rs: what a turn ended as, its document, its line and its exit code.
use tagents.Prelude.{
  ℕ, ◌+◌, ◌≡◌, ◌≢◌, ◌↔◌, refl, Bool, true, false, Option, none, some, List, [], ◌∷◌, ◌++◌, ltb, ◌^◌,
  ◌&&◌, if◌then◌else◌, String,
}
use tagents.Int.{ℤ, pos, negsuc}
use tagents.Text.{Text, word, is_space, number_text}
use tagents.Text.{take}
use tagents.Utf16.{Units, text16}
use tagents.Json.{
  F64, Value, null, bool, number, string, halves, array, object, keyed, Members, no_members, member,
  from_units,
}
use tagents.Json.Writer.{Printing, stringify}
pub mod Plain

abbrev detail_max : ℕ
detail_max = 300

-- `js::is_space16`: a half is no white space.
abbrev is_space16 : ℕ → Bool
is_space16 = is_space

unfoldable pub collapse : Bool → Units → Units
unfolding is_space
collapse in_run [] = []
collapse in_run (u ∷ us) =
    let rest = collapse (is_space16 u) us in
    if is_space16 u then (if in_run then rest else 0x20 ∷ rest) else u ∷ rest

unfoldable pub clip_detail : Units → Units
unfolding collapse take
clip_detail text = take detail_max (collapse false text)

pub record Done : Type 0 where
  pub text : Units
  pub session_id : Option Value
  pub tool_uses : ℕ
  pub cost_usd : Option F64
  pub num_turns : Option F64
  pub duration_ms : F64

pub record Evidence : Type 0 where
  pub session_id : Option Value
  pub tool_uses : ℕ
  pub detail : Units
  pub saw_text : Bool
  pub saw_result : Bool

pub data Outcome : Type 0 where
  ended_ok : Done → Outcome
  killed_after_result : Done → Option ℤ → Outcome
  timeout : Evidence → F64 → Outcome
  exited : Evidence → Option ℤ → Option Text → Outcome
  spawn_failed : Text → Outcome

abbrev pub number_or_null : Option F64 → Value
number_or_null none = null
number_or_null (some n) = number n

abbrev pub or_null : Option Value → Value
or_null none = null
or_null (some v) = v

abbrev pub string_or_null : Option Text → Value
string_or_null none = null
string_or_null (some s) = string s

abbrev pub named : String → Value → Members → Members
named key v ms = member (word key) v ms

-- `i32::to_string`
abbrev int_text : ℤ → Text
int_text (pos n) = number_text n
int_text (negsuc n) = b'-' ∷ number_text (n + 1)

-- `process::ExitCode` of sessions.rs
abbrev pub exit_ok : ℕ
exit_ok = 0

abbrev pub exit_error : ℕ
exit_error = 1

abbrev pub exit_timeout : ℕ
exit_timeout = 4

unfoldable pub exit_code : Outcome → ℕ
exit_code (ended_ok done) = exit_ok
exit_code (killed_after_result done code) = exit_ok
exit_code (timeout evidence limit) = exit_timeout
exit_code (exited evidence code signal) = exit_error
exit_code (spawn_failed detail) = exit_error

-- With Rust's `f64::from` of an `i32`, and `as f64` of a `u64`.
module _ (from_i32 : ℤ → F64) (from_u64 : ℕ → F64) where
  abbrev pub code_value : Option ℤ → Value
  code_value none = null
  code_value (some code) = number (from_i32 code)

  abbrev pub count : ℕ → Value
  count n = number (from_u64 n)

  unfoldable pub done_members : String → Done → Members → Members
  done_members kind done rest = named "kind" (string (word kind)) (
      named "text" (from_units done.text) (
        named "sessionId" (or_null done.session_id) (
          named "toolUses" (count done.tool_uses) (
            named "costUsd" (number_or_null done.cost_usd) (
              named "numTurns" (number_or_null done.num_turns)
                (named "durationMs" (number done.duration_ms) rest))))))

  abbrev pub seen_members : Evidence → Members
  seen_members evidence = named "detail" (from_units evidence.detail) (
      named "sawText" (bool evidence.saw_text)
        (named "sawResult" (bool evidence.saw_result) no_members))

  unfoldable pub to_value : Outcome → Value
  unfolding done_members
  to_value (ended_ok done) = object (done_members "ok" done no_members)
  to_value (killed_after_result done code) =
      object (done_members "killed-after-result" done (named "code" (code_value code) no_members))
  to_value (timeout evidence limit) = object (
      named "kind" (string (word "timeout")) (
        named "sessionId" (or_null evidence.session_id) (
          named "toolUses" (count evidence.tool_uses)
            (named "limitMs" (number limit) (seen_members evidence)))))
  to_value (exited evidence code signal) = object (
      named "kind" (string (word "exited")) (
        named "sessionId" (or_null evidence.session_id) (
          named "toolUses" (count evidence.tool_uses) (
            named "code" (code_value code)
              (named "signal" (string_or_null signal) (seen_members evidence))))))
  to_value (spawn_failed detail) =
      object
        (named "kind" (string (word "spawn-failed")) (named "detail" (string detail) no_members))

  unfoldable pub document : Printing → Outcome → Bool → Option Text
  unfolding to_value
  document std outcome events =
      elim (stringify std (to_value outcome) (if events then false else true)) [
        | none ↦ none
        | some text ↦ some (text ++ (b'\n' ∷ []))
      ]

-- How a process left.
abbrev how : Option ℤ → Option Text → Text
how (some code) signal = int_text code
how none (some signal) = signal
how none none = word "null"

-- `formatAttemptError`, with the text of a number.
unfoldable pub error_line : (F64 → Text) → Outcome → Option Text
error_line float_text (ended_ok done) = none
error_line float_text (killed_after_result done code) = none
error_line float_text (spawn_failed detail) = some (word "exit=null spawn: " ++ detail)
error_line float_text (timeout evidence limit) = some (
    word "exit=SIGKILL (timeout "
    ++ (float_text limit
        ++ (word "ms, "
            ++ (number_text evidence.tool_uses
                ++ (word " tool call(s)) " ++ text16 evidence.detail)))))
error_line float_text (exited evidence code signal) =
    some (word "exit=" ++ (how code signal ++ (b' ' ∷ text16 evidence.detail)))
