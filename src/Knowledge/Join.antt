-- ===== src/Knowledge/Join.antt =====
-- crates/tagents-core/src/knowledge/join.rs: the relay between a session and the shared server. Its two
-- threads act on `Sent` under a lock, so what they do in one connection is a sequence of steps.
use tagents.Prelude.{
  ℕ, zero, suc, ◌+◌, ◌*◌, Bool, true, false, ◌&&◌, ◌||◌, not, Option, none, some, List, [], ◌∷◌,
  ◌++◌, ltb, length, if◌then◌else◌,
}
use tagents.Utf8.{Bytes}
pub mod Replay

-- `REPLAY_CAP`
abbrev pub replay_cap : ℕ
replay_cap = 64 * 1024

pub data Kept : Type 0 where
  all too_much has_replied : Kept

abbrev pub is_all : Kept → Bool
is_all all = true
is_all too_much = false
is_all has_replied = false

pub record Sent : Type 0 where
  pub bytes : Bytes
  pub kept : Kept
  pub ended : Bool

-- `Sent::default`
abbrev pub nothing_sent : Sent
nothing_sent = record { bytes = []; kept = all; ended = false }

-- `Sent::record`
unfoldable pub record_chunk : Bytes → Sent → Sent
record_chunk chunk s =
    if not (is_all s.kept)
    then s
    else if ltb replay_cap (length s.bytes + length chunk)
    then record s { kept = too_much; bytes = [] }
    else record s { bytes = s.bytes ++ chunk }

-- `Sent::replied`
unfoldable pub replied : Sent → Sent
replied s = record s { kept = has_replied; bytes = [] }

abbrev pub is_nil : Bytes → Bool
is_nil [] = true
is_nil (_ ∷ _) = false

-- `Sent::retryable`
unfoldable pub retryable : Sent → Bool
retryable s = is_all s.kept && (not (is_nil s.bytes) || not s.ended)

-- What the threads of a connection do to `Sent`: `forward` has read a chunk or the end of the input, and
-- `copy_replies` has read a reply.
pub data Step : Type 0 where
  copied : Bytes → Step
  input_ended replies : Step

unfoldable pub take_step : Step → Sent → Sent
unfolding record_chunk replied
take_step (copied chunk) s = record_chunk chunk s
take_step input_ended s = record s { ended = true }
take_step replies s = replied s

unfoldable pub take_steps : List Step → Sent → Sent
unfolding take_step
take_steps [] s = s
take_steps (step ∷ steps) s = take_steps steps (take_step step s)

-- How one connection ended.
pub data Ended : Type 0 where
  closed output_gone : Ended

-- A connection: what is done on it and how it ends.
pub record Link : Type 0 where
  pub steps : List Step
  pub ended : Ended

-- How a session ends: served by this process from the bytes on, with an exit code of nought or one, or
-- with its connections still open.
pub data Session : Type 0 where
  served_here : Bytes → Session
  exited : (failed : Bool) → Session
  open_still : Session

-- What the loop does when a connection has ended: leave, or connect once more.
unfoldable pub after_link : Bool → Sent → Ended → Option Session
unfolding retryable
after_link retried s output_gone = some (exited false)
after_link retried s closed =
    if not retried && retryable s
    then none
    else if s.ended
    then some (exited false)
    else some (exited true)

-- What each connection gets first, the bytes that are sent again, and how the session ends.
pub record Relayed : Type 0 where
  pub replays : List Bytes
  pub session : Session

-- `relay`, from the connections that `connect` gives, none where it fails.
unfoldable pub relay : List (Option Link) → Bool → Sent → Relayed
unfolding take_steps after_link
relay [] retried s = record { replays = []; session = open_still }
relay (none ∷ links) retried s = record { replays = []; session = served_here s.bytes }
relay (some link ∷ links) retried s =
    let t = take_steps link.steps s in
    let again = relay links true t in
    elim (after_link retried t link.ended) [
      | some session ↦ record { replays = s.bytes ∷ []; session = session }
      | none ↦ record { replays = s.bytes ∷ again.replays; session = again.session }
    ]
