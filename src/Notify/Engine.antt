-- ===== src/Notify/Engine.antt =====
-- crates/tagents-core/src/notify/engine.rs: the state of the engine and what it is made of. Its
-- methods are in the modules below.
pub mod Post
pub mod Jobs
pub mod Follow
pub mod Calls
pub mod Fake
pub mod Stable
pub mod Running
pub mod Reach
pub mod Trace
pub mod Notices
pub mod Blind
pub mod Backoff
pub mod Due
pub mod Alive
pub mod Live
pub mod Drained
pub mod Stopped
pub mod Sleep
use tagents.Prelude.{ℕ, Bool, Option, List, ◌∷◌}
use tagents.Text.{Text}
use tagents.Dict.{Dict}
use tagents.Exec.{Exec, Result}
use tagents.Notify.Event.{AgentEvent}
use tagents.Notify.Deadlines.{Deadlines}
use tagents.Notify.Options.{Options}
use tagents.Notify.Rows.{AgentStateRow}
use tagents.Notify.Phrases.{Phrases}
use tagents.Notify.Screen.{ScreenAnswer}
use tagents.Notify.Notifier.{Notice, PostResult}

-- `Delivery` of events.rs: what one call of the follower found.
pub record Delivery : Type 0 where
  pub events : List AgentEvent
  pub errors : List Text
  pub death : Option Text

-- `EngineDeps`: everything that the engine touches, over a world `W` that every call may change. The
-- clock, the feed, the notifier, the probe and the stop are traits and functions in the source; the
-- files of the state directory and the transcript are read through the file system. `number` is
-- `js::number`, and `quote` is `json::quote`, which writes a text with serde_json.
pub record Deps (W : Type 0) : Type 0 where
  pub now_ms : W → ℕ × W
  pub states : W → List AgentStateRow × W
  pub feed_start : ℕ → W → Result Text Delivery × W
  pub feed_wake : ℕ → W → Delivery × W
  pub feed_end_grace : ℕ → W → Delivery × W
  pub feed_due : W → Option ℕ × W
  pub feed_close : W → Option Text × W
  pub post : Notice → W → Result Text PostResult × W
  pub withdraw : Text → W → Result Text (Unit {0}) × W
  pub screen : Text → W → Result Text (Option ScreenAnswer) × W
  pub hostname : W → Text × W
  pub state_file : Text → W → Option Text × W
  pub last_answer : Text → W → Text × W
  pub is_stopped : W → Bool × W
  pub tagents_path : Text
  pub env : List (Text × Text)
  pub phrases : Phrases
  pub number : Text → Option ℕ
  pub quote : Text → Text

pub data Job : Type 0 where
  event : AgentEvent → Job
  due : Text → ℕ → Job

pub record Refollow : Type 0 where
  pub at : ℕ
  pub wait : ℕ

-- What the engine does to the outside: the lines that it logs, the notices that it posts and those
-- that it withdraws, each with the backend's answer.
pub data Action : Type 0 where
  logged : List Text → Action
  posted : Notice → Result Text PostResult → Action
  withdrew : Text → Result Text (Unit {0}) → Action

-- `Engine`, with the world and what was done to it, the latest first.
pub record Engine (W : Type 0) : Type 0 where
  pub options : Options
  pub up : List Text
  pub questions : Dict ℕ
  pub warned_at : Dict ℕ
  pub post_failures : List Text
  pub armed_by : Dict AgentEvent
  pub deadlines : Deadlines
  pub queue : List Job
  pub following : Bool
  pub refollow : Option Refollow
  pub refollow_after : ℕ
  pub followed_at : ℕ
  pub followed_after : ℕ
  pub heard : Bool
  pub stopped : Option (Result Text (Unit {0}))
  pub world : W
  pub trace : List Action

module _ {W A : Type 0} where
  -- A call of a trait object or of a reader.
  unfoldable pub effect : (W → A × W) → Exec (Engine W) A
  effect f s = ((f s.world).0, record s { world = (f s.world).1 })

module _ {W : Type 0} where
  unfoldable pub record_action : Action → Exec (Engine W) (Unit {0})
  record_action action s = (tt, record s { trace = action ∷ s.trace })

  -- `say`
  abbrev pub say : List Text → Exec (Engine W) (Unit {0})
  say parts = record_action (logged parts)
