-- ===== src/Notify/Engine/Calls.antt =====
-- crates/tagents-core/src/notify/engine.rs: the calls of the service's loop.
use tagents.Prelude.{
  ℕ, ◌-◌, min, Bool, true, false, ◌||◌, not, Option, none, some, List, [], ◌∷◌, leb, if◌then◌else◌,
}
use tagents.Text.{Text}
use tagents.Exec.{
  Exec, Result, ok, err, pure, gets, modify, ◌>>=◌, ◌>>◌, when, case_of, case_result,
}
use tagents.Notify.Deadlines
use tagents.Notify.Options.{Options}
use tagents.Notify.Engine.{Deps, Engine, Delivery, Job, Refollow, effect}
use tagents.Notify.Engine.Jobs.{is_some, now, run}
use tagents.Notify.Engine.Follow.{
  refollow_min_ms, sweep, ingest, follow, follow_again, arm_from_states,
}

-- `Engine::new`
unfoldable pub new : {W : Type 0} → Options → W → Engine W
new options world = record {
  options = options;
  up = [];
  questions = [];
  warned_at = [];
  post_failures = [];
  armed_by = [];
  deadlines = Deadlines.new;
  queue = [];
  following = false;
  refollow = none;
  refollow_after = refollow_min_ms;
  followed_at = 0;
  followed_after = 0;
  heard = false;
  stopped = none;
  world = world;
  trace = [];
}

-- `.into_iter().flatten().min()`
abbrev pub least_of : Option ℕ → Option ℕ → Option ℕ
least_of none b = b
least_of (some a) none = some a
least_of (some a) (some b) = some (min a b)

-- `until`, in milliseconds, for a time that may be missing
abbrev pub until : ℕ → Option ℕ → Option ℕ
until at none = none
until from (some at) = some (at - from)

abbrev pub refollow_at : Option Refollow → Option ℕ
refollow_at none = none
refollow_at (some r) = some r.at

abbrev pub is_nil : List Job → Bool
is_nil [] = true
is_nil (_ ∷ _) = false

module _ {W : Type 0} (d : Deps W) where
  unfoldable pub start : Exec (Engine W) (Result Text (Unit {0}))
  start = do
    skipped ← gets (λ s. is_some s.stopped || s.following || is_some s.refollow)
    if skipped then pure (ok tt) else (do
      followed ← follow d 0
      case_result followed (λ why. pure (err why)) (λ _. do arm_from_states d; pure (ok tt)))

  -- The re-follow whose time has come.
  unfoldable pub refollow_when_due : Refollow → Exec (Engine W) (Unit {0})
  refollow_when_due r = do
    at ← now d
    when (leb r.at at) (do modify (λ s. record s { refollow = none }); follow_again d r.wait)

  unfoldable pub refollow_due : Exec (Engine W) (Unit {0})
  refollow_due = do refollow ← gets (λ s. s.refollow); case_of refollow (pure tt) refollow_when_due

  unfoldable pub turn : (ℕ → W → Delivery × W) → Exec (Engine W) (Unit {0})
  turn read = do
    stopped ← gets (λ s. is_some s.stopped)
    when (not stopped) (do
      refollow_due
      at ← now d
      delivery ← effect (read at)
      ingest d delivery
      sweep d
      run d)

  unfoldable pub wake : Exec (Engine W) (Unit {0})
  wake = turn d.feed_wake

  unfoldable pub tick : Exec (Engine W) (Unit {0})
  tick = turn d.feed_end_grace

  -- In milliseconds.
  unfoldable pub next_due : Exec (Engine W) (Option ℕ)
  next_due = do
    stopped ← gets (λ s. is_some s.stopped)
    if stopped then pure none else (do
      idle ← gets (λ s. is_nil s.queue)
      if not idle then pure (some 0) else (do
        at ← now d
        grace ← effect d.feed_due
        gets (λ s.
            least_of (Deadlines.wait at s.deadlines)
              (least_of (until at grace) (until at (refollow_at s.refollow))))))

  unfoldable pub reload : Options → Exec (Engine W) (Unit {0})
  reload options = modify (λ s. record s { options = options })

  unfoldable pub stop : Exec (Engine W) (Result Text (Unit {0}))
  stop = do
    stopped ← gets (λ s. s.stopped)
    case_of stopped
        (do
          closed ← effect d.feed_close
          let done : Result Text (Unit {0}) = elim closed [ none ↦ ok tt | some why ↦ err why ]
          modify (λ s. record s {
            following = false;
            refollow = none;
            queue = [];
            deadlines = Deadlines.new;
            armed_by = [];
            questions = [];
            warned_at = [];
            stopped = some done;
          })
          pure done)
        (λ done. pure done)
