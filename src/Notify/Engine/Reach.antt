-- ===== src/Notify/Engine/Reach.antt =====
-- crates/tagents-core/src/notify/engine.rs: the engine under any sequence of calls of the service's loop, and the lemmas
-- that carry an invariant through them.
use tagents.Prelude.{ℕ, ◌*◌, Bool, true, false, none, some, List, [], ◌∷◌, ◌++◌, map}
use tagents.Text.{Text}
use tagents.Dict.{Dict, insert}
use tagents.Exec.{Exec, Result, pure, modify, ◌>>=◌, Keeps, keeps_rules, Keeps-modify, Keeps-bind}
use tagents.Notify.Event.{AgentEvent}
use tagents.Notify.Deadlines
use tagents.Notify.Options.{Options, CacheExpiring}
use tagents.Notify.Rows.{AgentStateRow}
use tagents.Notify.Engine.{Deps, Engine, Delivery, event, say}
use tagents.Notify.Engine.Jobs.{now, run}
use tagents.Notify.Engine.Follow
use tagents.Notify.Engine.Calls
use tagents.Notify.Engine.Stable.{Stable, Keeps-effect, Keeps-say}
use tagents.Notify.Engine.Running.{now-Keeps, run-Keeps}

-- The calls of the service.
pub data Call : Type 0 where
  start wake tick stop next_due : Call
  reload : Options → Call

module _ {W : Type 0} (d : Deps W) where
  unfoldable pub perform : Call → Exec (Engine W) (Unit {0})
  perform start = do _ ← Calls.start d; pure tt
  perform wake = Calls.wake d
  perform tick = Calls.tick d
  perform stop = do _ ← Calls.stop d; pure tt
  perform next_due = do _ ← Calls.next_due d; pure tt
  perform (reload options) = Calls.reload d options

  -- The engine after the calls.
  unfoldable pub after : List Call → Engine W → Engine W
  after [] s = s
  after (c ∷ cs) s = after cs (perform c s).1

module _ {W : Type 0} (d : Deps W) {P : Engine W → Type 0} (stable : Stable d P) where
  pub reading-Keeps : Keeps P (now d)
  reading-Keeps = now-Keeps d stable.jobs

  saying-Keeps : (parts : List Text) → Keeps P (say {W = W} parts)
  saying-Keeps parts = Keeps-say d stable.jobs parts

  refollowing-Keeps : Keeps P (Follow.refollow_soon d)
  refollowing-Keeps = stable.refollowing

  pub sweep-Keeps : Keeps P (Follow.sweep d)
  unfolding Follow.sweep
  sweep-Keeps = Keeps-bind _ _ (now-Keeps d stable.jobs) λ at. Keeps-modify _ (λ s.
      stable.sweeping s (s.queue ++ map Follow.job_of (Deadlines.take_due at s.deadlines).0) at)

  hearing-Keeps :
      (e : AgentEvent)
      → Keeps P (modify (λ s. record s { heard = true; queue = s.queue ++ event e ∷ [] }))
  hearing-Keeps e = Keeps-modify _ (λ s. stable.queueing s true (s.queue ++ event e ∷ []))

  ingest_events-Keeps : (es : List AgentEvent) → Keeps P (Follow.ingest_events d es)
  unfolding Follow.ingest_events
  ingest_events-Keeps [] = search keeps_rules
  ingest_events-Keeps (e ∷ es) =
      let ih = ingest_events-Keeps es in search (keeps_rules, hearing-Keeps, sweep-Keeps)

  say_errors-Keeps : (messages : List Text) → Keeps P (Follow.say_errors d messages)
  unfolding Follow.say_errors
  say_errors-Keeps [] = search keeps_rules
  say_errors-Keeps (m ∷ ms) = let ih = say_errors-Keeps ms in search (keeps_rules, saying-Keeps)

  has_proven_itself-Keeps : Keeps P (Follow.has_proven_itself d)
  unfolding Follow.has_proven_itself
  has_proven_itself-Keeps = search (keeps_rules, reading-Keeps) depth 8

  following-Keeps : (b : Bool) → Keeps P (modify (λ s. record s { following = b }))
  following-Keeps b = Keeps-modify _ (λ s. stable.following s b)

  resetting-Keeps : Keeps P (modify (λ s. record s { refollow_after = Follow.refollow_min_ms }))
  resetting-Keeps = Keeps-modify _ stable.resetting

  on_dead-Keeps : (message : Text) → Keeps P (Follow.on_dead d message)
  unfolding Follow.on_dead
  on_dead-Keeps message =
      search
        (
          keeps_rules, following-Keeps, has_proven_itself-Keeps, resetting-Keeps, refollowing-Keeps,
          saying-Keeps,
        )
        depth 12

  pub ingest-Keeps : (delivery : Delivery) → Keeps P (Follow.ingest d delivery)
  unfolding Follow.ingest
  ingest-Keeps delivery =
      search (keeps_rules, ingest_events-Keeps, say_errors-Keeps, on_dead-Keeps) depth 8

  followed-Keeps :
      (at since : ℕ)
      → Keeps P (modify (λ s. record s { followed_at = at; followed_after = since; heard = false }))
  followed-Keeps at since = Keeps-modify _ (λ s. stable.followed s at since)

  opened-Keeps : (since : ℕ) (delivery : Delivery) → Keeps P (Follow.opened d since delivery)
  unfolding Follow.opened
  opened-Keeps since delivery =
      search (keeps_rules, reading-Keeps, following-Keeps, ingest-Keeps, followed-Keeps) depth 10

  follow-Keeps : (since : ℕ) → Keeps P (Follow.follow d since)
  unfolding Follow.follow
  follow-Keeps since =
      search (keeps_rules, reading-Keeps, Keeps-effect d stable.jobs, opened-Keeps) depth 10

  armed_row-Keeps :
      (row : AgentStateRow) (labels : Dict Text) (t : ℕ)
      → Keeps P (
          modify (λ s. record s {
            armed_by = insert row.key (Follow.event_from_row row labels) s.armed_by;
            deadlines = Deadlines.arm row.key (row.at * 1000) t s.deadlines;
          }))
  unfolding Follow.event_from_row
  armed_row-Keeps row labels t =
      Keeps-modify _
        (λ s. stable.jobs.arming s (Follow.event_from_row row labels) s.warned_at (row.at * 1000) t)

  arm_row-Keeps :
      (cache : CacheExpiring) (at : ℕ) (labels : Dict Text) (row : AgentStateRow)
      → Keeps P (Follow.arm_row d cache at labels row)
  unfolding Follow.arm_row
  arm_row-Keeps cache at labels row = search (keeps_rules, armed_row-Keeps) depth 8

  arm_rows-Keeps :
      (cache : CacheExpiring) (at : ℕ) (labels : Dict Text) (rows : List AgentStateRow)
      → Keeps P (Follow.arm_rows d cache at labels rows)
  unfolding Follow.arm_rows
  arm_rows-Keeps cache at labels [] = search keeps_rules
  arm_rows-Keeps cache at labels (row ∷ rows) =
      let ih = arm_rows-Keeps cache at labels rows in search (keeps_rules, arm_row-Keeps)

  arm_from_states-Keeps : Keeps P (Follow.arm_from_states d)
  unfolding Follow.arm_from_states
  arm_from_states-Keeps =
      search (keeps_rules, reading-Keeps, Keeps-effect d stable.jobs, arm_rows-Keeps) depth 12

  try_later-Keeps : (why : Text) → Keeps P (Follow.try_later d why)
  unfolding Follow.try_later
  try_later-Keeps why = search (keeps_rules, refollowing-Keeps, saying-Keeps) depth 8

  pub follow_again-Keeps : (wait : ℕ) → Keeps P (Follow.follow_again d wait)
  unfolding Follow.follow_again
  follow_again-Keeps wait =
      search (keeps_rules, follow-Keeps, try_later-Keeps, arm_from_states-Keeps) depth 10

  start-Keeps : Keeps P (Calls.start d)
  unfolding Calls.start
  start-Keeps = search (keeps_rules, follow-Keeps, arm_from_states-Keeps) depth 12

  unfollowing-Keeps : Keeps P (modify (λ s. record s { refollow = none }))
  unfollowing-Keeps = Keeps-modify _ stable.unfollowing

  pub refollow_due-Keeps : Keeps P (Calls.refollow_due d)
  unfolding Calls.refollow_due Calls.refollow_when_due
  refollow_due-Keeps =
      search (keeps_rules, reading-Keeps, unfollowing-Keeps, follow_again-Keeps) depth 12

  running-Keeps : Keeps P (run d)
  running-Keeps = run-Keeps d stable.jobs stable.taking

  turn-Keeps : (read : ℕ → W → Delivery × W) → Keeps P (Calls.turn d read)
  unfolding Calls.turn
  turn-Keeps read =
      search
        (
          keeps_rules,
          reading-Keeps,
          refollow_due-Keeps,
          Keeps-effect d stable.jobs,
          ingest-Keeps,
          sweep-Keeps,
          running-Keeps,
        )
        depth 14

  next_due-Keeps : Keeps P (Calls.next_due d)
  unfolding Calls.next_due
  next_due-Keeps = search (keeps_rules, reading-Keeps, Keeps-effect d stable.jobs) depth 14

  stopping-Keeps :
      (r : Result Text (Unit {0}))
      → Keeps P (
          modify (λ s. record s {
            following = false;
            refollow = none;
            queue = [];
            deadlines = Deadlines.new;
            armed_by = [];
            questions = [];
            warned_at = [];
            stopped = some r;
          }))
  stopping-Keeps r = Keeps-modify _ (λ s. stable.stopping s r)

  stop-Keeps : Keeps P (Calls.stop d)
  unfolding Calls.stop
  stop-Keeps = search (keeps_rules, Keeps-effect d stable.jobs, stopping-Keeps) depth 12

  perform-Keeps : (c : Call) → Keeps P (perform d c)
  unfolding perform Calls.wake Calls.tick Calls.reload
  perform-Keeps start = search (keeps_rules, start-Keeps)
  perform-Keeps wake = turn-Keeps d.feed_wake
  perform-Keeps tick = turn-Keeps d.feed_end_grace
  perform-Keeps stop = search (keeps_rules, stop-Keeps)
  perform-Keeps next_due = search (keeps_rules, next_due-Keeps)
  perform-Keeps (reload options) = Keeps-modify _ (λ s. stable.reloading s options)

  -- An invariant that is stable holds after any calls.
  pub after-Keeps : (cs : List Call) (s : Engine W) → P s → P (after d cs s)
  unfolding after
  after-Keeps [] s h = h
  after-Keeps (c ∷ cs) s h = after-Keeps cs (perform d c s).1 ((perform-Keeps c).at s h)
