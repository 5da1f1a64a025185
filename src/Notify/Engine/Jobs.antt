-- ===== src/Notify/Engine/Jobs.antt =====
-- crates/tagents-core/src/notify/engine.rs: what an event and a deadline do, and the queue of both.
use tagents.Prelude.{
  ℕ, zero, suc, ◌+◌, ◌-◌, ◌*◌, ◌/◌, Bool, true, false, ◌&&◌, ◌||◌, not, Option, none, some, List,
  [], ◌∷◌, ltb, leb, ◌==◌, if◌then◌else◌, length,
}
use tagents.Text.{Text, word, text_eq}
use tagents.Dict.{Dict, get, insert, remove}
use tagents.Exec.{Exec, pure, gets, modify, ◌>>=◌, ◌>>◌, when, case_of}
use tagents.Notify.Event.{AgentEvent}
use tagents.Notify.Kinds.{
  NoticeKind, permission, turn_done, cache_expiring, Verdict, kind_eq, counts_session, classify,
}
use tagents.Notify.Deadlines
use tagents.Notify.Options.{CacheExpiring, toggles_of}
use tagents.Notify.Rows.{RowState, AgentStateRow}
use tagents.Notify.Phrases.{Minutes}
use tagents.Notify.Compose.{Extra, plain}
use tagents.Notify.Engine.{Deps, Engine, Job, event, due, effect, say}
use tagents.Notify.Engine.Post.{notice_id, take_down, post}

-- `QUESTION_PROMPT_WINDOW_MS`
abbrev pub question_prompt_window_ms : ℕ
question_prompt_window_ms = 20_000

-- `MINUTE_MS`
abbrev pub minute_ms : ℕ
minute_ms = 60_000

abbrev pub is_some {ℓ} : {A : Type ℓ} → Option A → Bool
is_some none = false
is_some (some _) = true

abbrev pub is_kind : NoticeKind → Option NoticeKind → Bool
is_kind kind none = false
is_kind kind (some other) = kind_eq other kind

-- Whether a question was put on screen for the key at most the window before the event.
unfoldable pub is_held_back : AgentEvent → Dict ℕ → Bool
is_held_back e questions = elim (get e.key questions) [
  | none ↦ false
  | some asked_at ↦ leb (e.at - asked_at) question_prompt_window_ms
]

-- `js::round((to - from) / MINUTE_MS)`: halves go up, also below zero.
unfoldable pub rounded_minutes : ℕ → ℕ → Minutes
rounded_minutes from to =
    if leb from to
    then record { negative = false; size = (to - from + 30_000) / minute_ms }
    else record { negative = true; size = (from - to + 29_999) / minute_ms }

-- `.into_iter().find(|row| row.key == key)`
unfoldable pub find_row : Text → List AgentStateRow → Option AgentStateRow
find_row key [] = none
find_row key (row ∷ rows) = if text_eq row.key key then some row else find_row key rows

-- A session whose row says that it is over.
unfoldable pub is_over : RowState → Bool
is_over RowState.new = true
is_over RowState.gone = true
is_over _ = false

unfoldable pub is_working : RowState → Bool
is_working RowState.working = true
is_working _ = false

module _ {W : Type 0} (d : Deps W) where
  unfoldable pub now : Exec (Engine W) ℕ
  now = effect d.now_ms

  unfoldable pub arm : AgentEvent → CacheExpiring → Exec (Engine W) (Unit {0})
  arm e cache = do
    stopped ← gets (λ s. is_some s.stopped)
    when (not (stopped || not cache.toggles.enabled)) (
        modify (λ s. record s {
          armed_by = insert e.key e s.armed_by;
          warned_at = remove e.key s.warned_at;
          deadlines = Deadlines.arm e.key e.at (e.at + cache.after_ms) s.deadlines;
        }))

  -- The end of `step`: the notice that the verdict asks for, when its kind is switched on.
  unfoldable pub ask : AgentEvent → Verdict → NoticeKind → Exec (Engine W) (Unit {0})
  ask e verdict kind = do
    toggles ← gets (λ s. toggles_of s.options.events kind)
    when toggles.enabled
        (do _ ← post d kind e (record plain { plan = verdict.plan }) toggles.skip_visible; pure tt)

  -- What `step` does with a verdict that no question holds back.
  unfoldable pub act : AgentEvent → Verdict → Exec (Engine W) (Unit {0})
  act e verdict = do
    when (verdict.cancel || is_kind turn_done verdict.kind)
        (modify (λ s. record s { questions = remove e.key s.questions }))
    when verdict.cancel (
        modify (λ s. record s {
          deadlines = Deadlines.cancel e.key s.deadlines;
          armed_by = remove e.key s.armed_by;
          warned_at = remove e.key s.warned_at;
        }))
    when verdict.withdraw (take_down d (notice_id e.key))
    cache ← gets (λ s. s.options.events.cache_expiring)
    when verdict.arms (arm e cache)
    case_of verdict.kind (pure tt) (ask e verdict)

  unfoldable pub step : AgentEvent → Exec (Engine W) (Unit {0})
  step e = do
    stopped ← gets (λ s. is_some s.stopped)
    when (not stopped) (
        case_of (classify e) (pure tt) (λ verdict. do
          questions ← gets (λ s. s.questions)
          if is_kind permission verdict.kind && is_held_back e questions
              then say (word "permission prompt held back by the question on screen" ∷ e.key ∷ [])
              else act e verdict))

  -- The end of `due`: the cache is alive still, or it is gone already.
  unfoldable pub warn : Text → ℕ → AgentEvent → CacheExpiring → Exec (Engine W) (Unit {0})
  warn key idle_since e cache = do
    at ← now
    if leb (idle_since + cache.ttl_ms) at then pure tt else (do
      let extra : Extra = record {
        plan = false;
        idle_min = some (rounded_minutes idle_since at);
        left_min = some (rounded_minutes at (idle_since + cache.ttl_ms));
      }
      sent ← post d cache_expiring e extra cache.toggles.skip_visible
      when sent (modify (λ s. record s { warned_at = insert key at s.warned_at })))

  -- The middle of `due`: the row of the session, which may be over or working.
  unfoldable pub check_row : Text → ℕ → AgentEvent → CacheExpiring → Exec (Engine W) (Unit {0})
  check_row key idle_since e cache = do
    rows ← effect d.states
    case_of (find_row key rows) (pure tt) (λ row.
        if is_over row.state || (is_working row.state && ltb idle_since (row.at * 1000))
        then pure tt
        else warn key idle_since e cache)

  -- What `due` does for an event whose deadline it is, unless that is stale.
  unfoldable pub fire : Text → ℕ → AgentEvent → Exec (Engine W) (Unit {0})
  fire key idle_since e = do
    stopped ← gets (λ s. is_some s.stopped)
    when (not (stopped || not (e.at == idle_since))) (do
      modify (λ s. record s { armed_by = remove key s.armed_by })
      cache ← gets (λ s. s.options.events.cache_expiring)
      when (not (not cache.toggles.enabled || not (counts_session key)))
          (check_row key idle_since e cache))

  -- `due`
  unfoldable pub run_due : Text → ℕ → Exec (Engine W) (Unit {0})
  run_due key idle_since = do
    armed ← gets (λ s. get key s.armed_by)
    case_of armed (pure tt) (fire key idle_since)

  unfoldable pub job : Job → Exec (Engine W) (Unit {0})
  job (event e) = step e
  job (due key idle_since) = run_due key idle_since

  -- One round of the loop of `run`, behind a job that was taken from the queue.
  unfoldable pub run_job : Job → Exec (Engine W) Bool
  run_job j = do
    stopped ← gets (λ s. is_some s.stopped)
    tripped ← if stopped then pure true else effect d.is_stopped
    if tripped
        then (do modify (λ s. record s { queue = [] }); pure false)
        else (do job j; pure true)

  -- The body of the loop: it takes the first job of the queue, runs it and goes on.
  unfoldable pub next_job : Exec (Engine W) (Unit {0}) → List Job → Exec (Engine W) (Unit {0})
  next_job again [] s = (tt, s)
  next_job again (j ∷ rest) s = again (run_job j (record s { queue = rest })).1

  unfoldable pub run_loop : ℕ → Exec (Engine W) (Unit {0})
  run_loop zero s = (tt, s)
  run_loop (suc fuel) s = next_job (run_loop fuel) s.queue s

  -- `run`: the queue itself bounds the rounds, since no job puts one into it.
  unfoldable pub run : Exec (Engine W) (Unit {0})
  run s = run_loop (length s.queue) s
