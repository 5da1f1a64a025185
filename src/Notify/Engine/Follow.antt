-- ===== src/Notify/Engine/Follow.antt =====
-- crates/tagents-core/src/notify/engine.rs: the follower of the events file, its death and the next
-- follow, and the arming from the state rows.
use tagents.Prelude.{
  ℕ, ◌+◌, ◌*◌, ◌/◌, ◌%◌, ◌++◌, map, min, Bool, true, false, ◌&&◌, ◌||◌, not, Option, none, some,
  List, [], ◌∷◌, ltb, leb, ◌==◌, if◌then◌else◌,
}
use tagents.Text.{Text, word, text_eq, strip_prefix, all_chars, number_text}
use tagents.Dict.{Dict, get, insert}
use tagents.Exec.{
  Exec, Result, ok, err, pure, gets, modify, ◌>>=◌, ◌>>◌, when, case_of, case_result,
}
use tagents.Notify.Event.{AgentHookEvent, AgentEvent}
use tagents.Notify.Kinds.{question_tools, counts_session}
use tagents.Notify.Deadlines
use tagents.Notify.Deadlines.{Due}
use tagents.Notify.Options.{CacheExpiring}
use tagents.Notify.Screen.{is_digits}
use tagents.Notify.Rows.{RowState, AgentStateRow, labels_by_session}
use tagents.Notify.Engine.{Deps, Engine, Delivery, Job, event, due, effect, say}
use tagents.Notify.Engine.Jobs.{now}

-- `REFOLLOW_MIN_MS` and `REFOLLOW_MAX_MS`
abbrev pub refollow_min_ms : ℕ
refollow_min_ms = 1000

abbrev pub refollow_max_ms : ℕ
refollow_max_ms = 300_000

abbrev is_line_end : ℕ → Bool
is_line_end c = c == 0xa || c == 0xd || c == 0x2028 || c == 0x2029

-- What may follow the name of a question tool that nobody has answered.
unfoldable pub is_open_rest : Text → Bool
is_open_rest [] = true
is_open_rest (c ∷ text) =
    c == b' ' && (not (text_eq text (word "✓")) && all_chars (λ a. not (is_line_end a)) text)

unfoldable pub is_open_among : List Text → Text → Bool
unfolding is_open_rest
is_open_among [] detail = false
is_open_among (tool ∷ tools) detail =
    (elim (strip_prefix tool detail) [ none ↦ false | some rest ↦ is_open_rest rest ])
    || is_open_among tools detail

unfoldable pub is_open_question : Text → Bool
unfolding is_open_among
is_open_question detail = is_open_among question_tools detail

abbrev or_empty : Option Text → Text
or_empty none = []
or_empty (some text) = text

abbrev is_blocked : RowState → Bool
is_blocked RowState.blocked = true
is_blocked _ = false

unfoldable pub event_from_row : AgentStateRow → Dict Text → AgentEvent
event_from_row row labels = record {
  at = row.at * 1000;
  event = if is_blocked row.state then AgentHookEvent.notification else AgentHookEvent.stop;
  key = row.key;
  session_id = row.session_id;
  agent_id = [];
  pane = if is_digits row.key then word "%" ++ row.key else [];
  cwd = row.cwd;
  transcript = row.transcript;
  config_dir = or_empty row.config_dir;
  tool = [];
  sub = [];
  text = row.detail;
  label = or_empty (get row.session_id labels);
}

-- A row whose session waits for the person.
unfoldable pub is_waiting_row : RowState → Text → Bool
is_waiting_row RowState.done detail = true
is_waiting_row RowState.blocked detail = true
is_waiting_row RowState.working detail = is_open_question detail
is_waiting_row _ detail = false

-- `js::number_text(ms / 1000.0)`
unfoldable pub seconds_text : ℕ → Text
seconds_text ms =
    let fraction = ms % 1000 in
    let whole = number_text (ms / 1000) in
    let digit = λ (n : ℕ). (b'0' + n % 10) ∷ [] in
    if fraction == 0
    then whole
    else if fraction % 100 == 0
    then whole ++ (word "." ++ digit (fraction / 100))
    else if fraction % 10 == 0
    then whole ++ (word "." ++ (digit (fraction / 100) ++ digit (fraction / 10)))
    else whole
      ++ (word "." ++ (digit (fraction / 100) ++ (digit (fraction / 10) ++ digit fraction)))

abbrev pub job_of : Due → Job
job_of d = due d.key d.idle_since

module _ {W : Type 0} (d : Deps W) where
  unfoldable pub sweep : Exec (Engine W) (Unit {0})
  sweep = do
    at ← now d
    modify (λ s. record s {
      queue = s.queue ++ map job_of (Deadlines.take_due at s.deadlines).0;
      deadlines = (Deadlines.take_due at s.deadlines).1;
    })

  unfoldable pub refollow_soon : Exec (Engine W) ℕ
  refollow_soon = do
    wait ← gets (λ s. s.refollow_after)
    modify (λ s. record s { refollow_after = min (wait * 2) refollow_max_ms })
    at ← now d
    modify (λ s. record s { refollow = some (record { at = at + wait; wait = wait }) })
    pure wait

  -- Whether a follower that died has proven itself. The clock is read only if it heard nothing.
  unfoldable pub has_proven_itself : Exec (Engine W) Bool
  has_proven_itself = do
    heard ← gets (λ s. s.heard)
    if heard
        then pure true
        else (do at ← now d; gets (λ s. ltb (s.followed_at + s.followed_after) at))

  unfoldable pub on_dead : Text → Exec (Engine W) (Unit {0})
  on_dead message = do
    modify (λ s. record s { following = false })
    proven ← has_proven_itself
    when proven (modify (λ s. record s { refollow_after = refollow_min_ms }))
    wait ← refollow_soon
    say (
        word "feed follower died"
        ∷ message
        ∷ (word "following again in " ++ (seconds_text wait ++ word "s"))
        ∷ [])

  unfoldable pub ingest_events : List AgentEvent → Exec (Engine W) (Unit {0})
  ingest_events [] = pure tt
  ingest_events (e ∷ es) = do
    modify (λ s. record s { heard = true; queue = s.queue ++ event e ∷ [] })
    sweep
    ingest_events es

  unfoldable pub say_errors : List Text → Exec (Engine W) (Unit {0})
  say_errors [] = pure tt
  say_errors (message ∷ messages) = do say (word "feed error" ∷ message ∷ []); say_errors messages

  unfoldable pub ingest : Delivery → Exec (Engine W) (Unit {0})
  ingest delivery = do
    ingest_events delivery.events
    say_errors delivery.errors
    case_of delivery.death (pure tt) on_dead

  -- The rest of `follow` once the feed has started.
  unfoldable pub opened : ℕ → Delivery → Exec (Engine W) (Result Text (Unit {0}))
  opened preceded_by delivery = do
    modify (λ s. record s { following = true })
    ingest delivery
    at ← now d
    modify (λ s. record s { followed_at = at; followed_after = preceded_by; heard = false })
    pure (ok tt)

  unfoldable pub follow : ℕ → Exec (Engine W) (Result Text (Unit {0}))
  follow preceded_by = do
    at ← now d
    started ← effect (d.feed_start at)
    case_result started (λ why. pure (err why)) (opened preceded_by)

  -- One row of `arm_from_states`.
  unfoldable pub arm_row :
      CacheExpiring → ℕ → Dict Text → AgentStateRow → Exec (Engine W) (Unit {0})
  arm_row cache at labels row = do
    warned ← gets (λ s. get row.key s.warned_at)
    let idle_since = row.at * 1000
    when
        (is_waiting_row row.state row.detail
          && counts_session row.key
          && not (leb (idle_since + cache.ttl_ms) at)
          && not (elim warned [ none ↦ false | some sent ↦ leb idle_since sent ]))
        (modify (λ s. record s {
          armed_by = insert row.key (event_from_row row labels) s.armed_by;
          deadlines = Deadlines.arm row.key idle_since (idle_since + cache.after_ms) s.deadlines;
        }))

  unfoldable pub arm_rows :
      CacheExpiring → ℕ → Dict Text → List AgentStateRow → Exec (Engine W) (Unit {0})
  arm_rows cache at labels [] = pure tt
  arm_rows cache at labels (row ∷ rows) = do
    arm_row cache at labels row
    arm_rows cache at labels rows

  unfoldable pub arm_from_states : Exec (Engine W) (Unit {0})
  arm_from_states = do
    cache ← gets (λ s. s.options.events.cache_expiring)
    when cache.toggles.enabled (do
      at ← now d
      history ← effect (d.state_file (word "history.tsv"))
      rows ← effect d.states
      arm_rows cache at (labels_by_session d.number history) rows)

  -- A re-follow that failed is tried again after the next wait.
  unfoldable pub try_later : Text → Exec (Engine W) (Unit {0})
  try_later why = do
    next ← refollow_soon
    say (
        word "follow failed"
        ∷ why
        ∷ (word "trying again in " ++ (seconds_text next ++ word "s"))
        ∷ [])

  unfoldable pub follow_again : ℕ → Exec (Engine W) (Unit {0})
  follow_again wait = do
    followed ← follow wait
    case_result followed try_later (λ _. arm_from_states)
