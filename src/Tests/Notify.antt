-- ===== src/Tests/Notify.antt =====
-- crates/tagents-core/src/notify: each theorem at one input, and runs of the engine.
use tagents.Prelude.{
  ℕ, ◌<◌, ◌≤◌, ◌++◌, ◌+◌, ◌-◌, ◌≡◌, ◌≢◌, ◌↔◌, refl, true, false, Option, none, some, List, [], ◌∷◌,
  leb, arith, if◌then◌else◌,
}
use tagents.Text.{
  starts_with, contains, to_ascii_lowercase, all_chars, Text, word, split, is_empty, text_eq, trim,
}
use tagents.Text.Split.{join, AllFree}
use tagents.Dict.{get, member, add}
use tagents.Exec.{ok, ◌>>=◌}
use tagents.Notify.Event.{AgentHookEvent, AgentEvent, as_str, parse, parse_event_line, tab}
use tagents.Notify.Event.RoundTrip.{
  texts_of, fields_of, parse-eq-some_iff, parse_event_line-join, IsClean,
}
use tagents.Notify.Kinds.{
  NoticeKind, question, permission, turn_done, cache_expiring, Verdict, asks, arming,
  counts_session, is_question_tool, from_notification, classify_event, classify, is_waiting,
}
use tagents.Notify.Kinds.Sound.{IsCoherent, classify-IsCoherent}
use tagents.Notify.Deadlines
use tagents.Notify.Deadlines.{Deadlines, Entry, Due, arm, cancel, take_due, wait, armed}
use tagents.Notify.Deadlines.Keyed.{
  deadline_of, due_since, keys, IsUnique, deadline_of-arm, deadline_of-cancel, deadline_of-take_due,
  deadlines-IsUnique,
}
use tagents.Notify.Deadlines.Timing.{wait_exact}
use tagents.Notify.Options
use tagents.Notify.Rows.{labels_by_session}
use tagents.Notify.Rows.Labels.{last_label, get-labels_by_session}
use tagents.Notify.Engine.{Deps, Engine, Refollow, effect, record_action}
use tagents.Notify.Kinds
use tagents.Notify.Compose
use tagents.Notify.Deadlines.Keyed
use tagents.Notify.Engine.Jobs
use tagents.Notify.Engine.Jobs.{now}
use tagents.Notify.Engine.Post
use tagents.Notify.Engine.Follow
use tagents.Notify.Engine.Calls
use tagents.Notify.Engine.Fake.{World, fake, blank, world, fresh}
use tagents.Notify.Engine.Reach
use tagents.Notify.Engine.Reach.{Call, start, wake, tick, stop, next_due, reload, after}
use tagents.Notify.Engine.Trace.{on_screen, IsLawful}
use tagents.Notify.Engine.Notices.{after-IsLawful}
use tagents.Notify.Engine.Backoff.{InRange, IsWaiting, backoff_bounded}
use tagents.Notify.Engine.Live.{IsAlive}
use tagents.Notify.Engine.Alive.{Hears, after-IsAlive}
use tagents.Notify.Engine.Stopped.{options_after, stop_is_final}
use tagents.Notify.Engine.Drained.{gathering, Ran, turn_runs_the_queue}
use tagents.Notify.Engine.Sleep.{IsIdle, next_due_exact}

-- A permission prompt of the session in pane 3.
abbrev prompt : AgentEvent
prompt = record (blank AgentHookEvent.notification (word "3") 990_000) {
  text = word "Claude needs your permission";
}

abbrev calls : List Call
calls = start ∷ wake ∷ next_due ∷ tick ∷ stop ∷ wake ∷ []

after-IsLawful_example :
    let s = after fake calls (Calls.new Options.default (world (prompt ∷ []))) in
    (s.up ≡ on_screen s.trace) × IsLawful s.trace × IsUnique s.deadlines.waiting
after-IsLawful_example = after-IsLawful fake Options.default (world (prompt ∷ [])) calls

-- A feed whose follower is dead at the first wake.
abbrev mortal : Deps World
mortal = record fake {
  feed_wake = λ _ w. (record { events = []; errors = []; death = some (word "gone") }, w);
}

-- The same world when the time of the re-follow has come.
abbrev afterwards : Deps World
afterwards = record fake { now_ms = λ w. (2_000_000, w) }

started : (Calls.start mortal (Calls.new Options.default (world (prompt ∷ [])))).0 ≡ ok tt
unfolding Calls.start ◌>>=◌ Calls.new Follow.follow effect now Follow.opened
started = refl

after-IsAlive_example :
    let t = (Calls.start mortal (Calls.new Options.default (world (prompt ∷ [])))).1 in
    let s = after mortal (wake ∷ []) t in
    IsAlive s
    × Hears 2_000_000 (Calls.wake afterwards s).1
    × Hears 2_000_000 (Calls.tick afterwards s).1
after-IsAlive_example =
    after-IsAlive mortal afterwards Options.default (world (prompt ∷ [])) (wake ∷ []) 2_000_000
      (λ v. omega arith) started

stop_is_final_example :
    let t = Calls.stop fake (fresh (prompt ∷ [])) in
    (after fake calls t.1 ≡ record t.1 { options = options_after calls t.1.options })
    × ((Calls.stop fake (after fake calls t.1)).0 ≡ t.0)
stop_is_final_example = stop_is_final fake calls (fresh (prompt ∷ []))

-- The prompt is put up by the wake, and stays up when the engine stops.
prompted : (after fake calls (fresh (prompt ∷ []))).up ≡ Post.notice_id (word "3") ∷ []
unfolding after Reach.perform ◌>>=◌ Calls.start Calls.new Follow.follow effect now Follow.opened
    Follow.arm_from_states Follow.ingest Follow.say_errors Follow.ingest_events Follow.arm_rows
    Calls.wake Calls.tick Calls.next_due Calls.stop Calls.turn Follow.sweep Calls.refollow_due
    Jobs.run Jobs.run_loop Jobs.next_job Jobs.run_job Jobs.job Jobs.step classify counts_session
    starts_with word text_eq is_waiting contains to_ascii_lowercase trim Jobs.act Jobs.ask Post.post
    Post.assemble Post.probe Post.deliver Post.put_up Post.answered Post.clear_failures
    Post.take_down Deadlines.arm get member Jobs.arm Post.notifier_post Post.notice_id take_due
    Kinds.kind_eq Jobs.is_held_back Options.toggles_of Post.is_gone Compose.needs_answer
    record_action Post.is_tool_question add
prompted = refl

running : (after fake (start ∷ []) (fresh (prompt ∷ []))).stopped ≡ none
unfolding after Reach.perform ◌>>=◌ Calls.start Calls.new Follow.follow effect now Follow.opened
    Follow.arm_from_states Follow.ingest Follow.say_errors Follow.ingest_events Follow.arm_rows
running = refl

turn_runs_the_queue_example :
    let s = after fake (start ∷ []) (Calls.new Options.default (world (prompt ∷ []))) in
    Ran fake (gathering fake fake.feed_wake s).1 (Calls.wake fake s)
    × Ran fake (gathering fake fake.feed_end_grace s).1 (Calls.tick fake s)
turn_runs_the_queue_example =
    turn_runs_the_queue fake Options.default (world (prompt ∷ [])) (start ∷ []) running

-- An engine with one deadline and a re-follow pending.
abbrev waiting : Engine World
waiting = record {
  options = Options.default;
  up = [];
  questions = [];
  warned_at = [];
  post_failures = [];
  armed_by = [];
  deadlines = record {
    waiting = record { key = word "3"; idle_since = 990_000; due_at = 3_990_000 } ∷ [];
  };
  queue = [];
  following = false;
  refollow = some (record { at = 1_002_000; wait = 2000 });
  refollow_after = 4000;
  followed_at = 0;
  followed_after = 0;
  heard = false;
  stopped = none;
  world = world [];
  trace = [];
}

next_due_exact_example :
    (((Calls.next_due fake waiting).0 ≡ none) ↔ IsIdle fake waiting)
    × ((ms : ℕ)
        → (Calls.next_due fake waiting).0 ≡ some ms
        → armed waiting.deadlines ≢ 0
        → ms ≤ Deadlines.max_sleep_ms)
    × ((ms : ℕ) (r : Refollow)
        → (Calls.next_due fake waiting).0 ≡ some ms
        → waiting.refollow ≡ some r
        → ms ≤ r.at - (fake.now_ms waiting.world).0)
next_due_exact_example = next_due_exact fake waiting refl

backoff_bounded_example :
    let s = after fake calls (Calls.new Options.default (world [])) in
    InRange s.refollow_after × IsWaiting s.refollow
backoff_bounded_example = backoff_bounded fake Options.default (world []) calls

-- Two keys with deadlines at 50 and 90.
abbrev two : Deadlines
two = record {
  waiting =
      record { key = word "1"; idle_since = 10; due_at = 50 }
      ∷ record { key = word "2"; idle_since = 20; due_at = 90 }
      ∷ [];
}

in_twenty : wait 30 two ≡ some 20
unfolding wait
in_twenty = refl

wait_exact_example :
    (20 ≤ Deadlines.max_sleep_ms)
    × ((t : ℕ) → 30 ≤ t → t < 30 + 20 → take_due t two ≡ ([], two))
    × (20 < Deadlines.max_sleep_ms → (take_due (30 + 20) two).0 ≢ [])
wait_exact_example = wait_exact 30 20 two in_twenty

two-IsUnique : IsUnique two.waiting
unfolding member text_eq word
two-IsUnique = (refl, (refl, tt))

deadline_of-arm_example :
    (deadline_of (word "1") (arm (word "2") 30 60 two)
      ≡ (if text_eq (word "2") (word "1") then some (30, 60) else deadline_of (word "1") two))
    × (keys (arm (word "2") 30 60 two).waiting ≡ (
        if member (word "2") (keys two.waiting)
        then keys two.waiting
        else keys two.waiting ++ word "2" ∷ []))
deadline_of-arm_example = deadline_of-arm (word "2") (word "1") 30 60 two

first_of_two : deadline_of (word "1") two ≡ some (10, 50)
unfolding text_eq word Keyed.entry_of
first_of_two = refl

deadline_of-take_due_example :
    (due_since (word "1") (take_due 60 two).0 ≡ (if leb 50 60 then some 10 else none))
    × (deadline_of (word "1") (take_due 60 two).1 ≡ (if leb 50 60 then none else some (10, 50)))
deadline_of-take_due_example =
    deadline_of-take_due (word "1") 60 10 50 two two-IsUnique first_of_two

deadlines-IsUnique_example :
    IsUnique (arm (word "1") 30 60 two).waiting
    × IsUnique (cancel (word "1") two).waiting
    × IsUnique (take_due 70 two).1.waiting
deadlines-IsUnique_example = deadlines-IsUnique (word "1") 30 60 70 two two-IsUnique

classified : classify prompt ≡ some (arming permission)
unfolding classify counts_session starts_with word text_eq is_waiting contains to_ascii_lowercase
    trim
classified = refl

classify-IsCoherent_example : (counts_session (word "3") ≡ true) × IsCoherent (arming permission)
classify-IsCoherent_example = classify-IsCoherent prompt (arming permission) classified

parse-eq-some_iff_example :
    (parse (word "Stop") ≡ some AgentHookEvent.stop) ↔ (word "Stop" ≡ as_str AgentHookEvent.stop)
parse-eq-some_iff_example = parse-eq-some_iff (word "Stop") AgentHookEvent.stop

-- A reader of numbers that knows one.
abbrev nine_ninety : Text → Option ℕ
nine_ninety text = if text_eq text (word "990") then some 990 else none

reads : nine_ninety (word "990") ≡ some 990
unfolding text_eq word
reads = refl

filled : is_empty (trim (word "990")) ≡ false
unfolding trim word
filled = refl

tabless : AllFree tab (word "990" ∷ texts_of prompt)
unfolding word all_chars
tabless = (
  refl,
  (refl, (refl, (refl, (refl, (refl, (refl, (refl, (refl, (refl, (refl, (refl, tt))))))))))),
)

parse_event_line-join_example :
    (IsClean prompt.label
      → parse_event_line nine_ninety (join tab (fields_of (word "990") prompt)) ≡ some prompt)
    × (parse_event_line nine_ninety (join tab (fields_of (word "990") prompt) ++ 0xd ∷ [])
        ≡ some prompt)
parse_event_line-join_example =
    parse_event_line-join nine_ninety (word "990") 990 prompt reads refl filled tabless

abbrev two_lines : Text
two_lines = word "a" ++ 0x9 ∷ word "one" ++ 0xa ∷ word "a" ++ 0x9 ∷ word "two"

some_key : is_empty (word "a") ≡ false
unfolding word
some_key = refl

abbrev history : Text
history =
    join 0x9 (word "990" ∷ word "start" ∷ word "sid" ∷ word "/repo" ∷ word "a label" ∷ [] ∷ [])

some_session : is_empty (word "sid") ≡ false
unfolding word
some_session = refl

get-labels_by_session_example :
    get (word "sid") (labels_by_session nine_ninety (some history))
    ≡ last_label nine_ninety (word "sid") (split 0xa history)
get-labels_by_session_example = get-labels_by_session nine_ninety (word "sid") history some_session
