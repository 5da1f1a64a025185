-- ===== src/Notify/Engine/Post.antt =====
-- crates/tagents-core/src/notify/engine.rs: how a notice is made, posted and taken down.
use tagents.Prelude.{
  ℕ, ◌++◌, Bool, true, false, ◌&&◌, not, Option, none, some, List, [], ◌∷◌, if◌then◌else◌,
}
use tagents.Text.{Text, word, is_empty}
use tagents.Dict.{get, insert, remove, member, discard, add}
use tagents.Exec.{Exec, Result, pure, gets, modify, ◌>>=◌, ◌>>◌, when, case_result}
use tagents.Notify.Event.{AgentHookEvent, AgentEvent}
use tagents.Notify.Kinds.{NoticeKind, question, cache_expiring, kind_eq, as_str}
use tagents.Notify.Options.{Click, dock, goto, focus}
use tagents.Notify.Rows.{read_labels}
use tagents.Notify.Compose.{Extra, agent_name, needs_answer, compose}
use tagents.Notify.Screen.{Screen, ScreenAnswer, screen, no_such_pane}
use tagents.Notify.Notifier.{ClickAction, Notice, PostResult}
use tagents.Notify.Engine.{Deps, Engine, effect, record_action, say, posted, withdrew}

-- `CLICK_ENV`
abbrev pub click_env : List Text
click_env =
    word "PATH"
    ∷ word "HOME"
    ∷ word "LANG"
    ∷ word "LC_ALL"
    ∷ word "LC_CTYPE"
    ∷ word "TMUX_TMPDIR"
    ∷ word "TA_STATE_DIR"
    ∷ word "TAGENTS_CONFIG_DIR"
    ∷ word "XDG_CONFIG_HOME"
    ∷ word "TA_CONFIG"
    ∷ []

-- The variables of the list that are set to something, in its order.
unfoldable pub picked_env : List Text → List (Text × Text) → List (Text × Text)
picked_env [] env = []
picked_env (name ∷ names) env =
    let rest = picked_env names env in
    elim (get name env) [
      | none ↦ rest
      | some value ↦ if is_empty value then rest else (name, value) ∷ rest
    ]

unfoldable pub argv_for : Click → AgentEvent → Text → List Text
argv_for focus e tagents_path = []
argv_for goto e tagents_path = tagents_path ∷ word "--goto" ∷ e.pane ∷ []
argv_for dock e tagents_path =
    tagents_path ∷ word "--act" ∷ word "open" ∷ e.pane ∷ word "live" ∷ e.session_id ∷ e.cwd ∷ []

unfoldable pub click_for : AgentEvent → Click → Text → List (Text × Text) → ClickAction
unfolding picked_env argv_for
click_for e mode tagents_path env = record {
  argv = if is_empty e.pane then [] else argv_for mode e tagents_path;
  env = picked_env click_env env;
}

unfoldable pub notice_id : Text → Text
notice_id key = word "tagents-" ++ key

-- `seen == Some(ScreenAnswer::NoSuchPane)`
unfoldable pub is_gone : Option ScreenAnswer → Bool
is_gone (some no_such_pane) = true
is_gone _ = false

unfoldable pub screen_of : Option ScreenAnswer → Option Screen
screen_of (some (screen s)) = some s
screen_of _ = none

abbrev title_of : Option Screen → Text
title_of none = []
title_of (some s) = s.pane_title

abbrev pid_of : Option Screen → Option ℕ
pid_of none = none
pid_of (some s) = s.client_pid

abbrev visible_of : Option Screen → Bool
visible_of none = false
visible_of (some s) = s.visible

-- Only a question of the question tools gets an answer, and a prompt that it may hold back.
unfoldable pub is_tool_question : NoticeKind → AgentHookEvent → Bool
is_tool_question question AgentHookEvent.pre_tool_use = true
is_tool_question _ _ = false

unfoldable pub outcome_of : PostResult → Text
outcome_of result = if result.shown then word "shown" else elim result.why [
  | none ↦ word "dropped"
  | some why ↦ if is_empty why then word "dropped" else word "dropped: " ++ why
]

abbrev is_nil : List Text → Bool
is_nil [] = true
is_nil (_ ∷ _) = false

module _ {W : Type 0} (d : Deps W) where
  -- A call of the notifier's `withdraw`, kept in the trace.
  unfoldable pub notifier_withdraw : Text → Exec (Engine W) (Result Text (Unit {0}))
  notifier_withdraw id = do
    result ← effect (d.withdraw id)
    record_action (withdrew id result)
    pure result

  -- A call of the notifier's `post`, kept in the trace.
  unfoldable pub notifier_post : Notice → Exec (Engine W) (Result Text PostResult)
  notifier_post notice = do
    result ← effect (d.post notice)
    record_action (posted notice result)
    pure result

  unfoldable pub take_down : Text → Exec (Engine W) (Unit {0})
  take_down id = do
    up ← gets (λ s. s.up)
    when (member id up) (do
      modify (λ s. record s { up = discard id s.up })
      result ← notifier_withdraw id
      case_result result (λ why. say (word "withdraw failed" ∷ id ∷ why ∷ []))
          (λ _. say (word "withdraw" ∷ id ∷ [])))

  unfoldable pub probe : Text → Exec (Engine W) (Option ScreenAnswer)
  probe pane = if is_empty pane then pure none else do
    answer ← effect (d.screen pane)
    case_result answer (λ why. do say (word "screen probe failed" ∷ pane ∷ why ∷ []); pure none)
        (λ seen. pure seen)

  unfoldable pub assemble :
      NoticeKind → AgentEvent → Extra → Bool → Option Screen → Exec (Engine W) Notice
  assemble kind e extra skip_visible seen = do
    hostname ← effect d.hostname
    labels ← effect (d.state_file (word "labels.tsv"))
    let name = agent_name (record {
      session_id = e.session_id;
      pane = e.pane;
      pane_title = title_of seen;
      label = e.label;
      cwd = e.cwd;
      hostname = hostname;
      labels = read_labels labels;
    })
    answer ← if needs_answer kind e then effect (d.last_answer e.transcript) else pure []
    let composed = compose kind e name extra d.phrases answer
    options ← gets (λ s. s.options)
    pure (record {
      id = notice_id e.key;
      thread = e.session_id;
      kind = kind;
      title = composed.title;
      subtitle = composed.subtitle;
      body = composed.body;
      click = click_for e options.click d.tagents_path d.env;
      terminal_pid = pid_of seen;
      skip_if_frontmost = if skip_visible && visible_of seen then some true else none;
    })

  -- The failures of a backend that works again are forgotten.
  unfoldable pub clear_failures : Exec (Engine W) (Unit {0})
  clear_failures = do
    failures ← gets (λ s. s.post_failures)
    when (not (is_nil failures))
        (do modify (λ s. record s { post_failures = [] }); say (word "posting works again" ∷ []))

  -- A notice that is shown is up, and a question of the question tools waits for its answer.
  unfoldable pub put_up : NoticeKind → AgentEvent → Bool → Text → Exec (Engine W) (Unit {0})
  put_up kind e pane_gone id = do
    modify (λ s. record s { up = add id s.up })
    when (is_tool_question kind e.event && not pane_gone)
        (modify (λ s. record s { questions = insert e.key e.at s.questions }))

  -- What follows a post that the backend answered for.
  unfoldable pub answered :
      NoticeKind → AgentEvent → Bool → Notice → PostResult → Exec (Engine W) Bool
  answered kind e pane_gone notice result = do
    clear_failures
    when result.shown (put_up kind e pane_gone notice.id)
    say (word "notice" ∷ as_str kind ∷ e.key ∷ d.quote notice.title ∷ outcome_of result ∷ [])
    when (not result.shown) (take_down notice.id)
    pure true

  -- What follows a post that failed: each message is logged once.
  unfoldable pub refused : NoticeKind → AgentEvent → Text → Exec (Engine W) Bool
  refused kind e why = do
    failures ← gets (λ s. s.post_failures)
    when (not (member why failures)) (do
      modify (λ s. record s { post_failures = add why s.post_failures })
      say (word "post failed" ∷ as_str kind ∷ e.key ∷ why ∷ []))
    pure false

  -- The end of `post`, for a pane that a notice may go up for.
  unfoldable pub deliver :
      NoticeKind → AgentEvent → Extra → Bool → Option ScreenAnswer → Exec (Engine W) Bool
  deliver kind e extra skip_visible seen = do
    notice ← assemble kind e extra skip_visible (screen_of seen)
    result ← notifier_post notice
    case_result result (refused kind e) (answered kind e (is_gone seen) notice)

  unfoldable pub post : NoticeKind → AgentEvent → Extra → Bool → Exec (Engine W) Bool
  post kind e extra skip_visible = do
    seen ← probe e.pane
    when (is_gone seen) (modify (λ s. record s { questions = remove e.key s.questions }))
    if is_gone seen && kind_eq kind cache_expiring
        then (do
          say (
              word "notice"
              ∷ as_str kind
              ∷ e.key
              ∷ (word "skipped: tmux has no pane " ++ e.pane)
              ∷ [])
          pure false)
        else deliver kind e extra skip_visible seen
