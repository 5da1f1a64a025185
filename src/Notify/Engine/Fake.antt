-- ===== src/Notify/Engine/Fake.antt =====
-- A scripted world for the engine, as the source's tests have one: a clock that stands, a feed with a
-- first delivery and a list of later ones, and a backend that shows every notice.
use tagents.Prelude.{ℕ, Bool, true, false, none, List, [], ◌∷◌}
use tagents.Text.{Text, word}
use tagents.Exec.{Result, ok}
use tagents.Notify.Event.{AgentHookEvent, AgentEvent}
use tagents.Notify.Options
use tagents.Notify.Rows.{AgentStateRow}
use tagents.Notify.Phrases.{en, phrases_for}
use tagents.Notify.Engine.{Deps, Engine, Delivery}
use tagents.Notify.Engine.Calls.{new}

pub record World : Type 0 where
  pub clock : ℕ
  pub rows : List AgentStateRow
  pub first : Result Text Delivery
  pub later : List Delivery
  pub shows : Bool

abbrev quiet : Delivery
quiet = record { events = []; errors = []; death = none }

abbrev next_delivery : World → Delivery × World
next_delivery w = elim w.later [ [] ↦ (quiet, w) | x ∷ xs ↦ (x, record w { later = xs }) ]

abbrev pub fake : Deps World
fake = record {
  now_ms = λ w. (w.clock, w);
  states = λ w. (w.rows, w);
  feed_start = λ _ w. (w.first, w);
  feed_wake = λ _ w. next_delivery w;
  feed_end_grace = λ _ w. (quiet, w);
  feed_due = λ w. (none, w);
  feed_close = λ w. (none, w);
  post = λ _ w. (ok (record { shown = w.shows; why = none }), w);
  withdraw = λ _ w. (ok tt, w);
  screen = λ _ w. (ok none, w);
  hostname = λ w. (word "host", w);
  state_file = λ _ w. (none, w);
  last_answer = λ _ w. ([], w);
  is_stopped = λ w. (false, w);
  tagents_path = word "/bin/tagents";
  env = [];
  phrases = phrases_for en;
  number = λ _. none;
  quote = λ text. text;
}

abbrev pub blank : AgentHookEvent → Text → ℕ → AgentEvent
blank event key at = record {
  at = at;
  event = event;
  key = key;
  session_id = word "sid";
  agent_id = [];
  pane = [];
  cwd = word "/repo";
  transcript = [];
  config_dir = [];
  tool = [];
  sub = [];
  text = word "hello";
  label = [];
}

abbrev pub world : List AgentEvent → World
world es = record {
  clock = 1_000_000;
  rows = [];
  first = ok quiet;
  later = record { events = es; errors = []; death = none } ∷ [];
  shows = true;
}

abbrev pub fresh : List AgentEvent → Engine World
fresh es = new Options.default (world es)
