-- ===== src/Notify/Screen.antt =====
-- crates/tagents-core/src/notify/screen.rs: what tmux says of a pane, and how its answer is read.
use tagents.Prelude.{
  ℕ, suc, ◌+◌, ◌-◌, ◌*◌, ◌^◌, Bool, true, false, ◌&&◌, not, Option, none, some, List, [], ◌∷◌, ◌++◌,
  leb, ltb, ◌==◌, if◌then◌else◌,
}
use tagents.Text.{Text, word, text_eq, is_empty, all_chars, is_ascii_digit, split}
use tagents.Text.Pieces.{split_text, join_text}
pub mod Visible

pub record Screen : Type 0 where
  pub visible : Bool
  pub client_pid : Option ℕ
  pub pane_title : Text

pub data ScreenAnswer : Type 0 where
  screen : Screen → ScreenAnswer
  no_such_pane : ScreenAnswer

-- `SEP`
abbrev pub sep : Text
sep = b'|' ∷ b'@' ∷ b'|' ∷ []

-- `DASHBOARD_SESSION`
unfoldable pub dashboard_session : Text
dashboard_session = word "tagents"

pub record Client : Type 0 where
  pub activity : ℕ
  pub pid : ℕ
  pub window_id : Text
  pub tty : Text
  pub session : Text

-- `/^\d+$/`: ASCII digits only, and at least one.
unfoldable pub is_digits : Text → Bool
is_digits text = not (is_empty text) && all_chars is_ascii_digit text

-- The number that digits write, from the number before them.
unfoldable pub decimal : ℕ → Text → ℕ
decimal so_far [] = so_far
decimal so_far (c ∷ s) = decimal (so_far * 10 + (c - b'0')) s

-- The client with the greatest activity, the first of equals, from the best so far.
unfoldable pub more_active : Option Client → List Client → Option Client
more_active best [] = best
more_active none (c ∷ clients) = more_active (some c) clients
more_active (some b) (c ∷ clients) =
    more_active (some (if ltb b.activity c.activity then c else b)) clients

unfoldable pub most_active : List Client → Option Client
unfolding more_active
most_active clients = more_active none clients

-- What `parse_screen` has read so far.
pub record Reading : Type 0 where
  pub pane : Option (Text × Text)
  pub viewport_tty : Text
  pub clients : List Client

-- A client line: its activity and pid are digits, and the pid is a `u32`.
unfoldable pub add_client : Text → Text → Text → Text → Text → Reading → Reading
add_client activity pid window_id tty session r =
    if is_digits activity && is_digits pid && ltb (decimal 0 pid) (2 ^ 32)
    then record r {
      clients =
          r.clients
          ++ record {
            activity = decimal 0 activity;
            pid = decimal 0 pid;
            window_id = window_id;
            tty = tty;
            session = session;
          }
            ∷ [];
    }
    else r

-- The first pane line counts.
abbrev pub or_pane : Text → Text → Option (Text × Text) → Option (Text × Text)
or_pane window_id title none = some (window_id, title)
or_pane window_id title (some pane) = some pane

unfoldable pub read_fields : List Text → Reading → Reading
unfolding add_client
read_fields (kind ∷ a ∷ []) r = if text_eq kind (word "V") then record r { viewport_tty = a } else r
read_fields (kind ∷ a ∷ b ∷ rest) r =
    if text_eq kind (word "P")
    then record r { pane = or_pane a (join_text sep (b ∷ rest)) r.pane }
    else if text_eq kind (word "C")
    then client rest
    else r
  where
    client : List Text → Reading
    client (window_id ∷ []) = add_client a b window_id [] [] r
    client (window_id ∷ tty ∷ session ∷ []) = add_client a b window_id tty session r
    client _ = r
read_fields _ r = r

unfoldable pub read_lines : List Text → Reading → Reading
unfolding read_fields
read_lines [] r = r
read_lines (line ∷ lines) r = read_lines lines (read_fields (split_text sep line) r)

abbrev pub nothing_read : Reading
nothing_read = record { pane = none; viewport_tty = []; clients = [] }

unfoldable pub select : (Client → Bool) → List Client → List Client
select p [] = []
select p (c ∷ clients) = let rest = select p clients in if p c then c ∷ rest else rest

-- The first client on the terminal of the viewport.
unfoldable pub viewport_in : Text → List Client → Option Client
viewport_in tty [] = none
viewport_in tty (c ∷ clients) =
    let rest = viewport_in tty clients in if text_eq c.tty tty then some c else rest

-- The clients without that one.
unfoldable pub without_viewport : Text → List Client → List Client
without_viewport tty [] = []
without_viewport tty (c ∷ clients) =
    let rest = without_viewport tty clients in if text_eq c.tty tty then clients else c ∷ rest

-- No viewport has the empty terminal.
unfoldable pub viewport_of : Text → List Client → Option Client
unfolding viewport_in
viewport_of tty clients = if is_empty tty then none else viewport_in tty clients

unfoldable pub real_of : Text → List Client → List Client
unfolding without_viewport
real_of tty clients = if is_empty tty then clients else without_viewport tty clients

abbrev pub or_client : Option Client → Option Client → Option Client
or_client none other = other
or_client (some c) other = some c

abbrev pub pid_of : Option Client → Option ℕ
pid_of none = none
pid_of (some c) = some c.pid

abbrev pub is_client : Option Client → Bool
is_client none = false
is_client (some _) = true

abbrev pub in_window : Text → Client → Bool
in_window window_id c = text_eq c.window_id window_id

abbrev pub in_dashboard : Client → Bool
in_dashboard c = text_eq c.session dashboard_session

-- Through the viewport: the most active terminal of the dashboard, when the viewport shows the window.
unfoldable pub through_viewport : Text → Option Client → List Client → Option Client
through_viewport window_id none real = none
through_viewport window_id (some viewport) real =
    if in_window window_id viewport then most_active (select in_dashboard real) else none

unfoldable pub showing_of : Text → Option Client → List Client → Option Client
unfolding through_viewport
showing_of window_id viewport real =
    or_client (most_active (select (in_window window_id) real))
      (through_viewport window_id viewport real)

unfoldable pub answer_of : Text → Text → Reading → ScreenAnswer
unfolding showing_of
answer_of window_id title r =
    if is_empty window_id
    then no_such_pane
    else (let real = real_of r.viewport_tty r.clients in
        let showing = showing_of window_id (viewport_of r.viewport_tty r.clients) real in
        screen (record {
          visible = is_client showing;
          client_pid = pid_of (or_client showing (most_active real));
          pane_title = title;
        }))

unfoldable pub parse_screen : Text → Option ScreenAnswer
unfolding read_lines answer_of
parse_screen out =
    let r = read_lines (split 0xa out) nothing_read in
    elim r.pane [ none ↦ none | some (window_id, title) ↦ some (answer_of window_id title r) ]
