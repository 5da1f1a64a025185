-- ===== src/Tests/Reading.antt =====
-- crates/tagents-core/src/notify/screen.rs and events.rs: each theorem at one input.
use tagents.Prelude.{
  ℕ, zero, suc, ◌<◌, ◌≡◌, ◌≢◌, refl, true, none, some, [], ◌∷◌, ◌++◌, length, arith,
}
use tagents.Text.{split, starts_with, all_chars, Text, word, text_eq}
use tagents.Text.Pieces.{drop, split_text, join_text}
use tagents.Exec.{ok}
use tagents.Utf8.{Bytes}
use tagents.Notify.Screen.{
  is_digits, decimal, select, Screen, screen, Client, most_active, Reading, real_of, parse_screen,
}
use tagents.Notify.Follower.{Disk, Pumping, cut, gained, pump}
use tagents.Dict.{get}
use tagents.Notify.Follower.Calls
use tagents.Notify.Follower.Calls.{Process, Follower}
use tagents.Notify.Follower.Ending.{Left, wake-Left}
use tagents.Notify.Follower.Count.{IsCounted, Restores, switch_in-Restores}
use tagents.Notify.Follower.Chunks.{gained-append}
use tagents.Notify.Follower.Whole.{IsReadable, start_of, pump-HasRead}

abbrev desk : Client
desk = record {
  activity = 7;
  pid = 70;
  window_id = word "@1";
  tty = word "t1";
  session = word "main";
}

abbrev laptop : Client
laptop = record {
  activity = 9;
  pid = 90;
  window_id = word "@2";
  tty = word "t2";
  session = word "main";
}

busiest : most_active (desk ∷ laptop ∷ []) ≡ some laptop
unfolding most_active
busiest = refl

abbrev reading : Reading
reading = record {
  pane = some (word "@1", word "a title");
  viewport_tty = [];
  clients = desk ∷ laptop ∷ [];
}

-- What tmux prints for a pane that one client of two shows.
abbrev printed : Text
printed =
    word "P|@|@1|@|a|@|b"
    ++ 0xa ∷ word "C|@|7|@|70|@|@1"
    ++ 0xa ∷ word "C|@|9|@|90|@|@2"
    ++ 0xa ∷ []

seen :
    parse_screen printed
    ≡ some (screen (record { visible = true; client_pid = some 70; pane_title = word "a|@|b" }))
unfolding parse_screen split word split_text starts_with text_eq is_digits all_chars decimal
    most_active join_text select real_of
seen = refl

-- A file of two bytes, read a byte at a time.
abbrev content : Bytes
content = 0xa ∷ b'x' ∷ []

abbrev first_of : Bytes → Bytes
first_of [] = b'?' ∷ []
first_of (b ∷ _) = b ∷ []

abbrev behind_first : Bytes → Bytes
behind_first [] = []
behind_first (_ ∷ bytes) = bytes

abbrev plain_disk : Disk (Unit {0})
plain_disk = record {
  open_file = λ w. (ok (1, 5, 2), w);
  size = λ _ w. (ok (length content), w);
  read_at = λ _ offset _ w. (ok (first_of (drop offset content)), w);
  named_inode = λ w. (some 5, w);
  rename = λ w. (ok tt, w);
  arm = λ w. (ok tt, w);
  arm_dir = λ w. (ok tt, w);
  dir_key = λ w. (word "/state", w);
  set_events_on = λ _ w. (ok tt, w);
  number = λ _. none;
}

split_first :
    (n : ℕ) (s : Bytes) → n < length s → drop n s ≡ first_of (drop n s) ++ behind_first (drop n s)
unfolding drop
split_first n [] h = absurd (omega (arith, h))
split_first zero (c ∷ s) h = refl
split_first (suc n) (c ∷ s) h = split_first n s (omega (arith, h))

first_of-ne-nil : (s : Bytes) → first_of s ≢ []
first_of-ne-nil [] = λ e. cc
first_of-ne-nil (c ∷ s) = λ e. cc

plain_disk-IsReadable : IsReadable plain_disk 1 content
plain_disk-IsReadable = record {
  told = λ w. refl;
  chunk = λ offset want w. first_of (drop offset content);
  rest = λ offset want w. behind_first (drop offset content);
  gives = λ offset want w h. refl;
  stands = λ offset want w h. split_first offset content h;
  some = λ offset want w. first_of-ne-nil (drop offset content);
}

abbrev started : Pumping (Unit {0})
started = record {
  cursor = record { file = 1; ino = 5; offset = 1; rest = b'a' ∷ [] };
  events = [];
  world = tt;
}

no_newline : cut (b'a' ∷ []) ≡ none
unfolding cut
no_newline = refl

pump-HasRead_example :
    let c = start_of plain_disk 1 content plain_disk-IsReadable started.cursor in
    let t = pump plain_disk started in
    let more = gained plain_disk.number c.rest (drop c.offset content) in
    (t.0 ≡ ok tt)
    × (t.1.events ≡ [] ++ more.0)
    × (t.1.cursor.rest ≡ more.1)
    × (cut more.1 ≡ none)
    × (t.1.cursor.offset ≡ length content)
pump-HasRead_example =
    pump-HasRead plain_disk 1 content plain_disk-IsReadable started refl no_newline

gained-append_example : gained (λ _. none) (b'a' ∷ []) ((0xa ∷ b'b' ∷ []) ++ (b'c' ∷ 0xa ∷ [])) ≡ (
  (gained (λ _. none) (b'a' ∷ []) (0xa ∷ b'b' ∷ [])).0
      ++ (gained
          (λ _. none)
          (gained (λ _. none) (b'a' ∷ []) (0xa ∷ b'b' ∷ [])).1
          (b'c' ∷ 0xa ∷ [])).0,
  (gained (λ _. none) (gained (λ _. none) (b'a' ∷ []) (0xa ∷ b'b' ∷ [])).1 (b'c' ∷ 0xa ∷ [])).1,
)
gained-append_example = gained-append (λ _. none) (b'a' ∷ []) (0xa ∷ b'b' ∷ []) (b'c' ∷ 0xa ∷ [])

abbrev follower : Follower
follower = record {
  inner = record { cur = started.cursor; grace = none; rotate_bytes = 2 };
  key = word "/state";
}

-- A follower whose file has reached the size of a rotation.
wake-Left_example :
    Left plain_disk 5
      (Calls.wake plain_disk 3 5 (some follower) (record { counted = []; world = tt })).0
wake-Left_example = wake-Left plain_disk 5 3 follower (record { counted = []; world = tt })

nothing-IsCounted : IsCounted []
unfolding get
nothing-IsCounted key count h = absurd (ground (arith, h))

switch_in-Restores_example :
    let s : Process (Unit {0}) = record { counted = []; world = tt } in
    Restores plain_disk s (Calls.switch_in plain_disk s).0 (Calls.switch_in plain_disk s).1
switch_in-Restores_example =
    switch_in-Restores plain_disk (record { counted = []; world = tt }) nothing-IsCounted
