-- ===== src/Tests/Servers.antt =====
-- crates/tagents-core/src/mcp/rpc.rs and knowledge/join.rs: each theorem at one input.
use tagents.Prelude.{◌+◌, ◌≤◌, ◌≡◌, refl, false, none, some, [], ◌∷◌, ◌++◌, length, arith}
use tagents.Text.{strip_last}
use tagents.Text.Pieces.{drop}
use tagents.Utf8.{Bytes, from_utf8_lossy}
use tagents.Mcp.Framer.{Framer, taken, max_buffer, first_line, push, next_line}
use tagents.Mcp.Framer.Lines.{take_lines, pending, lines_from, receive, receive-lines_from}
use tagents.Knowledge.Join.{copied, input_ended, closed, Link, exited, relay, nothing_sent}
use tagents.Knowledge.Join.Replay.{Once, relay_lem}

-- A framer that holds an `a`, and the bytes of `b`, a return, a newline and a `c`.
abbrev held : Framer
held = record { buf = b'x' ∷ b'a' ∷ []; start = 1 }

abbrev chunk : Bytes
chunk = b'b' ∷ 0xd ∷ 0xa ∷ b'c' ∷ []

none_whole : first_line (pending held) ≡ none
unfolding first_line drop
none_whole = refl

fits : length (pending held) + length chunk ≤ max_buffer
unfolding drop
fits = omega arith

receive-lines_from_example :
    ((push chunk held).0 ≡ taken)
    × ((receive chunk held).0 ≡ (lines_from (pending held) chunk).0)
    × (pending (receive chunk held).1 ≡ (lines_from (pending held) chunk).1)
    × ((a b : Bytes)
        → chunk ≡ a ++ b
        → (lines_from (pending held) chunk).0
          ≡ (lines_from (pending held) a).0 ++ (lines_from (lines_from (pending held) a).1 b).0)
receive-lines_from_example = receive-lines_from held chunk none_whole fits

received : (receive chunk held).0 ≡ (b'a' ∷ b'b' ∷ []) ∷ []
unfolding receive take_lines drop push next_line from_utf8_lossy strip_last
received = refl

-- A server that leaves as the session arrives, and one that is there.
abbrev first_try : Link
first_try = record { steps = copied chunk ∷ []; ended = closed }

abbrev second_try : Link
second_try = record { steps = input_ended ∷ []; ended = closed }

relay_lem_example :
    Once first_try (relay (some first_try ∷ some second_try ∷ []) false nothing_sent).replays
relay_lem_example = relay_lem first_try (some second_try ∷ [])

relayed : (relay (some first_try ∷ some second_try ∷ []) false nothing_sent).session ≡ exited false
unfolding relay
relayed = refl
