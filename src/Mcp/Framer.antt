-- ===== src/Mcp/Framer.antt =====
-- crates/tagents-core/src/mcp/rpc.rs: `Framer`, which cuts a stream of bytes into lines.
use tagents.Prelude.{
  ℕ, zero, suc, ◌+◌, ◌*◌, Bool, true, false, Option, none, some, List, [], ◌∷◌, ◌++◌, ltb, ◌==◌,
  length, if◌then◌else◌,
}
use tagents.Text.{Text, strip_last}
use tagents.Text.Pieces.{drop}
use tagents.Utf8.{Bytes, from_utf8_lossy}
use tagents.Exec.{Result, ok, err}
pub mod Lines

-- `MAX_BUFFER`
abbrev pub max_buffer : ℕ
max_buffer = 10 * 1024 * 1024

pub record Framer : Type 0 where
  pub buf : Bytes
  pub start : ℕ

-- `Overflow`
pub data Pushed : Type 0 where
  taken overflow : Pushed

-- `rest.iter().position(|&b| b == b'\\n')`, with the bytes before and behind it
unfoldable pub first_line : Bytes → Option (Bytes × Bytes)
first_line [] = none
first_line (b ∷ bytes) =
    let rest = first_line bytes in
    if b == 0xa
    then some ([], bytes)
    else (elim rest [ none ↦ none | some (line, more) ↦ some (b ∷ line, more) ])

-- `Framer::push`
unfoldable pub push : Bytes → Framer → Pushed × Framer
push chunk f =
    let kept = drop f.start f.buf in
    if ltb max_buffer (length kept + length chunk)
    then (overflow, record { buf = []; start = zero })
    else (taken, record { buf = kept ++ chunk; start = zero })

-- `Framer::next_line`
unfoldable pub next_line : Framer → Option Text × Framer
unfolding first_line
next_line f = elim (first_line (drop f.start f.buf)) [
  | none ↦ (none, f)
  | some (line, more) ↦ (
    some (from_utf8_lossy (strip_last 0xd line)),
    record f { start = f.start + suc (length line) },
  )
]
