-- ===== src/Notify/Follower/Drain.antt =====
-- crates/tagents-core/src/notify/events.rs: the drain, the rotation and the grace of a rotated file.
use tagents.Prelude.{
  ℕ, zero, suc, ◌+◌, Bool, true, false, ◌||◌, not, Option, none, some, [], ◌∷◌, ◌++◌, leb, ltb,
  ◌==◌, if◌then◌else◌,
}
use tagents.Text.{Text}
use tagents.Exec.{
  Exec, Result, ok, err, pure, gets, modify, ◌>>=◌, ◌>>◌, when, case_of, case_result,
}
use tagents.Notify.Engine.{Delivery}
use tagents.Notify.Follower.{Disk, Cursor, Grace, Inner, rotate_grace_ms, pump}

-- A call of an open follower under way: its files, what it found and the disk.
pub record Draining (W : Type 0) : Type 0 where
  pub inner : Inner
  pub out : Delivery
  pub world : W

-- How a drain ends: the file was read, the follower died, or the fuel ran out while the path kept naming
-- other files.
pub data Drained : Type 0 where
  done unfinished : Drained
  died : Text → Drained

abbrev pub is_some_grace : Option Grace → Bool
is_some_grace none = false
is_some_grace (some _) = true

abbrev pub names : Option ℕ → ℕ → Bool
names none ino = false
names (some other) ino = other == ino

abbrev cursor_of : ℕ × ℕ × ℕ → Bool → Cursor
cursor_of opened from_end = record {
  file = opened.0;
  ino = opened.1;
  offset = if from_end then opened.2 else 0;
  rest = [];
}

module _ {W A : Type 0} where
  unfoldable pub on_disk : (W → A × W) → Exec (Draining W) A
  on_disk f s = ((f s.world).0, record s { world = (f s.world).1 })

-- `out.errors.push`
unfoldable pub push_error : {W : Type 0} → Text → Exec (Draining W) (Unit {0})
push_error why s = (tt, record s { out = record s.out { errors = s.out.errors ++ why ∷ [] } })

module _ {W : Type 0} (d : Disk W) where
  -- `pump` of a cursor of the follower, whose new state it gives with the result.
  unfoldable pub pump_cursor : Cursor → Exec (Draining W) (Cursor × Result Text (Unit {0}))
  unfolding pump
  pump_cursor c s =
      let p = pump d (record { cursor = c; events = s.out.events; world = s.world }) in
      (
        (p.1.cursor, p.0),
        record s { out = record s.out { events = p.1.events }; world = p.1.world },
      )

  -- `open_cursor`
  unfoldable pub open_cursor : Bool → W → Result Text Cursor × W
  open_cursor from_end w = (
    (elim (d.open_file w).0 [ err why ↦ err why | ok opened ↦ ok (cursor_of opened from_end) ]),
    (d.open_file w).1,
  )

  -- A grace whose time is over.
  unfoldable pub finish_grace : Grace → Exec (Draining W) (Unit {0})
  finish_grace grace = do
    modify (λ s. record s { inner = record s.inner { grace = none } })
    read ← pump_cursor grace.cursor
    case_result read.1 push_error (λ _. pure tt)

  -- `Inner::end_grace`
  unfoldable pub end_grace : ℕ → Exec (Draining W) (Unit {0})
  end_grace now = do
    grace ← gets (λ s. s.inner.grace)
    case_of grace (pure tt) (λ grace. when (leb grace.due now) (finish_grace grace))

  -- The rest of `rotate` once the file has its other name and the fresh one is open.
  unfoldable pub turn_over : ℕ → Cursor → Exec (Draining W) (Result Text Bool)
  turn_over now fresh = do
    modify (λ s. record s {
      inner = record s.inner {
        cur = fresh;
        grace = some (record { cursor = s.inner.cur; due = now + rotate_grace_ms });
      };
    })
    armed ← on_disk d.arm
    case_result armed (λ why. pure (err why)) (λ _. pure (ok true))

  -- `Inner::rotate`; an error is a death.
  unfoldable pub rotate : ℕ → Exec (Draining W) (Result Text Bool)
  rotate now = do
    renamed ← on_disk d.rename
    case_result renamed (λ why. do push_error why; pure (ok false))
        (λ _. do
          fresh ← on_disk (open_cursor false)
          case_result fresh (λ why. pure (err why)) (turn_over now))

  -- The path names another file, which is followed from its start.
  unfoldable pub reopen : Exec (Draining W) (Result Text (Unit {0}))
  reopen = do
    fresh ← on_disk (open_cursor false)
    case_result fresh (λ why. pure (err why))
        (λ cursor. do
          modify (λ s. record s { inner = record s.inner { cur = cursor } })
          on_disk d.arm)

  -- The size is reached, and no rotated file is open.
  unfoldable pub is_full : Inner → Bool
  is_full inner = not (ltb inner.cur.offset inner.rotate_bytes || is_some_grace inner.grace)

  -- One round of the loop of `drain`: how the call ends, or none when it goes on.
  unfoldable pub round : ℕ → Exec (Draining W) (Option Drained)
  round now = do
    cur ← gets (λ s. s.inner.cur)
    read ← pump_cursor cur
    modify (λ s. record s { inner = record s.inner { cur = read.0 } })
    case_result read.1 (λ why. do push_error why; pure (some done))
        (λ _. do
          named ← on_disk d.named_inode
          same ← gets (λ s. names named s.inner.cur.ino)
          if not same
              then (do
                reopened ← reopen
                case_result reopened (λ why. pure (some (died why))) (λ _. pure none))
              else (do
                full ← gets (λ s. is_full s.inner)
                if not full then pure (some done) else (do
                  rotated ← rotate now
                  case_result rotated (λ why. pure (some (died why)))
                      (λ fresh. pure (if fresh then none else some done)))))

  -- `Inner::drain`
  unfoldable pub drain : ℕ → ℕ → Exec (Draining W) Drained
  drain zero now = pure unfinished
  drain (suc fuel) now = do ended ← round now; case_of ended (drain fuel now) pure

  -- `Inner::wake`
  unfoldable pub inner_wake : ℕ → ℕ → Exec (Draining W) Drained
  inner_wake fuel now = do end_grace now; drain fuel now
