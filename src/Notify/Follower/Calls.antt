-- ===== src/Notify/Follower/Calls.antt =====
-- crates/tagents-core/src/notify/events.rs: the follower as the feed calls it, and the count of the
-- followers of a directory.
use tagents.Prelude.{
  ℕ, ◌+◌, ◌-◌, true, false, Option, none, some, List, [], ◌∷◌, ◌++◌, ltb, if◌then◌else◌,
}
use tagents.Text.{Text}
use tagents.Dict.{Dict, get, insert, remove}
use tagents.Exec.{Exec, Result, ok, err, pure, gets, modify, ◌>>=◌, ◌>>◌, case_of, case_result}
use tagents.Notify.Engine.{Delivery}
use tagents.Notify.Follower.{Disk, Cursor, Grace, Inner}
use tagents.Notify.Follower.Drain.{
  Drained, done, unfinished, died, open_cursor, end_grace, inner_wake,
}

-- The process: the count of the followers by directory, and the disk.
pub record Process (W : Type 0) : Type 0 where
  pub counted : Dict ℕ
  pub world : W

-- A `Follower`: its files and the key that it is counted under, or nothing once it is closed.
pub record Follower : Type 0 where
  pub inner : Inner
  pub key : Text

abbrev pub no_delivery : Delivery
no_delivery = record { events = []; errors = []; death = none }

module _ {W A : Type 0} where
  unfoldable pub ask_disk : (W → A × W) → Exec (Process W) A
  ask_disk f s = ((f s.world).0, record s { world = (f s.world).1 })

abbrev pub count_or_one : Option ℕ → ℕ
count_or_one none = 1
count_or_one (some count) = count

abbrev pub err_of : Result Text (Unit {0}) → Option Text
err_of (ok _) = none
err_of (err why) = some why

module _ {W : Type 0} (d : Disk W) where
  -- The count of the directory is written.
  unfoldable pub count_in : Text → ℕ → Exec (Process W) (Result Text Text)
  count_in key count = do
    modify (λ s. record s { counted = insert key count s.counted })
    pure (ok key)

  -- The first follower of the directory turns the switch on.
  unfoldable pub first_in : Text → Result Text (Unit {0}) → Exec (Process W) (Result Text Text)
  first_in key made = case_result made (λ why. pure (err why)) (λ _. count_in key 1)

  -- `switch_in`
  unfoldable pub switch_in : Exec (Process W) (Result Text Text)
  switch_in = do
    key ← ask_disk d.dir_key
    held ← gets (λ s. get key s.counted)
    case_of held (do made ← ask_disk (d.set_events_on true); first_in key made)
        (λ count. count_in key (count + 1))

  -- `switch_out`: the last follower of the directory turns it off.
  unfoldable pub switch_out : Text → Exec (Process W) (Option Text)
  switch_out key = do
    left ← gets (λ s. count_or_one (get key s.counted) - 1)
    if ltb 0 left
        then (do modify (λ s. record s { counted = insert key left s.counted }); pure none)
        else (do
          modify (λ s. record s { counted = remove key s.counted })
          removed ← ask_disk (d.set_events_on false)
          pure (err_of removed))

  -- `shutdown` and `close`
  unfoldable pub close : Option Follower → Exec (Process W) (Option Follower × Option Text)
  close none = pure (none, none)
  close (some follower) = do why ← switch_out follower.key; pure (none, why)

  abbrev pub texts : Option Text → List Text
  texts none = []
  texts (some why) = why ∷ []

  -- A death closes the follower.
  unfoldable pub dead : Follower → Delivery → Text → Exec (Process W) (Option Follower × Delivery)
  dead follower out why = do
    closed ← close (some follower)
    pure (none, record out { errors = out.errors ++ texts closed.1; death = some why })

  -- What a drain leaves of the follower.
  unfoldable pub settle :
      Follower → Delivery → Drained → Exec (Process W) (Option (Option Follower × Delivery))
  settle follower out done s = (some (some follower, out), s)
  settle follower out unfinished s = (none, s)
  settle follower out (died why) s = (some (dead follower out why s).0, (dead follower out why s).1)

  -- `wake`; a path that names another file in every round of the fuel is a call that has not ended.
  unfoldable pub wake :
      ℕ → ℕ → Option Follower → Exec (Process W) (Option (Option Follower × Delivery))
  wake fuel now none s = (some (none, no_delivery), s)
  wake fuel now (some follower) s =
      let ran =
        inner_wake d fuel now
          (record { inner = follower.inner; out = no_delivery; world = s.world }) in
      settle (record follower { inner = ran.1.inner }) ran.1.out ran.0
        (record s { world = ran.1.world })

  -- `Follower::end_grace`
  unfoldable pub finish : ℕ → Option Follower → Exec (Process W) (Option Follower × Delivery)
  finish now none s = ((none, no_delivery), s)
  finish now (some follower) s =
      let ran =
        end_grace d now (record { inner = follower.inner; out = no_delivery; world = s.world }) in
      (
        (some (record follower { inner = ran.1.inner }), ran.1.out),
        record s { world = ran.1.world },
      )

  -- `due`
  abbrev pub due_at : Option Grace → Option ℕ
  due_at none = none
  due_at (some grace) = some grace.due

  unfoldable pub due : Option Follower → Option ℕ
  due none = none
  due (some follower) = due_at follower.inner.grace

  -- The rest of `start_with`, once the file is open.
  unfoldable pub begin_following :
      ℕ → ℕ → ℕ → Cursor → Exec (Process W) (Result Text (Option (Option Follower × Delivery)))
  begin_following fuel now rotate_bytes cur = do
    dir ← ask_disk d.arm_dir
    case_result dir (λ why. pure (err why))
        (λ _. do
          file ← ask_disk d.arm
          case_result file (λ why. pure (err why))
              (λ _. do
                switched ← switch_in
                case_result switched (λ why. pure (err why))
                    (λ key. do
                      let inner : Inner = record {
                        cur = cur;
                        grace = none;
                        rotate_bytes = rotate_bytes;
                      }
                      first ← wake fuel now (some (record { inner = inner; key = key }))
                      pure (ok first))))

  -- `start_with`
  unfoldable pub start_with :
      ℕ → ℕ → ℕ → Exec (Process W) (Result Text (Option (Option Follower × Delivery)))
  start_with fuel now rotate_bytes = do
    opened ← ask_disk (open_cursor d true)
    case_result opened (λ why. pure (err why)) (begin_following fuel now rotate_bytes)
