-- ===== src/Notify/Follower/Ending.antt =====
-- crates/tagents-core/src/notify/events.rs: the proofs on the grace of a rotated file and the death of a follower.
use tagents.Prelude.{
  ℕ, zero, suc, ◌+◌, ◌<◌, ◌≡◌, ◌≢◌, refl, sym, subst, Option, none, some, leb, arith, Bool-cases,
  inl, inr,
}
use tagents.Text.{Text}
use tagents.Exec.{
  Result, pure, gets, modify, ◌>>=◌, when, case_of, case_result, Keeps, Keeps-modify, keeps_rules,
}
use tagents.Notify.Engine.{Delivery}
use tagents.Notify.Follower.{Disk, Cursor, Grace, rotate_grace_ms}
use tagents.Notify.Follower.Drain
use tagents.Notify.Follower.Drain.{Draining, Drained, done, unfinished, died, on_disk, push_error}
use tagents.Notify.Follower.Calls
use tagents.Notify.Follower.Calls.{Process, Follower, no_delivery, dead}

-- The grace ends after the time.
abbrev pub InFuture : ℕ → Option Grace → Type 0
InFuture now none = Unit
InFuture now (some grace) = now < grace.due

-- No death is told yet, and the end of a grace is still to come.
record Going {W : Type 0} (now : ℕ) (s : Draining W) : Type 0 where
  alive : s.out.death ≡ none
  future : InFuture now s.inner.grace

module _ {W A : Type 0} (now : ℕ) where
  asking-Going : (f : W → A × W) → Keeps (Going now) (on_disk f)
  unfolding on_disk
  asking-Going f = record { at = λ s h. record { alive = h.alive; future = h.future } }

module _ {W : Type 0} (d : Disk W) (now : ℕ) where
  failing-Going : (why : Text) → Keeps (Going {W = W} now) (push_error why)
  unfolding push_error
  failing-Going why = record { at = λ s h. record { alive = h.alive; future = h.future } }

  reading-Going : (c : Cursor) → Keeps (Going now) (Drain.pump_cursor d c)
  unfolding Drain.pump_cursor
  reading-Going c = record { at = λ s h. record { alive = h.alive; future = h.future } }

  moving-Going :
      (f : Draining W → Cursor)
      → Keeps (Going now) (modify (λ s. record s { inner = record s.inner { cur = f s } }))
  moving-Going f = Keeps-modify _ (λ s h. record { alive = h.alive; future = h.future })

  turning-Going :
      (fresh : Cursor)
      → Keeps (Going {W = W} now) (
          modify (λ s. record s {
            inner = record s.inner {
              cur = fresh;
              grace = some (record { cursor = s.inner.cur; due = now + rotate_grace_ms });
            };
          }))
  turning-Going fresh = Keeps-modify _ (λ s h. record { alive = h.alive; future = omega arith })

  turn_over-Going : (fresh : Cursor) → Keeps (Going now) (Drain.turn_over d now fresh)
  unfolding Drain.turn_over
  turn_over-Going fresh = search (keeps_rules, turning-Going, asking-Going now) depth 10

  rotate-Going : Keeps (Going now) (Drain.rotate d now)
  unfolding Drain.rotate
  rotate-Going = search (keeps_rules, asking-Going now, failing-Going, turn_over-Going) depth 12

  moved-Going :
      (c : Cursor)
      → Keeps (Going {W = W} now) (modify (λ s. record s { inner = record s.inner { cur = c } }))
  moved-Going c = moving-Going (λ _. c)

  reopen-Going : Keeps (Going now) (Drain.reopen d)
  unfolding Drain.reopen
  reopen-Going = search (keeps_rules, asking-Going now, moved-Going) depth 12

  round-Going : Keeps (Going now) (Drain.round d now)
  unfolding Drain.round
  round-Going =
      search
        (
          keeps_rules,
          reading-Going,
          moved-Going,
          failing-Going,
          asking-Going now,
          reopen-Going,
          rotate-Going,
        )
        depth 20

  drain-Going : (fuel : ℕ) → Keeps (Going now) (Drain.drain d fuel now)
  unfolding Drain.drain
  drain-Going zero = search keeps_rules
  drain-Going (suc fuel) = let ih = drain-Going fuel in search (keeps_rules, round-Going) depth 8

  telling :
      (r : Result Text (Unit {0}))
      → Keeps (Going {W = W} now) (case_result r push_error (λ _. pure tt))
  telling r = search (keeps_rules, failing-Going)

  -- A grace whose time is over is finished first.
  finish_grace-Going :
      (g : Grace) (s : Draining W) → s.out.death ≡ none → Going now (Drain.finish_grace d g s).1
  unfolding Drain.finish_grace modify ◌>>=◌
  finish_grace-Going g s h =
      (telling
          (Drain.pump_cursor d g.cursor
            (record s { inner = record s.inner { grace = none } })).0.1).at
        _
        ((reading-Going g.cursor).at (record s { inner = record s.inner { grace = none } })
          (record { alive = h; future = tt }))

  end_grace-Going : (s : Draining W) → s.out.death ≡ none → Going now (Drain.end_grace d now s).1
  unfolding Drain.end_grace gets pure ◌>>=◌
  end_grace-Going s h = ending s.inner.grace refl
    where
      ending :
          (o : Option Grace)
          → s.inner.grace ≡ o
          → Going now
              (case_of o
                (pure tt)
                (λ grace. when (leb grace.due now) (Drain.finish_grace d grace))
                s).1
      ending none e = record { alive = h; future = subst (InFuture now) (sym e) tt }
      ending (some g) e = elim (Bool-cases (leb g.due now)) [
        | inl over ↦ rw over (finish_grace-Going g s h)
        | inr early ↦
            rw early
              (record { alive = h; future = subst (InFuture now) (sym e) (ground (arith, early)) })
      ]

  inner_wake-Going :
      (fuel : ℕ) (s : Draining W) → s.out.death ≡ none → Going now (Drain.inner_wake d fuel now s).1
  unfolding Drain.inner_wake ◌>>=◌
  inner_wake-Going fuel s h = (drain-Going fuel).at _ (end_grace-Going s h)

  -- What a call leaves: an open follower whose grace is still to come and that told no death, or a closed
  -- one that told its death.
  abbrev pub Left : Option (Option Follower × Delivery) → Type 0
  Left none = Unit
  Left (some (some follower, out)) = InFuture now follower.inner.grace × (out.death ≡ none)
  Left (some (none, out)) = out.death ≢ none

  dead-Left :
      (follower : Follower) (out : Delivery) (why : Text) (t : Process W)
      → Left (some (dead d follower out why t).0)
  unfolding dead Calls.close pure ◌>>=◌
  dead-Left follower out why t = λ e. cc

  settle-Left :
      (follower : Follower) (r : Drained) (t : Draining W) (s : Process W)
      → Going now t
      → Left (Calls.settle d (record follower { inner = t.inner }) t.out r s).0
  unfolding Calls.settle
  settle-Left follower done t s going = (going.future, going.alive)
  settle-Left follower unfinished t s going = tt
  settle-Left follower (died why) t s going =
      dead-Left (record follower { inner = t.inner }) t.out why s

  -- A wake of an open follower that ends leaves it open exactly when it tells no death. The grace of a
  -- rotated file that is open then ends after the time of the wake, so that the engine is not asked to
  -- end it at once.
  pub wake-Left :
      (fuel : ℕ) (follower : Follower) (s : Process W)
      → Left (Calls.wake d fuel now (some follower) s).0
  unfolding Calls.wake
  wake-Left fuel follower s =
      let start : Draining W = record {
        inner = follower.inner;
        out = no_delivery;
        world = s.world;
      } in
      let ran = Drain.inner_wake d fuel now start in
      settle-Left follower ran.0 ran.1 (record s { world = ran.1.world })
        (inner_wake-Going fuel start refl)
