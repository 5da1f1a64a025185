-- ===== src/Notify/Engine/Alive.antt =====
-- crates/tagents-core/src/notify/engine.rs, `start`, `wake` and `tick`: the proofs on what an engine hears from.
use tagents.Prelude.{
  ℕ, ◌≤◌, ◌≡◌, ◌⊎◌, refl, ap, Option, Bool, true, false, ◌||◌, none, some, List, [], ◌∷◌, arith,
  inl, inr, Bool-cases, leb,
}
use tagents.Text.{Text}
use tagents.Exec.{
  Result, ok, err, ◌>>=◌, ◌>>◌, Keeps, Keeps-modify, keeps_rules, gets, modify, pure, case_result,
}
use tagents.Notify.Deadlines
use tagents.Notify.Options.{Options}
use tagents.Notify.Engine.{Deps, Engine, Delivery, Refollow, effect}
use tagents.Notify.Engine.Jobs.{is_some, now}
use tagents.Notify.Engine.Follow
use tagents.Notify.Engine.Calls
use tagents.Notify.Engine.Trace.{IsKeyed, nothing-IsKeyed}
use tagents.Notify.Engine.Reach.{
  Call, perform, start, wake, tick, stop, next_due, reload, perform, after,
}
use tagents.Notify.Engine.Backoff.{backoff_bounded}
use tagents.Notify.Engine.Due.{IsLater, turn-IsLater}
use tagents.Notify.Engine.Live.{
  IsAlive, Live, effect-Live, run-Live, now-Live, sweep-Live, ingest-Live, opened-Live,
  arm_from_states-Live, try_later-Live,
}

module _ {W : Type 0} (d : Deps W) where
  -- What a follow leaves: a live engine, or one that has changed no armed event.
  abbrev Outcome : Result Text (Unit {0}) → Engine W → Type 0
  Outcome (ok _) s = Live s
  Outcome (err _) s = IsKeyed s.armed_by

  started-Outcome :
      (since : ℕ) (r : Result Text Delivery) (s : Engine W)
      → IsKeyed s.armed_by
      → let t = case_result r (λ why. pure (err why)) (Follow.opened d since) s in Outcome t.0 t.1
  unfolding Follow.opened pure modify ◌>>=◌
  started-Outcome since (err why) s keyed = keyed
  started-Outcome since (ok delivery) s keyed = opened-Live d since delivery s keyed

  follow-Outcome :
      (since : ℕ) (s : Engine W)
      → IsKeyed s.armed_by
      → Outcome (Follow.follow d since s).0 (Follow.follow d since s).1
  unfolding Follow.follow now effect ◌>>=◌
  follow-Outcome since s keyed =
      started-Outcome since (d.feed_start (d.now_ms s.world).0 (d.now_ms s.world).1).0 _ keyed

  -- After a re-follow the engine is alive, whether the follow worked or not.
  follow_again-Live :
      (wait : ℕ) (s : Engine W) → IsKeyed s.armed_by → Live (Follow.follow_again d wait s).1
  unfolding Follow.follow_again ◌>>=◌
  follow_again-Live wait s keyed =
      settle (Follow.follow d wait s).0 (Follow.follow d wait s).1 (follow-Outcome wait s keyed)
    where
      settle :
          (r : Result Text (Unit {0})) (t : Engine W)
          → Outcome r t
          → Live (case_result r (Follow.try_later d) (λ _. Follow.arm_from_states d) t).1
      settle (ok _) t live = (arm_from_states-Live d).at t live
      settle (err why) t key = try_later-Live d why t key

  due-Live : (r : Refollow) (s : Engine W) → Live s → Live (Calls.refollow_when_due d r s).1
  unfolding Calls.refollow_when_due now effect modify pure ◌>>=◌
  due-Live r s h = elim (Bool-cases (leb r.at (d.now_ms s.world).0)) [
    | inl due ↦ rw due (follow_again-Live r.wait _ h.keyed)
    | inr early ↦ rw early (record { keyed = h.keyed; alive = h.alive })
  ]

  refollow_due-Live : Keeps Live (Calls.refollow_due d)
  unfolding Calls.refollow_due
  refollow_due-Live =
      let due : (r : Refollow) → Keeps Live (Calls.refollow_when_due d r) =
        λ r. record { at = due-Live r } in
      search (keeps_rules, due)

  turn-Live : (read : ℕ → W → Delivery × W) → Keeps Live (Calls.turn d read)
  unfolding Calls.turn
  turn-Live read =
      search
        (keeps_rules, now-Live, refollow_due-Live, effect-Live, ingest-Live, sweep-Live, run-Live)
        depth 14

  skipped : Engine W → Bool
  skipped s = is_some s.stopped || s.following || is_some s.refollow

  skipped-IsAlive : (s : Engine W) → skipped s ≡ true → IsAlive s
  unfolding skipped
  skipped-IsAlive s h = ground arith

  IsAlive-skipped : (s : Engine W) → IsAlive s → skipped s ≡ true
  unfolding skipped
  IsAlive-skipped s h = ground arith

  -- The start of an engine that is not alive yet.
  first_start-Outcome :
      (s : Engine W)
      → IsKeyed s.armed_by
      → let t =
          (do
            followed ← Follow.follow d 0
            case_result followed
                (λ why. pure (err why))
                (λ _. do Follow.arm_from_states d; pure (ok tt)))
            s in
        Outcome t.0 t.1
  unfolding pure ◌>>=◌
  first_start-Outcome s keyed =
      settle (Follow.follow d 0 s).0 (Follow.follow d 0 s).1 (follow-Outcome 0 s keyed)
    where
      settle :
          (r : Result Text (Unit {0})) (t : Engine W)
          → Outcome r t
          → let u =
              case_result r
                (λ why. pure (err why))
                (λ _. do Follow.arm_from_states d; pure (ok tt))
                t in
            Outcome u.0 u.1
      settle (ok _) t live = (arm_from_states-Live d).at t live
      settle (err why) t key = key

  start-Outcome :
      (s : Engine W) → IsKeyed s.armed_by → Outcome (Calls.start d s).0 (Calls.start d s).1
  unfolding Calls.start skipped gets pure ◌>>=◌
  start-Outcome s keyed = elim (Bool-cases (skipped s)) [
    | inl h ↦ rw h (record { keyed = keyed; alive = skipped-IsAlive s h })
    | inr h ↦ rw h (first_start-Outcome s keyed)
  ]

  start-Live : Keeps Live (Calls.start d)
  unfolding Calls.start skipped gets pure ◌>>=◌
  start-Live = record { at = λ s h. rw (IsAlive-skipped s h.alive) h }

  next_due-Live : Keeps Live (Calls.next_due d)
  unfolding Calls.next_due
  next_due-Live = search (keeps_rules, now-Live, effect-Live) depth 14

  stopping-Live :
      (r : Result Text (Unit {0}))
      → Keeps (Live {W = W}) (
          modify (λ s. record s {
            following = false;
            refollow = none;
            queue = [];
            deadlines = Deadlines.new;
            armed_by = [];
            questions = [];
            warned_at = [];
            stopped = some r;
          }))
  stopping-Live r = Keeps-modify _ (λ s h. record { keyed = nothing-IsKeyed; alive = inl refl })

  stop-Live : Keeps Live (Calls.stop d)
  unfolding Calls.stop
  stop-Live = search (keeps_rules, effect-Live, stopping-Live) depth 12

  perform-Live : (c : Call) → Keeps Live (perform d c)
  unfolding perform Calls.wake Calls.tick Calls.reload
  perform-Live start = search (keeps_rules, start-Live)
  perform-Live wake = turn-Live d.feed_wake
  perform-Live tick = turn-Live d.feed_end_grace
  perform-Live stop = search (keeps_rules, stop-Live)
  perform-Live next_due = search (keeps_rules, next_due-Live)
  perform-Live (reload options) =
      Keeps-modify _ (λ s h. record { keyed = h.keyed; alive = h.alive })

  after-Live : (cs : List Call) (s : Engine W) → Live s → Live (after d cs s)
  unfolding after
  after-Live [] s h = h
  after-Live (c ∷ cs) s h = after-Live cs (perform d c s).1 ((perform-Live c).at s h)

new-IsKeyed : {W : Type 0} (options : Options) (w : W) → IsKeyed (Calls.new options w).armed_by
unfolding Calls.new
new-IsKeyed options w = nothing-IsKeyed

ok-Live :
    {W : Type 0} (d : Deps W) (r : Result Text (Unit {0})) (s : Engine W)
    → Outcome d r s
    → r ≡ ok tt
    → Live s
ok-Live d (ok _) s live worked = live
ok-Live d (err _) s keyed worked = ground arith

-- The engine is stopped, or it follows or has a re-follow pending, but none whose time has come.
abbrev pub Hears : {W : Type 0} → ℕ → Engine W → Type 0
Hears time s =
    (is_some s.stopped ≡ true)
    ⊎ (((s.following ≡ true) ⊎ (is_some s.refollow ≡ true)) × IsLater time s.refollow)

module _ {W : Type 0} (d : Deps W) (time : ℕ) (clock : (w : W) → time ≤ (d.now_ms w).0) where
  heard : (s : Engine W) → IsAlive s → IsLater time s.refollow → Hears time s
  heard s (inl stopped) later = inl stopped
  heard s (inr hears) later = inr (hears, later)

  turn-Hears :
      (read : ℕ → W → Delivery × W) (s : Engine W)
      → Live s
      → 1 ≤ s.refollow_after
      → Hears time (Calls.turn d read s).1
  unfolding Calls.turn gets pure ◌>>=◌
  turn-Hears read s live waits = cases s.stopped refl
    where
      cases :
          (o : Option (Result Text (Unit {0}))) → s.stopped ≡ o → Hears time (Calls.turn d read s).1
      cases none running =
          heard (Calls.turn d read s).1 ((turn-Live d read).at s live).alive
            (turn-IsLater d time clock read s running live.keyed waits)
      cases (some r) stopped =
          let over : is_some s.stopped ≡ true = ap is_some stopped in rw over (inl over)

paced_after :
    {W : Type 0} (d : Deps W) (options : Options) (w : W) (cs : List Call)
    → 1 ≤ (after d cs (Calls.start d (Calls.new options w)).1).refollow_after
unfolding after perform pure ◌>>=◌
paced_after d options w cs =
    let range = (backoff_bounded d options w (start ∷ cs)).0 in omega (arith, range)

-- Once a start of a new engine has worked, then after any calls the engine is stopped, or it follows
-- the events file, or a re-follow is pending. If in a wake or a tick that comes next each reading of the
-- clock is some time or later (`later` is the world from then on), the engine then is stopped, or it
-- follows or has a re-follow pending, and no re-follow is pending that was due by that time.
pub after-IsAlive :
    {W : Type 0} (d later : Deps W) (options : Options) (w : W) (cs : List Call) (time : ℕ)
    → ((v : W) → time ≤ (later.now_ms v).0)
    → (Calls.start d (Calls.new options w)).0 ≡ ok tt
    → let s = after d cs (Calls.start d (Calls.new options w)).1 in
      IsAlive s × Hears time (Calls.wake later s).1 × Hears time (Calls.tick later s).1
unfolding Calls.wake Calls.tick
after-IsAlive d later options w cs time clock worked =
    let new = Calls.new options w in
    let s = after d cs (Calls.start d new).1 in
    let live : Live s = after-Live d cs _ (
      ok-Live d (Calls.start d new).0 (Calls.start d new).1
        (start-Outcome d new (new-IsKeyed options w)) worked) in
    let paced = paced_after d options w cs in
    (
      live.alive,
      turn-Hears later time clock later.feed_wake s live paced,
      turn-Hears later time clock later.feed_end_grace s live paced,
    )
