-- ===== src/Notify/Engine/Sleep.antt =====
-- crates/tagents-core/src/notify/engine.rs, `next_due`: the proofs on when the engine asks to be called again.
use tagents.Prelude.{
  ℕ, ◌-◌, ◌≤◌, ◌≡◌, ◌≢◌, ◌∙◌, sym, subst, ◌↔◌, not, Option, none, some, List, [], arith,
  if◌then◌else◌, Bool-cases, inl, inr,
}
use tagents.Exec.{◌>>=◌, gets, pure}
use tagents.Notify.Deadlines
use tagents.Notify.Deadlines.{Deadlines}
use tagents.Notify.Deadlines.Timing.{wait-eq-none_iff}
use tagents.Notify.Engine.{Deps, Engine, Job, Refollow, effect}
use tagents.Notify.Engine.Jobs.{now}
use tagents.Notify.Engine.Calls.{next_due, is_nil, least_of, until, refollow_at}

-- The engine has nothing to do at any later time unless it is called.
abbrev pub IsIdle : {W : Type 0} → Deps W → Engine W → Type 0
IsIdle d s =
    (s.queue ≡ [])
    × (Deadlines.armed s.deadlines ≡ 0)
    × ((d.feed_due (d.now_ms s.world).1).0 ≡ none)
    × (s.refollow ≡ none)

-- What `next_due` answers for an engine that runs.
answer : List Job → ℕ → Deadlines → Option ℕ → Option Refollow → Option ℕ
answer q at ds grace refollow =
    if not (is_nil q)
    then some 0
    else least_of (Deadlines.wait at ds)
        (least_of (until at grace) (until at (refollow_at refollow)))

answer-none :
    (q : List Job) (at : ℕ) (ds : Deadlines) (grace : Option ℕ) (refollow : Option Refollow)
    → (answer q at ds grace refollow ≡ none)
      ↔ ((q ≡ []) × (Deadlines.armed ds ≡ 0) × (grace ≡ none) × (refollow ≡ none))
unfolding answer
answer-none q at ds grace refollow = let armed = wait-eq-none_iff at ds in ground (arith, armed)

answer-deadline :
    (q : List Job) (at : ℕ) (ds : Deadlines) (grace : Option ℕ) (refollow : Option Refollow)
    (ms : ℕ)
    → answer q at ds grace refollow ≡ some ms
    → Deadlines.armed ds ≢ 0
    → ms ≤ Deadlines.max_sleep_ms
unfolding answer Deadlines.wait Deadlines.earliest Deadlines.armed
answer-deadline q at ds grace refollow ms e some_armed = ground arith

answer-refollow :
    (q : List Job) (at : ℕ) (ds : Deadlines) (grace : Option ℕ) (r : Refollow) (ms : ℕ)
    → answer q at ds grace (some r) ≡ some ms
    → ms ≤ r.at - at
unfolding answer
answer-refollow q at ds grace r ms e = ground arith

answered :
    {W : Type 0} (d : Deps W) (s : Engine W)
    → s.stopped ≡ none
    → (next_due d s).0
      ≡ answer s.queue
          (d.now_ms s.world).0
          s.deadlines
          (d.feed_due (d.now_ms s.world).1).0
          s.refollow
unfolding next_due answer now effect gets pure ◌>>=◌
answered d s running = elim (Bool-cases (is_nil s.queue)) [
  | inl idle ↦ simp (running, idle)
  | inr busy ↦ simp (running, busy)
]

-- An engine that runs asks for no further call exactly when it is idle: no job is queued, no deadline
-- is armed, the feed has no grace to end and no re-follow is pending. With a deadline armed it sleeps
-- at most five minutes, and with a re-follow pending not beyond the time of that.
pub next_due_exact :
    {W : Type 0} (d : Deps W) (s : Engine W)
    → s.stopped ≡ none
    → (((next_due d s).0 ≡ none) ↔ IsIdle d s)
      × ((ms : ℕ)
          → (next_due d s).0 ≡ some ms
          → Deadlines.armed s.deadlines ≢ 0
          → ms ≤ Deadlines.max_sleep_ms)
      × ((ms : ℕ) (r : Refollow)
          → (next_due d s).0 ≡ some ms
          → s.refollow ≡ some r
          → ms ≤ r.at - (d.now_ms s.world).0)
next_due_exact d s running =
    let e = answered d s running in
    let q = s.queue in
    let at = (d.now_ms s.world).0 in
    let grace = (d.feed_due (d.now_ms s.world).1).0 in
    (
      subst (λ a. (a ≡ none) ↔ IsIdle d s) (sym e) (answer-none q at s.deadlines grace s.refollow),
      (λ ms h. answer-deadline q at s.deadlines grace s.refollow ms (sym e ∙ h)),
      (λ ms r h pending.
          answer-refollow q at s.deadlines grace r ms
            (subst (λ o. answer q at s.deadlines grace o ≡ some ms) pending (sym e ∙ h))),
    )
