-- ===== src/Notify/Engine/Live.antt =====
-- crates/tagents-core/src/notify/engine.rs: the lemmas on the engine as it follows, and on the events, deaths, failed
-- re-follows and rows that it meets.
use tagents.Prelude.{
  ℕ, ◌*◌, ◌≡◌, ◌⊎◌, refl, Bool, true, false, List, [], ◌∷◌, ◌++◌, inl, inr, Bool-cases,
}
use tagents.Text.{Text}
use tagents.Dict.{Dict, insert}
use tagents.Exec.{Result, ok, ◌>>=◌, ◌>>◌, Keeps, Keeps-modify, keeps_rules, modify, pure, when}
use tagents.Notify.Event.{AgentEvent}
use tagents.Notify.Deadlines
use tagents.Notify.Options.{CacheExpiring}
use tagents.Notify.Rows.{AgentStateRow}
use tagents.Notify.Engine.{Deps, Engine, Delivery, event, say, effect, record_action}
use tagents.Notify.Engine.Jobs.{is_some, now, run}
use tagents.Notify.Engine.Follow
use tagents.Notify.Engine.Trace.{IsKeyed, insert-IsKeyed, remove-IsKeyed}
use tagents.Notify.Engine.Stable.{StableJobs}
use tagents.Notify.Engine.Running.{run-Keeps}
use tagents.Notify.Engine.Blind.{blind-Stable}

-- The engine is stopped, or it hears of new events now or later.
abbrev pub IsAlive : {W : Type 0} → Engine W → Type 0
IsAlive s = (is_some s.stopped ≡ true) ⊎ (s.following ≡ true) ⊎ (is_some s.refollow ≡ true)

pub record Live {W : Type 0} (s : Engine W) : Type 0 where
  pub keyed : IsKeyed s.armed_by
  pub alive : IsAlive s

module _ {W A : Type 0} where
  pub effect-Live : (f : W → A × W) → Keeps Live (effect f)
  unfolding effect
  effect-Live f = record { at = λ s h. record { keyed = h.keyed; alive = h.alive } }

module _ {W : Type 0} (d : Deps W) where
  jobs-Live : StableJobs d (Live {W = W})
  jobs-Live =
      blind-Stable d (λ s _ _ _ _ _ h. record { keyed = h.keyed; alive = h.alive })
        (λ s w h. record { keyed = h.keyed; alive = h.alive }) (λ s h. h.keyed)
        (λ s e w i t h. record { keyed = insert-IsKeyed e s.armed_by h.keyed; alive = h.alive })
        (λ s w k h. record { keyed = remove-IsKeyed k s.armed_by h.keyed; alive = h.alive })
        (λ s k h. record { keyed = remove-IsKeyed k s.armed_by h.keyed; alive = h.alive })

  pub run-Live : Keeps Live (run d)
  run-Live = run-Keeps d jobs-Live (λ s q h. record { keyed = h.keyed; alive = h.alive })

  saying-Live : (parts : List Text) → Keeps (Live {W = W}) (say parts)
  unfolding record_action
  saying-Live parts = record { at = λ s h. record { keyed = h.keyed; alive = h.alive } }

  pub now-Live : Keeps Live (now d)
  unfolding now effect
  now-Live = record { at = λ s h. record { keyed = h.keyed; alive = h.alive } }

  pub sweep-Live : Keeps Live (Follow.sweep d)
  unfolding Follow.sweep now effect ◌>>=◌
  sweep-Live = record { at = λ s h. record { keyed = h.keyed; alive = h.alive } }

  hearing-Live :
      (e : AgentEvent)
      → Keeps
          (Live {W = W})
          (modify (λ s. record s { heard = true; queue = s.queue ++ event e ∷ [] }))
  hearing-Live e = Keeps-modify _ (λ s h. record { keyed = h.keyed; alive = h.alive })

  ingest_events-Live : (es : List AgentEvent) → Keeps Live (Follow.ingest_events d es)
  unfolding Follow.ingest_events
  ingest_events-Live [] = search keeps_rules
  ingest_events-Live (e ∷ es) =
      let ih = ingest_events-Live es in search (keeps_rules, hearing-Live, sweep-Live)

  say_errors-Live : (messages : List Text) → Keeps Live (Follow.say_errors d messages)
  unfolding Follow.say_errors
  say_errors-Live [] = search keeps_rules
  say_errors-Live (m ∷ ms) = let ih = say_errors-Live ms in search (keeps_rules, saying-Live)

  -- Whatever the wait, a re-follow is pending afterwards.
  refollow_soon-Live : (s : Engine W) → IsKeyed s.armed_by → Live (Follow.refollow_soon d s).1
  unfolding Follow.refollow_soon now effect ◌>>=◌
  refollow_soon-Live s keyed = record { keyed = keyed; alive = inr (inr refl) }

  proving-IsKeyed :
      (s : Engine W) → IsKeyed s.armed_by → IsKeyed (Follow.has_proven_itself d s).1.armed_by
  unfolding Follow.has_proven_itself now effect ◌>>=◌
  proving-IsKeyed s keyed = elim (Bool-cases s.heard) [ inl h ↦ rw h keyed | inr h ↦ rw h keyed ]

  resetting-IsKeyed :
      (b : Bool) (s : Engine W)
      → IsKeyed s.armed_by
      → IsKeyed
          (when b (modify (λ s. record s { refollow_after = Follow.refollow_min_ms })) s).1.armed_by
  unfolding modify pure
  resetting-IsKeyed true s keyed = keyed
  resetting-IsKeyed false s keyed = keyed

  on_dead-Live : (message : Text) → Keeps Live (Follow.on_dead d message)
  unfolding Follow.on_dead ◌>>=◌
  on_dead-Live message = record {
    at = λ s h.
        let dead = record s { following = false } in
        let proven = Follow.has_proven_itself d dead in
        (saying-Live _).at _ (
          refollow_soon-Live _
            (resetting-IsKeyed proven.0 proven.1 (proving-IsKeyed dead h.keyed)));
  }

  pub ingest-Live : (delivery : Delivery) → Keeps Live (Follow.ingest d delivery)
  unfolding Follow.ingest
  ingest-Live delivery =
      search (keeps_rules, ingest_events-Live, say_errors-Live, on_dead-Live) depth 8

  followed-Live :
      (at since : ℕ)
      → Keeps
          (Live {W = W})
          (modify (λ s. record s { followed_at = at; followed_after = since; heard = false }))
  followed-Live at since = Keeps-modify _ (λ s h. record { keyed = h.keyed; alive = h.alive })

  reading_on-Live :
      (since : ℕ) (delivery : Delivery)
      → Keeps {A = Result Text (Unit {0})} Live (do
        Follow.ingest d delivery
        at ← now d
        modify (λ s. record s { followed_at = at; followed_after = since; heard = false })
        pure (ok tt))
  reading_on-Live since delivery =
      search (keeps_rules, ingest-Live, now-Live, followed-Live) depth 10

  -- A follow that worked leaves the engine following, whatever its first read brought.
  pub opened-Live :
      (since : ℕ) (delivery : Delivery) (s : Engine W)
      → IsKeyed s.armed_by
      → Live (Follow.opened d since delivery s).1
  unfolding Follow.opened ◌>>=◌
  opened-Live since delivery s keyed =
      (reading_on-Live since delivery).at (record s { following = true })
        (record { keyed = keyed; alive = inr (inl refl) })

  armed_row-Live :
      (row : AgentStateRow) (labels : Dict Text) (t : ℕ)
      → Keeps (Live {W = W}) (
          modify (λ s. record s {
            armed_by = insert row.key (Follow.event_from_row row labels) s.armed_by;
            deadlines = Deadlines.arm row.key (row.at * 1000) t s.deadlines;
          }))
  unfolding Follow.event_from_row
  armed_row-Live row labels t = Keeps-modify _ (λ s h. record {
    keyed = insert-IsKeyed (Follow.event_from_row row labels) s.armed_by h.keyed;
    alive = h.alive;
  })

  arm_row-Live :
      (cache : CacheExpiring) (at : ℕ) (labels : Dict Text) (row : AgentStateRow)
      → Keeps Live (Follow.arm_row d cache at labels row)
  unfolding Follow.arm_row
  arm_row-Live cache at labels row = search (keeps_rules, armed_row-Live) depth 8

  arm_rows-Live :
      (cache : CacheExpiring) (at : ℕ) (labels : Dict Text) (rows : List AgentStateRow)
      → Keeps Live (Follow.arm_rows d cache at labels rows)
  unfolding Follow.arm_rows
  arm_rows-Live cache at labels [] = search keeps_rules
  arm_rows-Live cache at labels (row ∷ rows) =
      let ih = arm_rows-Live cache at labels rows in search (keeps_rules, arm_row-Live)

  pub arm_from_states-Live : Keeps Live (Follow.arm_from_states d)
  unfolding Follow.arm_from_states
  arm_from_states-Live = search (keeps_rules, now-Live, effect-Live, arm_rows-Live) depth 12

  pub try_later-Live :
      (why : Text) (s : Engine W) → IsKeyed s.armed_by → Live (Follow.try_later d why s).1
  unfolding Follow.try_later ◌>>=◌
  try_later-Live why s keyed = (saying-Live _).at _ (refollow_soon-Live s keyed)
