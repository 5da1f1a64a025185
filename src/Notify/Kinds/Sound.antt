-- ===== src/Notify/Kinds/Sound.antt =====
-- crates/tagents-core/src/notify/kinds.rs: the proofs on the verdicts of `classify`.
use tagents.Prelude.{◌≡◌, ◌≢◌, ◌⊎◌, true, false, none, some, arith}
use tagents.Notify.Event.{AgentEvent}
use tagents.Notify.Kinds.{
  question, permission, turn_done, cache_expiring, Verdict, counts_session, classify,
}

-- What a verdict may be: it withdraws exactly when it cancels, what starts the cache's clock asks for
-- a question, a permission or a finished turn and ends nothing, no verdict asks for a cache notice,
-- and only a question can be a plan.
pub record IsCoherent (v : Verdict) : Type 0 where
  pub ends : v.withdraw ≡ v.cancel
  pub asks :
      v.arms ≡ true
      → (v.cancel ≡ false)
        × ((v.kind ≡ some question) ⊎ (v.kind ≡ some permission) ⊎ (v.kind ≡ some turn_done))
  pub no_cache : v.kind ≢ some cache_expiring
  pub plans : v.plan ≡ true → v.kind ≡ some question
  pub says : (v.kind ≢ none) ⊎ (v.cancel ≡ true)

-- Every verdict is coherent, and only events of a session with a pane of its own have one.
pub classify-IsCoherent :
    (e : AgentEvent) (v : Verdict)
    → classify e ≡ some v
    → (counts_session e.key ≡ true) × IsCoherent v
unfolding classify
classify-IsCoherent e v h = ground arith
