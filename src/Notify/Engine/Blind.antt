-- ===== src/Notify/Engine/Blind.antt =====
-- crates/tagents-core/src/notify/engine.rs: the lemmas on invariants that do not read what is posted.
use tagents.Prelude.{ℕ, ◌≡◌, Bool, some, List}
use tagents.Text.{Text}
use tagents.Dict.{Dict, get, insert, remove}
use tagents.Exec.{◌>>=◌, Keeps, Keeps-modify, keeps_rules, modify, case_result}
use tagents.Notify.Event.{AgentEvent}
use tagents.Notify.Kinds.{NoticeKind}
use tagents.Notify.Notifier.{Notice, PostResult}
use tagents.Notify.Engine.{Deps, Engine, Action, say, effect, record_action}
use tagents.Notify.Engine.Post.{
  take_down, clear_failures, put_up, notifier_post, notifier_withdraw, answered, refused,
}
use tagents.Notify.Deadlines
use tagents.Notify.Engine.Stable.{StableJobs}

-- An invariant that does not read what a post and a withdrawal change.
abbrev pub IsBlind : {W : Type 0} → (Engine W → Type 0) → Type 0
IsBlind {W} P =
    (s : Engine W) (up : List Text) (questions : Dict ℕ) (failures : List Text) (w : W)
    (past : List Action)
    → P s
    → P (record s {
      up = up;
      questions = questions;
      post_failures = failures;
      world = w;
      trace = past;
    })

module _ {W : Type 0} (d : Deps W) {P : Engine W → Type 0} (blind : IsBlind P) where
  saying-Blind : (parts : List Text) → Keeps P (say parts)
  unfolding record_action
  saying-Blind parts = record { at = λ s h. blind s _ _ _ _ _ h }

  withdrawing-Blind : (id : Text) → Keeps P (notifier_withdraw d id)
  unfolding notifier_withdraw effect record_action ◌>>=◌
  withdrawing-Blind id = record { at = λ s h. blind s _ _ _ _ _ h }

  dropping-Blind : (f : Engine W → List Text) → Keeps P (modify (λ s. record s { up = f s }))
  dropping-Blind f = Keeps-modify _ (λ s h. blind s _ _ _ _ _ h)

  failing-Blind :
      (f : Engine W → List Text) → Keeps P (modify (λ s. record s { post_failures = f s }))
  failing-Blind f = Keeps-modify _ (λ s h. blind s _ _ _ _ _ h)

  asking-Blind : (f : Engine W → Dict ℕ) → Keeps P (modify (λ s. record s { questions = f s }))
  asking-Blind f = Keeps-modify _ (λ s h. blind s _ _ _ _ _ h)

  take_down-Blind : (id : Text) → Keeps P (take_down d id)
  unfolding take_down
  take_down-Blind id =
      search (keeps_rules, dropping-Blind, withdrawing-Blind, saying-Blind) depth 12

  refused-Blind : (kind : NoticeKind) (e : AgentEvent) (why : Text) → Keeps P (refused d kind e why)
  unfolding refused
  refused-Blind kind e why = search (keeps_rules, failing-Blind, saying-Blind) depth 10

  clear_failures-Blind : Keeps P (clear_failures d)
  unfolding clear_failures
  clear_failures-Blind = search (keeps_rules, failing-Blind, saying-Blind) depth 10

  put_up-Blind :
      (kind : NoticeKind) (e : AgentEvent) (gone : Bool) (id : Text)
      → Keeps P (put_up d kind e gone id)
  unfolding put_up
  put_up-Blind kind e gone id = search (keeps_rules, dropping-Blind, asking-Blind) depth 10

  answered-Blind :
      (kind : NoticeKind) (e : AgentEvent) (gone : Bool) (n : Notice) (r : PostResult)
      → Keeps P (answered d kind e gone n r)
  unfolding answered
  answered-Blind kind e gone n r =
      search (keeps_rules, clear_failures-Blind, put_up-Blind, saying-Blind, take_down-Blind) depth
        12

  notifier_post-Blind : (n : Notice) → Keeps P (notifier_post d n)
  unfolding notifier_post effect record_action ◌>>=◌
  notifier_post-Blind n = record { at = λ s h. blind s _ _ _ _ _ h }

  posting-Blind :
      (kind : NoticeKind) (e : AgentEvent) (gone : Bool) (n : Notice)
      → Keeps P
          (notifier_post d n >>= λ r. case_result r (refused d kind e) (answered d kind e gone n))
  posting-Blind kind e gone n =
      search (keeps_rules, notifier_post-Blind, refused-Blind, answered-Blind) depth 8

  -- Such an invariant is stable if it survives what is done to the armed events.
  pub blind-Stable :
      ((s : Engine W) (w : Dict ℕ) → P s → P (record s { warned_at = w }))
      → ((s : Engine W) → P s → (k : Text) (e : AgentEvent) → get k s.armed_by ≡ some e → e.key ≡ k)
      → ((s : Engine W) (e : AgentEvent) (w : Dict ℕ) (i t : ℕ)
          → P s
          → P (record s {
            armed_by = insert e.key e s.armed_by;
            warned_at = w;
            deadlines = Deadlines.arm e.key i t s.deadlines;
          }))
      → ((s : Engine W) (w : Dict ℕ) (k : Text)
          → P s
          → P (record s {
            deadlines = Deadlines.cancel k s.deadlines;
            armed_by = remove k s.armed_by;
            warned_at = w;
          }))
      → ((s : Engine W) (k : Text) → P s → P (record s { armed_by = remove k s.armed_by }))
      → StableJobs d P
  blind-Stable warning keyed arming cancelling disarming = record {
    world = λ s w h. blind s _ _ _ _ _ h;
    logging = λ s parts h. blind s _ _ _ _ _ h;
    questioning = λ s q h. blind s _ _ _ _ _ h;
    warning = warning;
    failing = λ s f h. blind s _ _ _ _ _ h;
    withdrawing = take_down-Blind;
    posting = λ kind e gone n _ _. posting-Blind kind e gone n;
    keyed = keyed;
    arming = arming;
    cancelling = cancelling;
    disarming = disarming;
  }
