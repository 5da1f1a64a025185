-- ===== src/Notify/Engine/Notices.antt =====
-- crates/tagents-core/src/notify/engine.rs: the proofs on what the engine posts and what it has on screen.
use tagents.Prelude.{
  ℕ, ◌≡◌, refl, Bool, true, false, not, ◌&&◌, List, [], ◌∷◌, if◌then◌else◌, Bool-cases, inl, inr,
}
use tagents.Text.{Text, word}
use tagents.Dict.{insert, member, add}
use tagents.Exec.{
  Result, ok, err, ◌>>=◌, Keeps, Keeps-modify, keeps_rules, Keeps-pure, pure, ◌>>◌, when,
  case_result, modify,
}
use tagents.Notify.Event.{AgentEvent}
use tagents.Notify.Kinds.{NoticeKind, as_str, counts_session}
use tagents.Notify.Deadlines.Keyed.{IsUnique, deadlines-IsUnique}
use tagents.Notify.Options.{Options}
use tagents.Notify.Notifier.{Notice, PostResult}
use tagents.Notify.Engine.{Deps, Engine, posted, say, effect, record_action}
use tagents.Notify.Engine.Post.{
  notice_id, outcome_of, is_tool_question, take_down, clear_failures, put_up, notifier_post,
  notifier_withdraw, answered, refused,
}
use tagents.Notify.Engine.Jobs.{now}
use tagents.Notify.Engine.Follow
use tagents.Notify.Engine.Calls
use tagents.Notify.Engine.Trace.{
  on_screen, IsLawful, Sound, IsSound, nothing-IsKeyed, insert-IsKeyed, remove-IsKeyed,
  logged-Sound, withdrew-Sound, refused-Sound, answered-Sound,
}
use tagents.Notify.Engine.Stable.{Stable}
use tagents.Notify.Engine.Reach.{Call, after, after-Keeps}

module _ {W : Type 0} (d : Deps W) where
  taken_down-Sound :
      (id : Text) (r : Result Text (Unit {0})) (s : Engine W)
      → IsSound s
      → IsSound
          (case_result r
            (λ why. say (word "withdraw failed" ∷ id ∷ why ∷ []))
            (λ _. say (word "withdraw" ∷ id ∷ []))
            s).1
  unfolding record_action
  taken_down-Sound id (ok _) s h = logged-Sound h _
  taken_down-Sound id (err why) s h = logged-Sound h _

  take_down-Sound : (id : Text) (s : Engine W) → IsSound s → IsSound (take_down d id s).1
  unfolding take_down notifier_withdraw effect record_action ◌>>=◌
  take_down-Sound id s h = elim (Bool-cases (member id s.up)) [
    | inl shown ↦ rw shown (
        taken_down-Sound id (d.withdraw id s.world).0 _
          (withdrew-Sound h id (d.withdraw id s.world).0 shown))
    | inr absent ↦ rw absent h
  ]

  saying-Sound : (parts : List Text) → Keeps (IsSound {W = W}) (say parts)
  unfolding record_action
  saying-Sound parts = record { at = λ s h. logged-Sound h parts }

  withdrawing-Sound : (id : Text) → Keeps IsSound (take_down d id)
  withdrawing-Sound id = record { at = take_down-Sound id }

  failing-Sound :
      (f : Engine W → List Text)
      → Keeps (IsSound {W = W}) (modify (λ s. record s { post_failures = f s }))
  failing-Sound f = Keeps-modify _ (λ s h. h)

  refusing-Sound :
      (kind : NoticeKind) (e : AgentEvent) (why : Text) → Keeps IsSound (refused d kind e why)
  unfolding refused
  refusing-Sound kind e why = search (keeps_rules, saying-Sound, failing-Sound) depth 10

  -- The state between the backend's answer and the end of `post`.
  abbrev Pending : Notice → PostResult → Engine W → Type 0
  Pending n r s = Sound (if r.shown then add n.id s.up else s.up) s.trace s.armed_by s.deadlines

  saying-Pending :
      (n : Notice) (r : PostResult) (parts : List Text) → Keeps (Pending n r) (say parts)
  unfolding record_action
  saying-Pending n r parts = record { at = λ s h. logged-Sound h parts }

  failing-Pending :
      (n : Notice) (r : PostResult) (f : Engine W → List Text)
      → Keeps (Pending n r) (modify (λ s. record s { post_failures = f s }))
  failing-Pending n r f = Keeps-modify _ (λ s h. h)

  clearing-Pending : (n : Notice) (r : PostResult) → Keeps (Pending n r) (clear_failures d)
  unfolding clear_failures
  clearing-Pending n r = search (keeps_rules, failing-Pending, saying-Pending) depth 10

  asking-Sound :
      (b : Bool) (k : Text) (at : ℕ)
      → Keeps
          (IsSound {W = W})
          (when b (modify (λ s. record s { questions = insert k at s.questions })))
  asking-Sound true k at = Keeps-modify _ (λ s h. h)
  asking-Sound false k at = Keeps-pure tt

  putting_up-Sound :
      (kind : NoticeKind) (e : AgentEvent) (gone : Bool) (n : Notice) (r : PostResult)
      (s : Engine W)
      → Pending n r s
      → IsSound (when r.shown (put_up d kind e gone n.id) s).1
  unfolding put_up ◌>>=◌
  putting_up-Sound kind e gone n r s h = elim (Bool-cases r.shown) [
    | inl shown ↦
        rw shown (
          (asking-Sound (is_tool_question kind e.event && not gone) e.key e.at).at _
            (rw shown at h))
    | inr dropped ↦ rw dropped (rw dropped at h)
  ]

  ending-Sound : (b : Bool) (id : Text) → Keeps IsSound (do when b (take_down d id); pure true)
  ending-Sound b id = search (keeps_rules, withdrawing-Sound) depth 8

  answering-Sound :
      (kind : NoticeKind) (e : AgentEvent) (gone : Bool) (n : Notice) (r : PostResult)
      (s : Engine W)
      → Pending n r s
      → IsSound (answered d kind e gone n r s).1
  unfolding answered ◌>>=◌
  answering-Sound kind e gone n r s h =
      let cleared = (clear_failures d s).1 in
      let up = (when r.shown (put_up d kind e gone n.id) cleared).1 in
      let parts = word "notice" ∷ as_str kind ∷ e.key ∷ d.quote n.title ∷ outcome_of r ∷ [] in
      let said = (say parts up).1 in
      (ending-Sound (not r.shown) n.id).at said (
        (saying-Sound parts).at up
          (putting_up-Sound kind e gone n r cleared ((clearing-Pending n r).at s h)))

  posting-Sound :
      (kind : NoticeKind) (e : AgentEvent) (gone : Bool) (n : Notice)
      → n.id ≡ notice_id e.key
      → counts_session e.key ≡ true
      → Keeps IsSound
          (notifier_post d n >>= λ r. case_result r (refused d kind e) (answered d kind e gone n))
  unfolding notifier_post effect record_action ◌>>=◌
  posting-Sound kind e gone n same counts = record { at = λ s h. go s h (d.post n s.world).0 }
    where
      go :
          (s : Engine W)
          → IsSound s
          → (r : Result Text PostResult)
          → IsSound
              (case_result r
                (refused d kind e)
                (answered d kind e gone n)
                (record s { world = (d.post n s.world).1; trace = posted n r ∷ s.trace })).1
      go s h (err why) =
          (refusing-Sound kind e why).at _ (refused-Sound h n why (e.key, same, counts))
      go s h (ok r) = answering-Sound kind e gone n r _ (answered-Sound h n r (e.key, same, counts))

  refollow_soon-Sound : Keeps IsSound (Follow.refollow_soon d)
  unfolding Follow.refollow_soon now effect ◌>>=◌
  refollow_soon-Sound = record { at = λ s h. h }

  pub notices-Stable : Stable d IsSound
  notices-Stable = record {
    jobs = record {
      world = λ s w h. h;
      logging = λ s parts h. logged-Sound h parts;
      questioning = λ s q h. h;
      warning = λ s w h. h;
      failing = λ s f h. h;
      withdrawing = withdrawing-Sound;
      posting = posting-Sound;
      keyed = λ s h. h.keyed;
      arming = λ s e w i t h. record {
        shows = h.shows;
        lawful = h.lawful;
        keyed = insert-IsKeyed e s.armed_by h.keyed;
        unique = (deadlines-IsUnique e.key i t 0 s.deadlines h.unique).0;
      };
      cancelling = λ s w k h. record {
        shows = h.shows;
        lawful = h.lawful;
        keyed = remove-IsKeyed k s.armed_by h.keyed;
        unique = (deadlines-IsUnique k 0 0 0 s.deadlines h.unique).1;
      };
      disarming = λ s k h. record {
        shows = h.shows;
        lawful = h.lawful;
        keyed = remove-IsKeyed k s.armed_by h.keyed;
        unique = h.unique;
      };
    };
    sweeping = λ s q at h. record {
      shows = h.shows;
      lawful = h.lawful;
      keyed = h.keyed;
      unique = (deadlines-IsUnique [] 0 0 at s.deadlines h.unique).2;
    };
    queueing = λ s b q h. h;
    taking = λ s q h. h;
    following = λ s b h. h;
    followed = λ s at since h. h;
    refollowing = refollow_soon-Sound;
    resetting = λ s h. h;
    unfollowing = λ s h. h;
    reloading = λ s o h. h;
    stopping = λ s r h. record {
      shows = h.shows;
      lawful = h.lawful;
      keyed = λ k e got. nothing-IsKeyed k e got;
      unique = tt;
    };
  }

new-IsSound : {W : Type 0} (options : Options) (w : W) → IsSound (Calls.new options w)
unfolding Calls.new on_screen
new-IsSound options w = record { shows = refl; lawful = tt; keyed = nothing-IsKeyed; unique = tt }

-- After any calls of the service's loop the engine's record of what is up is exactly what was shown
-- and not withdrawn since; every notice that it posted was of a session with a pane of its own; it
-- withdrew no notice that was not on screen; and no key has two deadlines.
pub after-IsLawful :
    {W : Type 0} (d : Deps W) (options : Options) (w : W) (cs : List Call)
    → let s = after d cs (Calls.new options w) in
      (s.up ≡ on_screen s.trace) × IsLawful s.trace × IsUnique s.deadlines.waiting
after-IsLawful d options w cs =
    let sound = after-Keeps d (notices-Stable d) cs (Calls.new options w) (new-IsSound options w) in
    (sound.shows, sound.lawful, sound.unique)
