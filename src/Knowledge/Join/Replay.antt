-- ===== src/Knowledge/Join/Replay.antt =====
-- crates/tagents-core/src/knowledge/join.rs: the proofs on what a retry sends again and how often one is made.
use tagents.Prelude.{
  ◌+◌, ◌≤◌, ◌≡◌, ◌≢◌, ◌⊎◌, ◌↔◌, refl, sym, ap, ◌∙◌, subst, Bool, true, false, Option, none, some,
  List, [], ◌∷◌, ◌++◌, ltb, length, arith, append_nil, append_assoc, length-append, Bool-cases,
  Option-cases, inl, inr,
}
use tagents.Utf8.{Bytes}
use tagents.Knowledge.Join.{
  too_much, is_all, Sent, nothing_sent, record_chunk, replied, retryable, Step, copied, input_ended,
  replies, take_step, take_steps, Ended, Link, Session, after_link, relay, replay_cap, output_gone,
  closed,
}

-- The bytes of the input in the steps.
unfoldable pub copied_in : List Step → Bytes
copied_in [] = []
copied_in (copied chunk ∷ steps) = chunk ++ copied_in steps
copied_in (input_ended ∷ steps) = copied_in steps
copied_in (replies ∷ steps) = copied_in steps

unfoldable pub has_reply : List Step → Bool
has_reply [] = false
has_reply (copied _ ∷ steps) = has_reply steps
has_reply (input_ended ∷ steps) = has_reply steps
has_reply (replies ∷ steps) = true

-- Once not everything is kept, it never is again.
never_again :
    (steps : List Step) (s : Sent)
    → is_all s.kept ≡ false
    → is_all (take_steps steps s).kept ≡ false
unfolding take_steps take_step record_chunk replied
never_again [] s h = h
never_again (copied chunk ∷ steps) s h =
    let same : record_chunk chunk s ≡ s = rw (record_chunk, h) refl in
    ap (λ t. is_all (take_steps steps t).kept) same ∙ never_again steps s h
never_again (input_ended ∷ steps) s h = never_again steps _ h
never_again (replies ∷ steps) s h = never_again steps (replied s) refl

-- The sent bytes before and behind steps.
record Tracks (steps : List Step) (s t : Sent) : Type 0 where
  exact :
      (is_all t.kept ≡ true)
      ↔ ((has_reply steps ≡ false) × (length s.bytes + length (copied_in steps) ≤ replay_cap))
  content : is_all t.kept ≡ true → t.bytes ≡ s.bytes ++ copied_in steps

-- A chunk that is kept, and one that is too much.
kept_chunk :
    (chunk : Bytes) (s : Sent)
    → is_all s.kept ≡ true
    → ltb replay_cap (length s.bytes + length chunk) ≡ false
    → record_chunk chunk s ≡ record s { bytes = s.bytes ++ chunk }
unfolding record_chunk
kept_chunk chunk s h e = simp (record_chunk, h, e)

lost_chunk :
    (chunk : Bytes) (s : Sent)
    → is_all s.kept ≡ true
    → ltb replay_cap (length s.bytes + length chunk) ≡ true
    → record_chunk chunk s ≡ record s { kept = too_much; bytes = [] }
unfolding record_chunk
lost_chunk chunk s h e = simp (record_chunk, h, e)

copied-Tracks :
    (chunk : Bytes) (steps : List Step) (s : Sent)
    → is_all s.kept ≡ true
    → Tracks steps
        (record s { bytes = s.bytes ++ chunk })
        (take_steps steps (record s { bytes = s.bytes ++ chunk }))
    → Tracks (copied chunk ∷ steps) s (take_steps steps (record s { bytes = s.bytes ++ chunk }))
unfolding copied_in has_reply
copied-Tracks chunk steps s h ih =
    let a = length-append s.bytes chunk in
    let b = length-append chunk (copied_in steps) in
    let e = ih.exact in
    record {
      exact = ground (arith, a, b, e);
      content = λ k. ih.content k ∙ append_assoc s.bytes chunk (copied_in steps);
    }

lost-Tracks :
    (chunk : Bytes) (steps : List Step) (s : Sent)
    → ltb replay_cap (length s.bytes + length chunk) ≡ true
    → Tracks (copied chunk ∷ steps) s (take_steps steps (record s { kept = too_much; bytes = [] }))
unfolding copied_in has_reply
lost-Tracks chunk steps s e =
    let b = length-append chunk (copied_in steps) in
    let gone = never_again steps (record s { kept = too_much; bytes = [] }) refl in
    record { exact = ground (arith, b, gone, e); content = λ k. absurd (ground (arith, k, gone)) }

take_steps-Tracks :
    (steps : List Step) (s : Sent)
    → is_all s.kept ≡ true
    → length s.bytes ≤ replay_cap
    → Tracks steps s (take_steps steps s)
unfolding take_steps take_step replied copied_in has_reply
take_steps-Tracks [] s h cap = record {
  exact = ground (arith, h, cap);
  content = λ k. sym (append_nil s.bytes);
}
take_steps-Tracks (copied chunk ∷ steps) s h cap =
    elim (Bool-cases (ltb replay_cap (length s.bytes + length chunk))) [
      | inl e ↦
          subst (λ t. Tracks (copied chunk ∷ steps) s (take_steps steps t))
            (sym (lost_chunk chunk s h e)) (lost-Tracks chunk steps s e)
      | inr e ↦
          let sum = length-append s.bytes chunk in
          subst (λ t. Tracks (copied chunk ∷ steps) s (take_steps steps t))
            (sym (kept_chunk chunk s h e))
            (copied-Tracks chunk steps s h (
              take_steps-Tracks steps (record s { bytes = s.bytes ++ chunk }) h
                (ground (arith, sum, e))))
    ]
take_steps-Tracks (input_ended ∷ steps) s h cap =
    let ih = take_steps-Tracks steps (record s { ended = true }) h cap in
    record { exact = ih.exact; content = ih.content }
take_steps-Tracks (replies ∷ steps) s h cap =
    let gone = never_again steps (replied s) refl in
    record { exact = ground (arith, gone); content = λ k. absurd (ground (arith, k, gone)) }

-- A session that was connected twice is not connected again.
no_third : (s : Sent) (e : Ended) → after_link true s e ≢ none
unfolding after_link
no_third s output_gone h = cc
no_third s closed h = ground (arith, h)

left_at_once :
    (link : Link) (links : List (Option Link)) (b : Bool) (s : Sent) (x : Session)
    → after_link b (take_steps link.steps s) link.ended ≡ some x
    → (relay (some link ∷ links) b s).replays ≡ s.bytes ∷ []
unfolding relay
left_at_once link links b s x e = rw (relay, e) refl

connected_again :
    (link : Link) (links : List (Option Link)) (b : Bool) (s : Sent)
    → after_link b (take_steps link.steps s) link.ended ≡ none
    → (relay (some link ∷ links) b s).replays
      ≡ s.bytes ∷ (relay links true (take_steps link.steps s)).replays
unfolding relay
connected_again link links b s e = rw (relay, e) refl

second_link :
    (links : List (Option Link)) (s : Sent)
    → ((relay links true s).replays ≡ []) ⊎ ((relay links true s).replays ≡ s.bytes ∷ [])
unfolding relay
second_link [] s = inl refl
second_link (none ∷ links) s = inl refl
second_link (some link ∷ links) s =
    let t = take_steps link.steps s in
    elim (Option-cases (after_link true t link.ended)) [
      | inl e ↦ absurd (no_third t link.ended e)
      | inr (x, e) ↦ inr (left_at_once link links true s x e)
    ]

again_only : (s : Sent) (e : Ended) → after_link false s e ≡ none → is_all s.kept ≡ true
unfolding after_link retryable
again_only s output_gone h = absurd (ground (arith, h))
again_only s closed h = ground (arith, h)

-- What is sent again, at most once.
abbrev pub Once : Link → List Bytes → Type 0
Once link replays =
    (length replays ≤ 2)
    × ((first again : Bytes)
        → replays ≡ first ∷ again ∷ []
        → (first ≡ [])
          × (again ≡ copied_in link.steps)
          × (has_reply link.steps ≡ false)
          × (length (copied_in link.steps) ≤ replay_cap))

twice :
    (link : Link) (links : List (Option Link)) (t : Sent)
    → is_all t.kept ≡ true
    → t ≡ take_steps link.steps nothing_sent
    → Once link ([] ∷ (relay links true t).replays)
twice link links t kept same =
    let second = second_link links t in
    let tracks =
      subst (Tracks link.steps nothing_sent) (sym same)
        (take_steps-Tracks link.steps nothing_sent refl (omega arith)) in
    let sent = tracks.content kept in
    let exact = tracks.exact.0 kept in
    (
      ground (arith, second),
      (λ first again h.
          (ground (arith, h), ground (arith, h, second, sent), exact.0, ground (arith, exact))),
    )

-- A session that has a first connection is connected a second time, and then gets again exactly the bytes
-- that the first one had, only if no reply came and what was sent fits into what is kept; there is never
-- a third one.
pub relay_lem :
    (link : Link) (links : List (Option Link))
    → Once link (relay (some link ∷ links) false nothing_sent).replays
relay_lem link links =
    let t = take_steps link.steps nothing_sent in
    elim (Option-cases (after_link false t link.ended)) [
      | inl e ↦
          subst (Once link) (sym (connected_again link links false nothing_sent e))
            (twice link links t (again_only t link.ended e) refl)
      | inr (x, e) ↦
          subst (Once link) (sym (left_at_once link links false nothing_sent x e))
            (omega arith, (λ first again h. absurd (ground (arith, h))))
    ]
