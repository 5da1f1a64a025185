-- ===== src/Notify/Screen/Visible.antt =====
-- crates/tagents-core/src/notify/screen.rs: the proofs on the visibility of a pane and the client that is named for it.
use tagents.Prelude.{
  ◌<◌, ◌≤◌, ◌≡◌, ◌⊎◌, inl, inr, ap, subst, Bool, false, ◌||◌, Option, none, some, List, [], ◌∷◌,
  ◌++◌, ltb, arith, All, Bool-cases, if◌then◌else◌,
}
use tagents.Text.{Text}
use tagents.Notify.Screen.{Screen, Client, more_active, most_active, in_window}

-- The client stands in the list, more active than those before it and no less than those behind it.
pub record IsBest (best : Client) (clients : List Client) : Type 0 where
  pub before : List Client
  pub after : List Client
  pub stands : clients ≡ before ++ best ∷ after
  pub above : All (λ c. c.activity < best.activity) before
  pub first : All (λ c. c.activity ≤ best.activity) after

-- A less active client in front.
behind :
    (c : Client) (clients : List Client) (best : Client)
    → IsBest best clients
    → c.activity < best.activity
    → IsBest best (c ∷ clients)
behind c clients best found more = record {
  before = c ∷ found.before;
  after = found.after;
  stands = ap (λ xs. c ∷ xs) found.stands;
  above = (more, found.above);
  first = found.first;
}

abbrev Next : Client → Client → List Client → Client → Bool → Type 0
Next b c clients best less = more_active (some (if less then c else b)) clients ≡ some best

-- From a best client so far: it stays, or a more active one is the best of the rest.
more_active_lem :
    (b : Client) (clients : List Client) (best : Client)
    → more_active (some b) clients ≡ some best
    → ((b ≡ best) × All (λ c. c.activity ≤ best.activity) clients)
      ⊎ (IsBest best clients × (b.activity < best.activity))
unfolding more_active
more_active_lem b [] best h = let same : b ≡ best = ground (arith, h) in inl (same, tt)
more_active_lem b (c ∷ clients) best h = elim (Bool-cases (ltb b.activity c.activity)) [
  | inl less ↦
      let rest = more_active_lem c clients best (subst (Next b c clients best) less h) in
      elim rest [
        | inl (same, below) ↦
            let reached = ap (λ x. x.activity) same in
            inr (
              record {
                before = [];
                after = clients;
                stands = ap (λ x. x ∷ clients) same;
                above = tt;
                first = below;
              },
              ground (arith, less, reached),
            )
        | inr (found, more) ↦ inr (behind c clients best found more, ground (arith, less, more))
      ]
  | inr not_less ↦
      let rest = more_active_lem b clients best (subst (Next b c clients best) not_less h) in
      elim rest [
        | inl (same, below) ↦
            let reached = ap (λ x. x.activity) same in
            inl (same, (ground (arith, not_less, reached), below))
        | inr (found, more) ↦
            let passed : c.activity < best.activity = ground (arith, not_less, more) in
            inr (behind c clients best found passed, more)
      ]
]

-- The client that is chosen stands in the list, is more active than every client before it and no less
-- than every client behind it.
pub most_active-IsBest :
    (clients : List Client) (best : Client) → most_active clients ≡ some best → IsBest best clients
unfolding most_active more_active
most_active-IsBest [] best h = absurd (ground (arith, h))
most_active-IsBest (c ∷ clients) best h = elim (more_active_lem c clients best h) [
  | inl (same, rest) ↦ record {
    before = [];
    after = clients;
    stands = ap (λ x. x ∷ clients) same;
    above = tt;
    first = rest;
  }
  | inr (found, more) ↦ behind c clients best found more
]

-- Whether the test holds of some client.
unfoldable pub any : (Client → Bool) → List Client → Bool
any p [] = false
any p (c ∷ clients) = p c || any p clients

-- Whether the viewport shows the window.
abbrev pub shown_in : Text → Option Client → Bool
shown_in window_id none = false
shown_in window_id (some c) = in_window window_id c
