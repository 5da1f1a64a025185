-- ===== src/Notify/Follower/Chunks.antt =====
-- crates/tagents-core/src/notify/events.rs: the proofs on the cuts between the reads of a pump.
use tagents.Prelude.{
  ℕ, ◌≡◌, ◌≢◌, refl, sym, ap, ◌∙◌, Option, none, some, List, [], ◌∷◌, ◌++◌, ◌==◌, arith, append_nil,
  append_assoc, Bool-cases, Option-cases, inl, inr,
}
use tagents.Text.{Text, split, cons_piece}
use tagents.Text.Pieces.{cons_piece-ne-nil}
use tagents.Utf8.{Bytes, from_utf8_lossy}
use tagents.Utf8.Lines.{from_utf8_lossy-newline}
use tagents.Notify.Event.{AgentEvent, parse_event_line}
use tagents.Notify.Follower.{cut, parsed_lines, events_in, gained}

abbrev cut_with : Option (Bytes × Bytes) → Bytes → Option (Bytes × Bytes)
cut_with none more = none
cut_with (some (before, after)) more = some (before, after ++ more)

-- The last newline of what was cut already is the last one, unless there is one in what follows.
cut-append :
    (a b : Bytes)
    → cut (a ++ b) ≡ (elim (cut b) [ none ↦ cut_with (cut a) b | some (u, v) ↦ some (a ++ u, v) ])
unfolding cut
cut-append [] b = elim (Option-cases (cut b)) [ inl e ↦ rw e refl | inr ((u, v), e) ↦ rw e refl ]
cut-append (c ∷ a) b = let ih = cut-append a b in ground (arith, ih)

cut-eq :
    (a : Bytes) (before after : Bytes) → cut a ≡ some (before, after) → a ≡ before ++ 0xa ∷ after
unfolding cut
cut-eq [] before after h = absurd (ground (arith, h))
cut-eq (c ∷ a) before after h = elim (Option-cases (cut a)) [
  | inl e ↦
      let head : before ≡ [] = ground (arith, h, e) in
      let tail : after ≡ a = ground (arith, h, e) in
      let here : c ≡ 0xa = ground (arith, h, e) in λ i. (sym head i) ++ (here i ∷ sym tail i)
  | inr ((u, v), e) ↦
      let head : before ≡ c ∷ u = ground (arith, h, e) in
      let tail : after ≡ v = ground (arith, h, e) in
      ap (λ t. c ∷ t) (cut-eq a u v e) ∙ (λ i. (sym head i) ++ (0xa ∷ sym tail i))
]

cons_piece-append :
    (c : ℕ) (ps qs : List Text) → ps ≢ [] → cons_piece c (ps ++ qs) ≡ cons_piece c ps ++ qs
cons_piece-append c [] qs h = absurd (h refl)
cons_piece-append c (p ∷ ps) qs h = refl

split-ne-nil : (a : Text) → split 0xa a ≢ []
unfolding split
split-ne-nil [] = λ h. cc
split-ne-nil (c ∷ a) = elim (Bool-cases (c == 0xa)) [
  | inl e ↦ rw e (λ h. cc)
  | inr e ↦ rw e (cons_piece-ne-nil c (split 0xa a))
]

split-append : (a b : Text) → split 0xa (a ++ 0xa ∷ b) ≡ split 0xa a ++ split 0xa b
unfolding split
split-append [] b = refl
split-append (c ∷ a) b = elim (Bool-cases (c == 0xa)) [
  | inl e ↦ rw e (ap (λ ps. [] ∷ ps) (split-append a b))
  | inr e ↦ rw e (
      ap (cons_piece c) (split-append a b)
      ∙ cons_piece-append c (split 0xa a) (split 0xa b) (split-ne-nil a))
]

parsed_lines-append :
    (number : Text → Option ℕ) (a b : List Text)
    → parsed_lines number (a ++ b) ≡ parsed_lines number a ++ parsed_lines number b
unfolding parsed_lines
parsed_lines-append number [] b = refl
parsed_lines-append number (line ∷ a) b = elim (Option-cases (parse_event_line number line)) [
  | inl e ↦ rw (parsed_lines, e) (parsed_lines-append number a b)
  | inr (x, e) ↦ rw (parsed_lines, e) (ap (λ t. x ∷ t) (parsed_lines-append number a b))
]

events_in-append :
    (number : Text → Option ℕ) (a b : Bytes)
    → events_in number (a ++ 0xa ∷ b) ≡ events_in number a ++ events_in number b
unfolding events_in
events_in-append number a b =
    ap (λ t. parsed_lines number (split 0xa t)) (from_utf8_lossy-newline a b)
    ∙ ap (parsed_lines number) (split-append (from_utf8_lossy a) (from_utf8_lossy b))
    ∙ parsed_lines-append number (split 0xa (from_utf8_lossy a)) (split 0xa (from_utf8_lossy b))

abbrev joined_with : Bytes → Bytes → Option (Bytes × Bytes) → Option (Bytes × Bytes)
joined_with x c none = some (x ++ [], c)
joined_with x c (some (u, v)) = some (x ++ 0xa ∷ u, v)

cut-joined : (x c : Bytes) → cut (x ++ 0xa ∷ c) ≡ joined_with x c (cut c)
unfolding cut
cut-joined x c =
    cut-append x (0xa ∷ c)
    ∙ elim (Option-cases (cut c)) [ inl e ↦ rw (cut, e) refl | inr ((u, v), e) ↦ rw (cut, e) refl ]

-- What the last newline makes of bytes.
outcome : (Text → Option ℕ) → Option (Bytes × Bytes) → Bytes → List AgentEvent × Bytes
outcome number none all = ([], all)
outcome number (some (before, after)) all = (events_in number before, after)

result_of : (Text → Option ℕ) → Bytes → List AgentEvent × Bytes
unfolding outcome
result_of number all = outcome number (cut all) all

result_of-cut :
    (number : Text → Option ℕ) (all : Bytes) (o : Option (Bytes × Bytes))
    → cut all ≡ o
    → result_of number all ≡ outcome number o all
unfolding result_of
result_of-cut number all o e = ap (λ o. outcome number o all) e

joined_result :
    (number : Text → Option ℕ) (x c : Bytes) (o : Option (Bytes × Bytes))
    → cut c ≡ o
    → result_of number (x ++ 0xa ∷ c)
      ≡ (events_in number x ++ (result_of number c).0, (result_of number c).1)
unfolding outcome
joined_result number x c none e =
    result_of-cut number (x ++ 0xa ∷ c) (some (x ++ [], c))
      (cut-joined x c ∙ ap (joined_with x c) e)
    ∙ (λ i. (events_in number (append_nil x i), c))
    ∙ (λ i. (sym (append_nil (events_in number x)) i, c))
    ∙ (λ i. (
      events_in number x ++ (sym (result_of-cut number c none e) i).0,
      (sym (result_of-cut number c none e) i).1,
    ))
joined_result number x c (some (u, v)) e =
    result_of-cut number (x ++ 0xa ∷ c) (some (x ++ 0xa ∷ u, v))
      (cut-joined x c ∙ ap (joined_with x c) e)
    ∙ (λ i. (events_in-append number x u i, v))
    ∙ (λ i. (
      events_in number x ++ (sym (result_of-cut number c (some (u, v)) e) i).0,
      (sym (result_of-cut number c (some (u, v)) e) i).1,
    ))

-- The bytes so far, and a chunk behind them.
more :
    (number : Text → Option ℕ) (all b : Bytes) (o : Option (Bytes × Bytes))
    → cut all ≡ o
    → result_of number (all ++ b) ≡ (
      (outcome number o all).0 ++ (result_of number ((outcome number o all).1 ++ b)).0,
      (result_of number ((outcome number o all).1 ++ b)).1,
    )
unfolding outcome
more number all b none e = refl
more number all b (some (x, y)) e =
    ap (λ t. result_of number (t ++ b)) (cut-eq all x y e)
    ∙ ap (result_of number) (append_assoc x (0xa ∷ y) b)
    ∙ joined_result number x (y ++ b) (cut (y ++ b)) refl

gained-result :
    (number : Text → Option ℕ) (rest chunk : Bytes)
    → gained number rest chunk ≡ result_of number (rest ++ chunk)
unfolding gained result_of outcome
gained-result number rest chunk = elim (Option-cases (cut (rest ++ chunk))) [
  | inl e ↦ rw (gained, e) refl
  | inr ((u, v), e) ↦ rw (gained, e) refl
]

-- Taking two chunks one after the other gives the events and the rest that both give as one.
pub gained-append :
    (number : Text → Option ℕ) (rest a b : Bytes)
    → gained number rest (a ++ b) ≡ (
      (gained number rest a).0 ++ (gained number (gained number rest a).1 b).0,
      (gained number (gained number rest a).1 b).1,
    )
unfolding result_of
gained-append number rest a b =
    let first = gained-result number rest a in
    gained-result number rest (a ++ b)
    ∙ ap (result_of number) (sym (append_assoc rest a b))
    ∙ more number (rest ++ a) b (cut (rest ++ a)) refl
    ∙ (λ i. (
      (sym first i).0 ++ (sym (gained-result number (sym first i).1 b) i).0,
      (sym (gained-result number (sym first i).1 b) i).1,
    ))
