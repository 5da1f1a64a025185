-- ===== src/Text/Pieces.antt =====
-- `text.split(sep)` and `pieces.join(sep)` for a separator of several characters.
use tagents.Prelude.{
  ◌+◌, ◌-◌, ◌≤◌, ℕ, zero, suc, ◌≡◌, ◌≢◌, refl, sym, ap, ◌∙◌, true, Option, none, some, List, [],
  ◌∷◌, ◌++◌, ◌==◌, arith, length, if◌then◌else◌, Bool-cases, inl, inr,
}
use tagents.Text.{Text, cons_piece, starts_with, strip_prefix}

-- The length of a separator behind its first character.
abbrev behind : Text → ℕ
behind [] = zero
behind (_ ∷ s) = length s

-- The pieces of what is left behind the next characters, which belong to a separator.
unfoldable pub pieces : Text → ℕ → Text → List Text
pieces sep skip [] = [] ∷ []
pieces sep (suc skip) (c ∷ s) = pieces sep skip s
pieces sep zero (c ∷ s) =
    let next = pieces sep (behind sep) s in
    let same = pieces sep zero s in if starts_with sep (c ∷ s) then [] ∷ next else cons_piece c same

unfoldable pub split_text : Text → Text → List Text
unfolding pieces
split_text sep s = pieces sep zero s

unfoldable pub join_text : Text → List Text → Text
join_text sep [] = []
join_text sep (p ∷ []) = p
join_text sep (p ∷ q ∷ ps) = p ++ (sep ++ join_text sep (q ∷ ps))

unfoldable pub drop : ℕ → Text → Text
drop zero s = s
drop (suc n) [] = []
drop (suc n) (c ∷ s) = drop n s

-- `text.split_once(c)`
unfoldable pub split_once : ℕ → Text → Option (Text × Text)
split_once sep [] = none
split_once sep (c ∷ s) =
    let rest = split_once sep s in
    if c == sep then some ([], s) else elim rest [ none ↦ none | some (a, b) ↦ some (c ∷ a, b) ]

join-cons :
    (sep : Text) (c : ℕ) (ps : List Text) → join_text sep (cons_piece c ps) ≡ c ∷ join_text sep ps
unfolding join_text
join-cons sep c [] = refl
join-cons sep c (p ∷ []) = refl
join-cons sep c (p ∷ q ∷ ps) = refl

join-nil :
    (sep : Text) (ps : List Text) → ps ≢ [] → join_text sep ([] ∷ ps) ≡ sep ++ join_text sep ps
unfolding join_text
join-nil sep [] h = absurd (h refl)
join-nil sep (p ∷ ps) h = refl

pub cons_piece-ne-nil : (c : ℕ) (ps : List Text) → cons_piece c ps ≢ []
cons_piece-ne-nil c [] h = cc
cons_piece-ne-nil c (p ∷ ps) h = cc

-- There is always one piece at least.
pieces-ne-nil : (sep : Text) (skip : ℕ) (s : Text) → pieces sep skip s ≢ []
unfolding pieces
pieces-ne-nil sep zero [] = λ h. cc
pieces-ne-nil sep (suc skip) [] = λ h. cc
pieces-ne-nil sep (suc skip) (c ∷ s) = pieces-ne-nil sep skip s
pieces-ne-nil sep zero (c ∷ s) = elim (Bool-cases (starts_with sep (c ∷ s))) [
  | inl e ↦ rw e (λ h. cc)
  | inr e ↦ rw e (cons_piece-ne-nil c (pieces sep zero s))
]

starts_with-append : (p s : Text) → starts_with p s ≡ true → s ≡ p ++ drop (length p) s
unfolding starts_with strip_prefix drop
starts_with-append [] s h = refl
starts_with-append (c ∷ p) [] h = absurd (ground arith)
starts_with-append (c ∷ p) (a ∷ s) h =
    let same : a ≡ c = ground (arith, h) in
    let tail : starts_with p s ≡ true = ground (arith, h) in
    λ i. same i ∷ starts_with-append p s tail i

join-pieces :
    (a : ℕ) (sep : Text) (s : Text) (skip : ℕ)
    → join_text (a ∷ sep) (pieces (a ∷ sep) skip s) ≡ drop skip s
unfolding pieces join_text drop
join-pieces a sep [] zero = refl
join-pieces a sep [] (suc skip) = refl
join-pieces a sep (c ∷ s) (suc skip) = join-pieces a sep s skip
join-pieces a sep (c ∷ s) zero = elim (Bool-cases (starts_with (a ∷ sep) (c ∷ s))) [
  | inl e ↦ rw e (
      join-nil (a ∷ sep) (pieces (a ∷ sep) (length sep) s) (pieces-ne-nil (a ∷ sep) (length sep) s)
      ∙ ap (λ t. (a ∷ sep) ++ t) (join-pieces a sep s (length sep))
      ∙ sym (starts_with-append (a ∷ sep) (c ∷ s) e))
  | inr e ↦
      rw e (
        join-cons (a ∷ sep) c (pieces (a ∷ sep) zero s)
        ∙ ap (λ t. c ∷ t) (join-pieces a sep s zero))
]

-- Joining the pieces of a text gives the text back.
pub join_text-split_text : (a : ℕ) (sep s : Text) → join_text (a ∷ sep) (split_text (a ∷ sep) s) ≡ s
unfolding split_text drop
join_text-split_text a sep s = join-pieces a sep s zero

pub drop-all : (n : ℕ) (s : Text) → length s ≤ n → drop n s ≡ []
unfolding drop
drop-all zero [] h = refl
drop-all zero (c ∷ s) h = absurd (omega (arith, h))
drop-all (suc n) [] h = refl
drop-all (suc n) (c ∷ s) h = drop-all n s (omega (arith, h))

pub drop-nil : (n : ℕ) → drop n [] ≡ []
unfolding drop
drop-nil zero = refl
drop-nil (suc n) = refl

pub drop-append : (a b : Text) → drop (length a) (a ++ b) ≡ b
unfolding drop
drop-append [] b = refl
drop-append (c ∷ a) b = drop-append a b

pub drop-drop : (n k : ℕ) (s : Text) → drop (n + k) s ≡ drop k (drop n s)
unfolding drop
drop-drop zero k s = let same : zero + k ≡ k = omega arith in ap (λ n. drop n s) same
drop-drop (suc n) k [] = drop-nil (suc n + k) ∙ sym (drop-nil k)
drop-drop (suc n) k (c ∷ s) =
    let same : suc n + k ≡ suc (n + k) = omega arith in
    ap (λ m. drop m (c ∷ s)) same ∙ drop-drop n k s

pub length-pos : (s : Text) → s ≢ [] → 1 ≤ length s
length-pos [] h = absurd (h refl)
length-pos (c ∷ s) h = omega arith

pub length-drop : (n : ℕ) (s : Text) → length (drop n s) ≡ length s - n
unfolding drop
length-drop zero s = omega arith
length-drop (suc n) [] = omega arith
length-drop (suc n) (c ∷ s) = let ih = length-drop n s in omega (arith, ih)
