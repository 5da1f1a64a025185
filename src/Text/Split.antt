-- ===== src/Text/Split.antt =====
-- `split` of crates/tagents-core/src/notify, against the text that its pieces make.
use tagents.Prelude.{ℕ, ◌≡◌, refl, Bool, true, not, List, [], ◌∷◌, ◌++◌, arith, ◌==◌}
use tagents.Text.{Text, split, all_chars}

-- The pieces with the separator between them.
unfoldable pub join : ℕ → List Text → Text
join sep [] = []
join sep (p ∷ []) = p
join sep (p ∷ q ∷ ps) = p ++ sep ∷ join sep (q ∷ ps)

-- The separator is not in the text.
abbrev pub is_free : ℕ → Text → Bool
is_free sep text = all_chars (λ c. not (c == sep)) text

abbrev pub AllFree : ℕ → List Text → Type 0
AllFree sep [] = Unit
AllFree sep (p ∷ ps) = (is_free sep p ≡ true) × AllFree sep ps

pub split-free : (sep : ℕ) (p : Text) → is_free sep p ≡ true → split sep p ≡ p ∷ []
unfolding split all_chars
split-free sep [] h = refl
split-free sep (c ∷ p) h = let ih = split-free sep p in ground arith

split-append :
    (sep : ℕ) (p rest : Text)
    → is_free sep p ≡ true
    → split sep (p ++ sep ∷ rest) ≡ p ∷ split sep rest
unfolding split all_chars
split-append sep [] rest h = ground arith
split-append sep (c ∷ p) rest h = let ih = split-append sep p rest in ground arith

-- Splitting what was joined gives the pieces back.
pub split-join :
    (sep : ℕ) (p : Text) (ps : List Text)
    → AllFree sep (p ∷ ps)
    → split sep (join sep (p ∷ ps)) ≡ p ∷ ps
unfolding join
split-join sep p [] free = split-free sep p free.0
split-join sep p (q ∷ ps) free =
    let ih = split-join sep q ps free.1 in
    rw (split-append sep p (join sep (q ∷ ps)) free.0, ih) refl
