-- ===== src/Dict.antt =====
-- Rust's `HashMap<String, V>` and `HashSet<String>`. The code reads none of them in order, so an
-- association list with each key once stands for one.
use tagents.Prelude.{
  ◌≡◌, ◌++◌, Bool, false, ◌&&◌, ◌||◌, Option, none, some, List, [], ◌∷◌, arith, if◌then◌else◌, not,
}
use tagents.Text.{Text, text_eq, text_eq_iff}

abbrev pub Dict {ℓ} : Type ℓ → Type ℓ
Dict V = List (Text × V)

module _ {ℓ} {V : Type ℓ} where
  -- `map.get(key)`
  unfoldable pub get : Text → Dict V → Option V
  get k [] = none
  get k ((j, v) ∷ m) = if text_eq j k then some v else get k m

  -- `map.remove(key)`
  unfoldable pub remove : Text → Dict V → Dict V
  remove k [] = []
  remove k ((j, v) ∷ m) = let rest = remove k m in if text_eq j k then rest else (j, v) ∷ rest

  -- `map.insert(key, value)`
  unfoldable pub insert : Text → V → Dict V → Dict V
  unfolding remove
  insert k v m = (k, v) ∷ remove k m

  pub get-remove :
      (k j : Text) (m : Dict V) → get j (remove k m) ≡ (if text_eq k j then none else get j m)
  unfolding get remove
  get-remove k j [] = ground arith
  get-remove k j ((i, v) ∷ m) =
      ground (arith, get-remove k j m, text_eq_iff i k, text_eq_iff i j, text_eq_iff k j)

  pub get-insert :
      (k j : Text) (v : V) (m : Dict V)
      → get j (insert k v m) ≡ (if text_eq k j then some v else get j m)
  unfolding get insert
  get-insert k j v m = ground (arith, get-remove k j m)

-- `set.contains(key)`
unfoldable pub member : Text → List Text → Bool
member k [] = false
member k (j ∷ m) = text_eq j k || member k m

-- `set.remove(key)`, without its result
unfoldable pub discard : Text → List Text → List Text
discard k [] = []
discard k (j ∷ m) = let rest = discard k m in if text_eq j k then rest else j ∷ rest

-- `set.insert(key)`, without its result
unfoldable pub add : Text → List Text → List Text
unfolding discard
add k m = k ∷ discard k m

pub member-discard :
    (k j : Text) (m : List Text) → member j (discard k m) ≡ (not (text_eq k j) && member j m)
unfolding member discard
member-discard k j [] = ground arith
member-discard k j (i ∷ m) =
    ground (arith, member-discard k j m, text_eq_iff i k, text_eq_iff i j, text_eq_iff k j)

pub member-add : (k j : Text) (m : List Text) → member j (add k m) ≡ (text_eq k j || member j m)
unfolding member add
member-add k j m = ground (arith, member-discard k j m)

pub member-append :
    (k j : Text) (ks : List Text) → member k (ks ++ j ∷ []) ≡ (member k ks || text_eq j k)
unfolding member
member-append k j [] = ground arith
member-append k j (i ∷ ks) = ground (arith, member-append k j ks)
