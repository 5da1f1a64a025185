-- ===== src/Mcp/Registry/Maps.antt =====
-- crates/tagents-core/src/mcp/server.rs, `Registry`: the lemmas on its two maps.
use tagents.Prelude.{
  ℕ, ◌≡◌, ◌↔◌, refl, ap, true, false, none, some, [], ◌∷◌, ◌==◌, arith, if◌then◌else◌, Bool-cases,
  inl, inr,
}
use tagents.Int.{pos, negsuc}
use tagents.Text.{text_eq_iff}
use tagents.Mcp.Registry.{
  RequestId, num, str, id_eq, Entry, Calls, ById, call_of, without, change_call, serial_of, release,
}

pub id_eq_iff : (i j : RequestId) → (id_eq i j ≡ true) ↔ (i ≡ j)
id_eq_iff (num (pos m)) (num (pos n)) = (
  (λ h. ap (λ k. num (pos k)) (ground (arith, h))),
  (λ e. let same : m ≡ n = cc in ground (arith, same)),
)
id_eq_iff (num (negsuc m)) (num (negsuc n)) = (
  (λ h. ap (λ k. num (negsuc k)) (ground (arith, h))),
  (λ e. let same : m ≡ n = cc in ground (arith, same)),
)
id_eq_iff (num (pos m)) (num (negsuc n)) = ((λ h. cc), (λ e. cc))
id_eq_iff (num (negsuc m)) (num (pos n)) = ((λ h. cc), (λ e. cc))
id_eq_iff (num (pos m)) (str t) = ((λ h. cc), (λ e. cc))
id_eq_iff (num (negsuc m)) (str t) = ((λ h. cc), (λ e. cc))
id_eq_iff (str s) (num (pos n)) = ((λ h. cc), (λ e. cc))
id_eq_iff (str s) (num (negsuc n)) = ((λ h. cc), (λ e. cc))
id_eq_iff (str s) (str t) = (
  (λ h. ap str ((text_eq_iff s t).0 h)),
  (λ e. let same : s ≡ t = cc in (text_eq_iff s t).1 same),
)

pub serial_of-release :
    (i j : RequestId) (m : ById)
    → serial_of j (release i m) ≡ (if id_eq i j then none else serial_of j m)
unfolding serial_of release
serial_of-release i j [] = ground arith
serial_of-release i j ((k, s) ∷ m) =
    ground (arith, serial_of-release i j m, id_eq_iff k i, id_eq_iff k j, id_eq_iff i j)

pub call_of-without :
    (t s : ℕ) (cs : Calls) → call_of s (without t cs) ≡ (if t == s then none else call_of s cs)
unfolding call_of without
call_of-without t s [] = ground arith
call_of-without t s ((u, e) ∷ cs) = ground (arith, call_of-without t s cs)

-- Another call's entry is left alone.
pub call_of-change_other :
    (t s : ℕ) (f : Entry → Entry) (cs : Calls)
    → (t == s) ≡ false
    → call_of s (change_call t f cs) ≡ call_of s cs
unfolding call_of change_call
call_of-change_other t s f [] h = refl
call_of-change_other t s f ((u, e) ∷ cs) h =
    let rest = call_of-change_other t s f cs h in ground (arith, rest, h)

pub call_of-change_self :
    (s : ℕ) (f : Entry → Entry) (cs : Calls) (e : Entry)
    → call_of s cs ≡ some e
    → call_of s (change_call s f cs) ≡ some (f e)
unfolding call_of change_call
call_of-change_self s f [] e h = absurd (cc)
call_of-change_self s f ((u, d) ∷ cs) e h = elim (Bool-cases (u == s)) [
  | inl same ↦ rw same (ap (λ o. elim o [ none ↦ none | some x ↦ some (f x) ]) (rw same at h))
  | inr other ↦ rw other (call_of-change_self s f cs e (rw other at h))
]
