-- ===== src/Session/Outcome/Plain.antt =====
-- crates/tagents-core/src/session/outcome.rs: the proofs on the document of a turn.
use tagents.Prelude.{
  ℕ, String, ◌≡◌, refl, ap, Bool, true, false, Option, none, some, [], ◌∷◌, ◌++◌, ltb, All,
  if◌then◌else◌,
}
use tagents.Int.{ℤ}
use tagents.Text.{Text, word}
use tagents.Utf16.{Units, from_utf16}
use tagents.Json.{F64, Value, number, string, halves, from_units, Members, no_members, member}
use tagents.Json.Number.{Floats}
use tagents.Json.Number.Scientific.{IsFloats}
use tagents.Json.Writer.Quoted.{IsQuoting}
use tagents.Json.Writer.Shown.{ordered}
use tagents.Json.Reader.{parse_whole}
use tagents.Json.Reader.Plain.{IsPlain, MembersPlain}
use tagents.Json.RoundTrip.{printing, parse-stringify}
use tagents.Session.Outcome.{
  Done, Evidence, Outcome, ended_ok, killed_after_result, timeout, exited, spawn_failed,
  done_members, seen_members, string_or_null, to_value, document, number_or_null, or_null,
  code_value,
}

abbrev pub IsNumber : F64 → Type 0
IsNumber n = IsPlain true (number n)

abbrev IsUnits : Units → Type 0
IsUnits us = All (λ u. ltb u 0x10000 ≡ true) us

abbrev MayBe : {A : Type 0} → (A → Type 0) → Option A → Type 0
MayBe P none = Unit {0}
MayBe P (some a) = P a

-- The numbers of a turn are finite and not -0, its units have 16 bits, and its session's id is plain.
abbrev pub IsDone : Done → Type 0
IsDone d =
    IsUnits d.text
    × MayBe (IsPlain true) d.session_id
    × MayBe IsNumber d.cost_usd
    × MayBe IsNumber d.num_turns
    × IsNumber d.duration_ms

abbrev pub IsEvidence : Evidence → Type 0
IsEvidence e = MayBe (IsPlain true) e.session_id × IsUnits e.detail

abbrev pub IsSound : Outcome → Type 0
IsSound (ended_ok d) = IsDone d
IsSound (killed_after_result d code) = IsDone d
IsSound (timeout e limit) = IsEvidence e × IsNumber limit
IsSound (exited e code signal) = IsEvidence e
IsSound (spawn_failed detail) = Unit {0}

from_units-IsPlain : (us : Units) → IsUnits us → IsPlain true (from_units us)
unfolding from_units
from_units-IsPlain us h = cases (from_utf16 us) refl
  where
    cases :
        (o : Option Text)
        → from_utf16 us ≡ o
        → IsPlain true (elim o [ some s ↦ string s | none ↦ halves us ])
    cases (some s) e = tt
    cases none e = (refl, h, e)

number_or_null-IsPlain : (o : Option F64) → MayBe IsNumber o → IsPlain true (number_or_null o)
number_or_null-IsPlain none h = tt
number_or_null-IsPlain (some n) h = h

or_null-IsPlain : (o : Option Value) → MayBe (IsPlain true) o → IsPlain true (or_null o)
or_null-IsPlain none h = tt
or_null-IsPlain (some v) h = h

string_or_null-IsPlain : (o : Option Text) → IsPlain true (string_or_null o)
string_or_null-IsPlain none = tt
string_or_null-IsPlain (some s) = tt

module _ (from_i32 : ℤ → F64) (from_u64 : ℕ → F64) (ints : (code : ℤ) → IsNumber (from_i32 code))
    (counts : (n : ℕ) → IsNumber (from_u64 n)) where
  code_value-IsPlain : (o : Option ℤ) → IsPlain true (code_value from_i32 from_u64 o)
  code_value-IsPlain none = tt
  code_value-IsPlain (some code) = ints code

  done_members-MembersPlain :
      (kind : String) (d : Done) (rest : Members)
      → IsDone d
      → MembersPlain true rest
      → MembersPlain true (done_members from_i32 from_u64 kind d rest)
  unfolding done_members
  done_members-MembersPlain kind d rest h more = (
    tt,
    (
      from_units-IsPlain d.text h.0,
      (
        or_null-IsPlain d.session_id h.1,
        (
          counts d.tool_uses,
          (
            number_or_null-IsPlain d.cost_usd h.2,
            (number_or_null-IsPlain d.num_turns h.3, (h.4, more)),
          ),
        ),
      ),
    ),
  )

  seen_members-MembersPlain :
      (e : Evidence) → IsEvidence e → MembersPlain true (seen_members from_i32 from_u64 e)
  seen_members-MembersPlain e h = (from_units-IsPlain e.detail h.1, (tt, (tt, tt)))

  to_value-IsPlain : (o : Outcome) → IsSound o → IsPlain true (to_value from_i32 from_u64 o)
  unfolding to_value
  to_value-IsPlain (ended_ok d) h = done_members-MembersPlain "ok" d no_members h tt
  to_value-IsPlain (killed_after_result d code) h =
      done_members-MembersPlain "killed-after-result" d
        (member (word "code") (code_value from_i32 from_u64 code) no_members) h
        (code_value-IsPlain code, tt)
  to_value-IsPlain (timeout e limit) h = (
    tt,
    (
      or_null-IsPlain e.session_id h.0.0,
      (counts e.tool_uses, (h.1, seen_members-MembersPlain e h.0)),
    ),
  )
  to_value-IsPlain (exited e code signal) h = (
    tt,
    (
      or_null-IsPlain e.session_id h.0,
      (
        counts e.tool_uses,
        (code_value-IsPlain code, (string_or_null-IsPlain signal, seen_members-MembersPlain e h)),
      ),
    ),
  )
  to_value-IsPlain (spawn_failed detail) h = (tt, (tt, tt))

-- The document of a turn, in either layout, is a text with a newline behind it that is read as the value of the
-- outcome, where its numbers are finite and not -0 and its units have 16 bits.
pub parse_whole-document :
    (quote : Text → Text) (floats : Floats) (from_i32 : ℤ → F64) (from_u64 : ℕ → F64)
    → IsQuoting quote
    → IsFloats floats
    → ((code : ℤ) → IsNumber (from_i32 code))
    → ((n : ℕ) → IsNumber (from_u64 n))
    → (o : Outcome) (events : Bool) → IsSound o
    → (text : Text) × (document from_i32 from_u64 (printing quote floats) o events
        ≡ some (text ++ (b'\n' ∷ [])))
      × (parse_whole floats.parse_f64 text ≡ some (ordered (to_value from_i32 from_u64 o)))
unfolding document
parse_whole-document quote floats from_i32 from_u64 quoting laws ints counts o events h =
    let value = to_value from_i32 from_u64 o in
    let read =
      parse-stringify quote floats quoting laws (if events then false else true) value
        (to_value-IsPlain from_i32 from_u64 ints counts o h) in
    (
      read.0,
      ap (λ t. elim t [ none ↦ none | some text ↦ some (text ++ (b'\n' ∷ [])) ]) read.1,
      read.2,
    )
