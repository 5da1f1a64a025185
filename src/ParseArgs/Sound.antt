-- ===== src/ParseArgs/Sound.antt =====
-- crates/tagents-core/src/parse_args.rs: the proofs on the results of `read`, whatever the words are.
use tagents.Prelude.{
  ◌≡◌, refl, ap, Bool, true, false, Option, none, some, List, [], ◌∷◌, ◌++◌, arith, if◌then◌else◌,
  leb, ◌==◌, length, Bool-cases, inl, inr, subst, length-append,
}
use tagents.Dict.{get, get-insert, member, member-append}
use tagents.Text.{Text, text_eq, text_eq_iff, strip_prefix}
use tagents.Utf8.{Bytes, from_utf8_lossy}
use tagents.Exec.{Result, ok, err}
use tagents.ParseArgs.{
  Kind, text, many, flag, Parsed, ParseError, nothing_parsed, all_of, keep, Grammar, listed, Reader,
  ready, ended, wants, Step, read_option, read_long, read_positional, step, finish, read_from, read,
  name_and_value, dashes, looks_like_an_option, unknown, short,
}

-- What a kind of option may have for values: one that is not listed has none.
unfoldable pub fits : Option Kind → Option (List Bytes) → Bool
fits kind none = true
fits none (some values) = false
fits (some text) (some values) = length values == 1
fits (some many) (some values) = leb 1 (length values)
fits (some flag) (some values) = false

pub record IsSound (g : Grammar) (p : Parsed) : Type 0 where
  pub valued : (name : Text) → fits (listed name g.options) (get name p.texts) ≡ true
  pub flagged : (name : Text) → member name p.flags ≡ true → listed name g.options ≡ some flag
  pub bare : g.positionals ≡ false → p.positionals ≡ []

abbrev takes_value : Kind → Bool
takes_value text = true
takes_value many = true
takes_value flag = false

abbrev Waits : Grammar → Reader → Type 0
Waits g (wants name kind raw) = (listed name g.options ≡ some kind) × (takes_value kind ≡ true)
Waits g ready = Unit {0}
Waits g ended = Unit {0}

abbrev Good : Grammar → Step → Type 0
Good g (err _) = Unit {0}
Good g (ok (reader, p)) = Waits g reader × IsSound g p

length-snoc : (xs : List Bytes) (x : Bytes) → leb 1 (length (xs ++ x ∷ [])) ≡ true
length-snoc xs x = ground (arith, length-append xs (x ∷ []))

module _ (g : Grammar) where
  kept-fits :
      (name other : Text) (kind : Kind) (value : Bytes) (p : Parsed)
      → listed other g.options ≡ some kind
      → takes_value kind ≡ true
      → fits (listed name g.options) (get name p.texts) ≡ true
      → fits (listed name g.options) (get name (keep p other kind value).texts) ≡ true
  unfolding keep fits
  kept-fits name other text value p found takes h =
      let same : other ≡ name → listed other g.options ≡ listed name g.options =
        λ e. ap (λ k. listed k g.options) e in
      ground (arith, get-insert other name ([] ++ value ∷ []) p.texts, text_eq_iff other name, same)
  kept-fits name other many value p found takes h =
      let old = all_of (get other p.texts) in
      let same : other ≡ name → listed other g.options ≡ listed name g.options =
        λ e. ap (λ k. listed k g.options) e in
      ground (
        arith,
        get-insert other name (old ++ value ∷ []) p.texts,
        text_eq_iff other name,
        same,
        length-snoc old value,
      )
  kept-fits name other flag value p found takes h = ground arith

  keep-IsSound :
      (other : Text) (kind : Kind) (value : Bytes) (p : Parsed)
      → listed other g.options ≡ some kind
      → takes_value kind ≡ true
      → IsSound g p
      → IsSound g (keep p other kind value)
  unfolding keep
  keep-IsSound other kind value p found takes h = record {
    valued = λ name. kept-fits name other kind value p found takes (h.valued name);
    flagged = h.flagged;
    bare = h.bare;
  }

  switched :
      (name other : Text) (p : Parsed)
      → listed other g.options ≡ some flag
      → IsSound g p
      → member name (if member other p.flags then p.flags else p.flags ++ other ∷ []) ≡ true
      → listed name g.options ≡ some flag
  switched name other p found h isin =
      let same : other ≡ name → listed other g.options ≡ listed name g.options =
        λ e. ap (λ k. listed k g.options) e in
      let before = h.flagged name in
      ground (arith, member-append name other p.flags, text_eq_iff other name, same, before)

  read_option-Good :
      (name : Text) (kind : Kind) (raw : Text) (inline : Option Bytes) (p : Parsed)
      → listed name g.options ≡ some kind
      → IsSound g p
      → Good g (read_option name kind raw inline p)
  unfolding read_option
  read_option-Good name flag raw (some _) p found h = tt
  read_option-Good name flag raw none p found h = (
    tt,
    record {
      valued = h.valued;
      flagged = λ other isin. switched other name p found h isin;
      bare = h.bare;
    },
  )
  read_option-Good name text raw (some value) p found h =
      (tt, keep-IsSound name text value p found refl h)
  read_option-Good name many raw (some value) p found h =
      (tt, keep-IsSound name many value p found refl h)
  read_option-Good name text raw none p found h = ((found, refl), h)
  read_option-Good name many raw none p found h = ((found, refl), h)

  read_long-Good :
      (name : Bytes) (inline : Option Bytes) (p : Parsed)
      → IsSound g p
      → Good g (read_long g name inline p)
  unfolding read_long
  read_long-Good name inline p h = settle (listed name g.options) refl
    where
      settle :
          (o : Option Kind)
          → listed name g.options ≡ o
          → Good g (elim o [
            | none ↦ err (unknown (from_utf8_lossy (dashes ++ name)) g.positionals)
            | some kind ↦ read_option name kind (from_utf8_lossy (dashes ++ name)) inline p
          ])
      settle none e = tt
      settle (some kind) e = read_option-Good name kind _ inline p e h

  read_positional-Good :
      (next : Reader) (bytes : Bytes) (p : Parsed)
      → Waits g next
      → IsSound g p
      → Good g (read_positional next g bytes p)
  unfolding read_positional
  read_positional-Good next bytes p w h = elim (Bool-cases g.positionals) [
    | inl on ↦
        rw on (w, record { valued = h.valued; flagged = h.flagged; bare = λ off. ground arith })
    | inr off ↦ rw off tt
  ]

  step-Good :
      (reader : Reader) (p : Parsed) (bytes : Bytes)
      → Waits g reader
      → IsSound g p
      → Good g (step g reader p bytes)
  unfolding step
  step-Good ended p bytes w h = read_positional-Good ended bytes p tt h
  step-Good (wants name kind raw) p bytes w h = elim (Bool-cases (looks_like_an_option bytes)) [
    | inl on ↦ rw on tt
    | inr off ↦ rw off (tt, keep-IsSound name kind bytes p w.0 w.1 h)
  ]
  step-Good ready p bytes w h = elim (Bool-cases (text_eq bytes dashes)) [
    | inl on ↦ rw on (tt, h)
    | inr off ↦ rw off (word_of (strip_prefix dashes bytes))
  ]
    where
      word_of :
          (o : Option Bytes)
          → Good g (elim o [
            | some long ↦ read_long g (name_and_value long).0 (name_and_value long).1 p
            | none ↦
                if looks_like_an_option bytes
                then err (unknown (short bytes) g.positionals)
                else read_positional ready g bytes p
          ])
      word_of (some long) = read_long-Good _ _ p h
      word_of none = elim (Bool-cases (looks_like_an_option bytes)) [
        | inl on ↦ rw on tt
        | inr off ↦ rw off (read_positional-Good ready bytes p tt h)
      ]

  abbrev Returns : Result ParseError Parsed → Type 0
  Returns (err _) = Unit {0}
  Returns (ok p) = IsSound g p

  finish-Returns : (reader : Reader) (p : Parsed) → IsSound g p → Returns (finish reader p)
  finish-Returns (wants name kind raw) p h = tt
  finish-Returns ready p h = h
  finish-Returns ended p h = h

  read_from-Returns : (s : Step) (words : List Bytes) → Good g s → Returns (read_from g s words)
  unfolding read_from
  read_from-Returns (err why) words good = tt
  read_from-Returns (ok (reader, p)) [] good = finish-Returns reader p good.1
  read_from-Returns (ok (reader, p)) (bytes ∷ words) good =
      read_from-Returns (step g reader p bytes) words (step-Good reader p bytes good.0 good.1)

  nothing-IsSound : IsSound g nothing_parsed
  unfolding get member fits
  nothing-IsSound = record {
    valued = λ name. refl;
    flagged = λ name isin. ground arith;
    bare = λ no. refl;
  }

-- Whatever the words are, a result of `read` has values only for options that are listed with a value, one
-- value where the option is not a multiple one and at least one where it is, flags only that are listed as
-- flags, and positionals only where the grammar allows them.
pub read-IsSound :
    (g : Grammar) (words : List Bytes) (p : Parsed) → read g words ≡ ok p → IsSound g p
unfolding read
read-IsSound g words p e =
    subst (Returns g) e
      (read_from-Returns g (ok (ready, nothing_parsed)) words (tt, nothing-IsSound g))
