-- ===== src/Session/Stream/Cut.antt =====
-- crates/tagents-core/src/session/stream.rs: the proofs on the cuts between the chunks of a stream.
use tagents.Prelude.{
  ℕ, ◌≡◌, refl, sym, ap, ◌∙◌, Bool, false, Option, List, [], ◌∷◌, ◌++◌, ◌==◌, Bool-cases, inl, inr,
  append_assoc, append_nil,
}
use tagents.Text.{Text}
use tagents.Utf8.{Bytes}
use tagents.Json.{F64}
use tagents.Json.Writer.{Printing}
use tagents.Session.Stream.{
  Heard, Reader, unheard, reader_of, split_lines, line, end_line, end_lines, hold, push, finish,
  pushes,
}

abbrev Split : Type 0
Split = List Bytes × Bytes

abbrev glue : Split → Split → Split
glue a ([], rb) = (a.0, a.1 ++ rb)
glue a (l ∷ ls, rb) = (a.0 ++ ((a.1 ++ l) ∷ ls), rb)

abbrev before_all : ℕ → Split → Split
before_all c ([], r) = ([], c ∷ r)
before_all c (l ∷ ls, r) = ((c ∷ l) ∷ ls, r)

split_lines-other :
    (c : ℕ) (s : Bytes) → (c == b'\n') ≡ false → split_lines (c ∷ s) ≡ before_all c (split_lines s)
unfolding split_lines
split_lines-other c s h = rw h (cases (split_lines s))
  where
    cases :
        (p : Split)
        → (elim (p.0) [ [] ↦ ([], c ∷ p.1) | ◌∷◌ l ls ↦ ((c ∷ l) ∷ ls, p.1) ]) ≡ before_all c p
    cases ([], r) = refl
    cases (l ∷ ls, r) = refl

before_all-glue : (c : ℕ) (a b : Split) → before_all c (glue a b) ≡ glue (before_all c a) b
before_all-glue c ([], ra) ([], rb) = refl
before_all-glue c ([], ra) (l ∷ ls, rb) = refl
before_all-glue c (k ∷ ks, ra) ([], rb) = refl
before_all-glue c (k ∷ ks, ra) (l ∷ ls, rb) = refl

glue-newline : (a b : Split) → ([] ∷ (glue a b).0, (glue a b).1) ≡ glue ([] ∷ a.0, a.1) b
glue-newline a ([], rb) = refl
glue-newline a (l ∷ ls, rb) = refl

glue-nothing : (b : Split) → b ≡ glue ([], []) b
glue-nothing ([], rb) = refl
glue-nothing (l ∷ ls, rb) = refl

split_lines-append : (a b : Bytes) → split_lines (a ++ b) ≡ glue (split_lines a) (split_lines b)
unfolding split_lines
split_lines-append [] b = glue-nothing (split_lines b)
split_lines-append (c ∷ s) b = elim (Bool-cases (c == b'\n')) [
  | inl newline ↦ rw newline (
      ap (λ p. ([] ∷ p.0, p.1)) (split_lines-append s b)
      ∙ glue-newline (split_lines s) (split_lines b))
  | inr other ↦
      split_lines-other c (s ++ b) other
      ∙ ap (before_all c) (split_lines-append s b)
      ∙ before_all-glue c (split_lines s) (split_lines b)
      ∙ ap (λ p. glue p (split_lines b)) (sym (split_lines-other c s other))
]

-- The lines of a text, the last one with a newline or not.
abbrev pub unfinished : Bytes → List Bytes
unfinished [] = []
unfinished (c ∷ s) = (c ∷ s) ∷ []

abbrev pub lines_of : Bytes → List Bytes
lines_of s = let split = split_lines s in split.0 ++ unfinished split.1

abbrev pub concat : List Bytes → Bytes
concat [] = []
concat (c ∷ cs) = c ++ concat cs

module _ (std : Printing) (parse_f64 : Text → Option F64) where
  end_line_lem :
      (raw : Bytes) (r : Reader)
      → end_line std parse_f64 raw r ≡ record r {
        heard = line std parse_f64 r.listening (r.pending ++ raw) r.heard;
        pending = [];
      }
  unfolding end_line
  end_line_lem raw r = cases r.heard r.listening r.pending
    where
      cases :
          (h : Heard) (listening : Bool) (p : Bytes)
          → end_line std parse_f64 raw (record { heard = h; listening = listening; pending = p })
            ≡ record {
              heard = line std parse_f64 listening (p ++ raw) h;
              listening = listening;
              pending = [];
            }
      cases h listening [] = refl
      cases h listening (c ∷ p) = refl

  end_line-hold :
      (rest raw : Bytes) (r : Reader)
      → end_line std parse_f64 raw (hold rest r) ≡ end_line std parse_f64 (rest ++ raw) r
  end_line-hold rest raw r =
      end_line_lem raw (hold rest r)
      ∙ ap (λ text. record r { heard = line std parse_f64 r.listening text r.heard; pending = [] })
          (append_assoc (r.pending) rest raw)
      ∙ sym (end_line_lem (rest ++ raw) r)

  end_lines-append :
      (a b : List Bytes) (r : Reader)
      → end_lines std parse_f64 (a ++ b) r ≡ end_lines std parse_f64 b (end_lines std parse_f64 a r)
  unfolding end_lines
  end_lines-append [] b r = refl
  end_lines-append (l ∷ a) b r = end_lines-append a b (end_line std parse_f64 l r)

  abbrev push_split : Split → Reader → Reader
  push_split p r = hold p.1 (end_lines std parse_f64 p.0 r)

  push_split-glue :
      (a b : Split) (r : Reader) → push_split (glue a b) r ≡ push_split b (push_split a r)
  unfolding end_lines
  push_split-glue a ([], rb) r =
      ap (λ p. record (end_lines std parse_f64 a.0 r) { pending = p })
        (sym (append_assoc ((end_lines std parse_f64 a.0 r).pending) a.1 rb))
  push_split-glue a (l ∷ ls, rb) r = ap (hold rb) (
      end_lines-append a.0 ((a.1 ++ l) ∷ ls) r
      ∙ ap (end_lines std parse_f64 ls) (sym (end_line-hold a.1 l (end_lines std parse_f64 a.0 r))))

  push-append :
      (a b : Bytes) (r : Reader)
      → push std parse_f64 (a ++ b) r ≡ push std parse_f64 b (push std parse_f64 a r)
  unfolding push
  push-append a b r =
      ap (λ p. push_split p r) (split_lines-append a b)
      ∙ push_split-glue (split_lines a) (split_lines b) r

  push-nothing : (r : Reader) → push std parse_f64 [] r ≡ r
  unfolding push split_lines end_lines
  push-nothing r = ap (λ p. record r { pending = p }) (append_nil (r.pending))

  pushes-push :
      (cs : List Bytes) (r : Reader) → pushes std parse_f64 cs r ≡ push std parse_f64 (concat cs) r
  unfolding pushes
  pushes-push [] r = sym (push-nothing r)
  pushes-push (c ∷ cs) r =
      pushes-push cs (push std parse_f64 c r) ∙ sym (push-append c (concat cs) r)

  -- What a list of lines comes to.
  abbrev pub hear_lines : Bool → List Bytes → Heard → Heard
  hear_lines listening [] h = h
  hear_lines listening (l ∷ ls) h = hear_lines listening ls (line std parse_f64 listening l h)

  end_lines-fresh :
      (listening : Bool) (ls : List Bytes) (h : Heard)
      → end_lines std parse_f64 ls (record { heard = h; listening = listening; pending = [] })
        ≡ record { heard = hear_lines listening ls h; listening = listening; pending = [] }
  unfolding end_lines end_line
  end_lines-fresh listening [] h = refl
  end_lines-fresh listening (l ∷ ls) h =
      end_lines-fresh listening ls (line std parse_f64 listening l h)

  finish-held :
      (listening : Bool) (rest : Bytes) (h : Heard)
      → (finish std parse_f64 (record { heard = h; listening = listening; pending = rest })).heard
        ≡ hear_lines listening (unfinished rest) h
  unfolding finish
  finish-held listening [] h = refl
  finish-held listening (c ∷ rest) h = refl

  hear_lines-append :
      (listening : Bool) (a b : List Bytes) (h : Heard)
      → hear_lines listening (a ++ b) h ≡ hear_lines listening b (hear_lines listening a h)
  hear_lines-append listening [] b h = refl
  hear_lines-append listening (l ∷ a) b h =
      hear_lines-append listening a b (line std parse_f64 listening l h)

-- However a stream is cut into chunks, at its end the reader has heard the lines of the whole of it one after
-- the other, the last one without a newline included.
pub finish-pushes :
    (std : Printing) (parse_f64 : Text → Option F64) (listening : Bool) (chunks : List Bytes)
    → (finish std parse_f64 (pushes std parse_f64 chunks (reader_of listening))).heard
      ≡ hear_lines std parse_f64 listening (lines_of (concat chunks)) unheard
unfolding push
finish-pushes std parse_f64 listening chunks =
    let split = split_lines (concat chunks) in
    ap (λ r. (finish std parse_f64 r).heard)
      (pushes-push std parse_f64 chunks (reader_of listening)
        ∙ ap (hold split.1) (end_lines-fresh std parse_f64 listening split.0 unheard))
    ∙ finish-held std parse_f64 listening split.1
        (hear_lines std parse_f64 listening split.0 unheard)
    ∙ sym (hear_lines-append std parse_f64 listening split.0 (unfinished split.1) unheard)
