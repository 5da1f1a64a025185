-- ===== src/Mcp/Framer/Lines.antt =====
-- crates/tagents-core/src/mcp/rpc.rs, `Framer`: the proofs on the lines that a framer gives.
use tagents.Prelude.{
  ℕ, zero, suc, ◌+◌, ◌≤◌, ◌≡◌, refl, sym, subst, length-append, append_nil, append_assoc, ap, ◌∙◌,
  true, false, Option, none, some, List, [], ◌∷◌, ◌++◌, ltb, ◌==◌, length, arith, Bool-cases,
  Option-cases, inl, inr, if◌then◌else◌,
}
use tagents.Text.{Text, strip_last, all_chars}
use tagents.Text.Split.{is_free}
use tagents.Text.Pieces.{drop, drop-drop}
use tagents.Utf8.{Bytes, from_utf8_lossy}
use tagents.Mcp.Framer.{Framer, taken, max_buffer, first_line, push, next_line}

-- The bytes that wait in the framer.
abbrev pub pending : Framer → Bytes
pending f = drop f.start f.buf

first_line-append :
    (line more : Bytes)
    → is_free 0xa line ≡ true
    → first_line (line ++ 0xa ∷ more) ≡ some (line, more)
unfolding first_line all_chars
first_line-append [] more h = refl
first_line-append (b ∷ line) more h = let ih = first_line-append line more in ground (arith, h, ih)

first_line-free : (bytes : Bytes) → is_free 0xa bytes ≡ true → first_line bytes ≡ none
unfolding first_line all_chars
first_line-free [] h = refl
first_line-free (b ∷ bytes) h = let ih = first_line-free bytes in ground (arith, h, ih)

-- The lines of bytes behind those of an unfinished line, and what they leave of one.
unfoldable pub lines_from : Bytes → Bytes → List Text × Bytes
lines_from line [] = ([], line)
lines_from line (b ∷ bytes) =
    let next = lines_from [] bytes in
    let same = lines_from (line ++ b ∷ []) bytes in
    if b == 0xa then (from_utf8_lossy (strip_last 0xd line) ∷ next.0, next.1) else same

-- The lines of the first bytes, and those that the later ones add to what they left.
lines_from-append :
    (line a b : Bytes)
    → lines_from line (a ++ b) ≡ (
      (lines_from line a).0 ++ (lines_from (lines_from line a).1 b).0,
      (lines_from (lines_from line a).1 b).1,
    )
unfolding lines_from
lines_from-append line [] b = refl
lines_from-append line (c ∷ a) b = elim (Bool-cases (c == 0xa)) [
  | inl e ↦ rw e (λ i. (
    from_utf8_lossy (strip_last 0xd line) ∷ (lines_from-append [] a b i).0,
    (lines_from-append [] a b i).1,
  ))
  | inr e ↦ rw e (lines_from-append (line ++ c ∷ []) a b)
]

-- What the first newline makes of the lines.
abbrev with_first : Bytes → Bytes → Option (Bytes × Bytes) → List Text × Bytes
with_first line bytes none = ([], line ++ bytes)
with_first line bytes (some (head, more)) = (
  from_utf8_lossy (strip_last 0xd (line ++ head)) ∷ (lines_from [] more).0,
  (lines_from [] more).1,
)

-- A byte that is no newline goes from the bytes to the line.
shifted :
    (line : Bytes) (b : ℕ) (bytes : Bytes) (o : Option (Bytes × Bytes))
    → with_first (line ++ b ∷ []) bytes o
      ≡ with_first line
          (b ∷ bytes)
          (elim o [ none ↦ none | some (head, more) ↦ some (b ∷ head, more) ])
shifted line b bytes none = λ i. ([], append_assoc line (b ∷ []) bytes i)
shifted line b bytes (some (head, more)) = λ i. (
  from_utf8_lossy (strip_last 0xd (append_assoc line (b ∷ []) head i)) ∷ (lines_from [] more).0,
  (lines_from [] more).1,
)

lines_from-first :
    (line bytes : Bytes) → lines_from line bytes ≡ with_first line bytes (first_line bytes)
unfolding lines_from first_line
lines_from-first line [] = λ i. ([], (sym (append_nil line)) i)
lines_from-first line (b ∷ bytes) = elim (Bool-cases (b == 0xa)) [
  | inl e ↦ rw e (λ i. (
    from_utf8_lossy (strip_last 0xd (sym (append_nil line) i)) ∷ (lines_from [] bytes).0,
    (lines_from [] bytes).1,
  ))
  | inr e ↦ rw e (lines_from-first (line ++ b ∷ []) bytes ∙ shifted line b bytes (first_line bytes))
]

-- The lines that a framer gives until it has none, as the server takes them after each chunk.
abbrev pub take_on : (Framer → List Text × Framer) → Option Text × Framer → List Text × Framer
take_on again (none, g) = ([], g)
take_on again (some line, g) = (line ∷ (again g).0, (again g).1)

unfoldable pub take_lines : ℕ → Framer → List Text × Framer
take_lines zero f = ([], f)
take_lines (suc fuel) f = take_on (take_lines fuel) (next_line f)

first_line-eq :
    (bytes line more : Bytes) → first_line bytes ≡ some (line, more) → bytes ≡ line ++ 0xa ∷ more
unfolding first_line
first_line-eq [] line more h = absurd (ground (arith, h))
first_line-eq (b ∷ bytes) line more h = elim (Bool-cases (b == 0xa)) [
  | inl e ↦
      let head : line ≡ [] = ground (arith, h, e) in
      let tail : more ≡ bytes = ground (arith, h, e) in
      let here : b ≡ 0xa = ground (arith, e) in λ i. (sym head i) ++ (here i ∷ sym tail i)
  | inr e ↦ elim (Option-cases (first_line bytes)) [
    | inl f ↦ absurd (ground (arith, h, e, f))
    | inr ((u, v), f) ↦
        let head : line ≡ b ∷ u = ground (arith, h, e, f) in
        let tail : more ≡ v = ground (arith, h, e, f) in
        ap (λ t. b ∷ t) (first_line-eq bytes u v f) ∙ (λ i. (sym head i) ++ (0xa ∷ sym tail i))
  ]
]

drop-line : (line more : Bytes) → drop (suc (length line)) (line ++ 0xa ∷ more) ≡ more
unfolding drop
drop-line [] more = refl
drop-line (b ∷ line) more = drop-line line more

-- A framer gives the first whole line of what is pending and keeps the rest.
record Gives (f : Framer) (line more : Bytes) : Type 0 where
  told : next_line f ≡ (
    some (from_utf8_lossy (strip_last 0xd line)),
    record f { start = f.start + suc (length line) },
  )
  left : pending (next_line f).1 ≡ more

gives :
    (f : Framer) (line more : Bytes)
    → first_line (pending f) ≡ some (line, more)
    → Gives f line more
unfolding next_line
gives f line more h = record {
  told = rw (next_line, h) refl;
  left =
      rw (next_line, h)
        (drop-drop f.start (suc (length line)) f.buf
          ∙ ap (drop (suc (length line))) (first_line-eq (pending f) line more h)
          ∙ drop-line line more);
}

gives_none : (f : Framer) → first_line (pending f) ≡ none → next_line f ≡ (none, f)
unfolding next_line
gives_none f h = rw (next_line, h) refl

record Drains (f : Framer) (got : List Text × Framer) : Type 0 where
  lines : got.0 ≡ (lines_from [] (pending f)).0
  left : pending got.1 ≡ (lines_from [] (pending f)).1

no_length : (s : Bytes) → length s ≤ 0 → s ≡ []
no_length [] h = refl
no_length (b ∷ s) h = ground (arith, h)

take_lines-Drains :
    (fuel : ℕ) (f : Framer) → length (pending f) ≤ fuel → Drains f (take_lines fuel f)
unfolding take_lines lines_from
take_lines-Drains zero f bound =
    let nothing = no_length (pending f) bound in
    record {
      lines = ap (λ p. (lines_from [] p).0) (sym nothing);
      left = nothing ∙ ap (λ p. (lines_from [] p).1) (sym nothing);
    }
take_lines-Drains (suc fuel) f bound = elim (Option-cases (first_line (pending f))) [
  | inl h ↦
      let all = lines_from-first [] (pending f) ∙ ap (with_first [] (pending f)) h in
      subst (λ n. Drains f (take_on (take_lines fuel) n)) (sym (gives_none f h))
        (record { lines = sym (ap (λ l. l.0) all); left = sym (ap (λ l. l.1) all) })
  | inr ((line, more), h) ↦
      let all = lines_from-first [] (pending f) ∙ ap (with_first [] (pending f)) h in
      let given = gives f line more h in
      let g : Framer = record f { start = f.start + suc (length line) } in
      let kept : pending g ≡ more = ap (λ n. pending n.1) (sym given.told) ∙ given.left in
      let whole = ap length (first_line-eq (pending f) line more h) in
      let sum = length-append line (0xa ∷ more) in
      let same = ap length kept in
      let ih = take_lines-Drains fuel g (omega (arith, bound, whole, sum, same)) in
      subst (λ n. Drains f (take_on (take_lines fuel) n)) (sym given.told)
        (record {
          lines =
              ap (λ t. from_utf8_lossy (strip_last 0xd line) ∷ t)
                (ih.lines ∙ ap (λ p. (lines_from [] p).0) kept)
              ∙ sym (ap (λ l. l.0) all);
          left = ih.left ∙ ap (λ p. (lines_from [] p).1) kept ∙ sym (ap (λ l. l.1) all);
        })
]

-- A chunk of the stream: it is pushed, and the lines that are whole then are taken.
unfoldable pub receive : Bytes → Framer → List Text × Framer
receive chunk f = let g = (push chunk f).1 in take_lines (length (pending g)) g

-- The framer with the chunk behind what was pending.
abbrev filled : Bytes → Framer → Framer
filled chunk f = record { buf = pending f ++ chunk; start = zero }

pushed :
    (chunk : Bytes) (f : Framer)
    → length (pending f) + length chunk ≤ max_buffer
    → push chunk f ≡ (taken, filled chunk f)
unfolding push
pushed chunk f fits =
    let small : ltb max_buffer (length (pending f) + length chunk) ≡ false = ground arith in
    rw small refl

filled-lines :
    (chunk : Bytes) (f : Framer)
    → first_line (pending f) ≡ none
    → lines_from [] (pending (filled chunk f)) ≡ lines_from (pending f) chunk
unfolding drop
filled-lines chunk f h =
    let begun = lines_from-first [] (pending f) ∙ ap (with_first [] (pending f)) h in
    lines_from-append [] (pending f) chunk
    ∙ (λ i. ((begun i).0 ++ (lines_from (begun i).1 chunk).0, (lines_from (begun i).1 chunk).1))

-- A framer that holds no whole line and takes a chunk without an overflow gives exactly the lines that the
-- stream has by then, and keeps the unfinished one: those of two chunks one after the other are those
-- of the two as one.
pub receive-lines_from :
    (f : Framer) (chunk : Bytes)
    → first_line (pending f) ≡ none
    → length (pending f) + length chunk ≤ max_buffer
    → ((push chunk f).0 ≡ taken)
      × ((receive chunk f).0 ≡ (lines_from (pending f) chunk).0)
      × (pending (receive chunk f).1 ≡ (lines_from (pending f) chunk).1)
      × ((a b : Bytes)
          → chunk ≡ a ++ b
          → (lines_from (pending f) chunk).0
            ≡ (lines_from (pending f) a).0 ++ (lines_from (lines_from (pending f) a).1 b).0)
unfolding receive
receive-lines_from f chunk none_whole fits =
    let g = filled chunk f in
    let got = pushed chunk f fits in
    let all = filled-lines chunk f none_whole in
    let drained = take_lines-Drains (length (pending g)) g (omega arith) in
    let received : receive chunk f ≡ take_lines (length (pending g)) g =
      ap (λ p. take_lines (length (pending p.1)) p.1) got in
    (
      ap (λ p. p.0) got,
      ap (λ l. l.0) received ∙ drained.lines ∙ ap (λ l. l.0) all,
      ap (λ l. pending l.1) received ∙ drained.left ∙ ap (λ l. l.1) all,
      (λ a b e.
          ap (λ c. (lines_from (pending f) c).0) e
          ∙ ap (λ l. l.0) (lines_from-append (pending f) a b)),
    )
