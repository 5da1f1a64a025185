-- ===== src/Notify/Follower/Pumped.antt =====
-- crates/tagents-core/src/notify/events.rs: the lemmas on the state that a pump leaves.
use tagents.Prelude.{
  ℕ, zero, suc, ◌+◌, ◌-◌, ◌≡◌, refl, sym, ap, ◌∙◌, min, Option, none, some, [], ◌∷◌, ◌++◌, ltb,
  arith, length, length-append, append_nil, append_assoc, Bool-cases, Option-cases, inl, inr,
  if◌then◌else◌,
}
use tagents.Text.{Text}
use tagents.Utf8.{Bytes}
use tagents.Exec.{Result, ok, err, pure, gets, modify, ◌>>=◌, ◌>>◌, case_result}
use tagents.Notify.Follower.{
  Disk, Pumping, cut, gained, disk, take_in, is_nil, read_chunks, chunk_bytes,
}
use tagents.Notify.Follower.Chunks.{gained-append}

-- Behind the last newline there is none.
cut-tail : (a x y : Bytes) → cut a ≡ some (x, y) → cut y ≡ none
unfolding cut
cut-tail [] x y h = absurd (ground (arith, h))
cut-tail (c ∷ a) x y h = elim (Option-cases (cut a)) [
  | inl e ↦ let same : y ≡ a = ground (arith, h, e) in ap cut same ∙ e
  | inr ((u, v), e) ↦ let same : y ≡ v = ground (arith, h, e) in ap cut same ∙ cut-tail a u v e
]

gained-nil :
    (number : Text → Option ℕ) (rest : Bytes) → cut rest ≡ none → gained number rest [] ≡ ([], rest)
unfolding gained
gained-nil number rest h = elim (Option-cases (cut (rest ++ []))) [
  | inl e ↦ rw (gained, e) (λ i. ([], append_nil rest i))
  | inr ((u, v), e) ↦
      let clash : none ≡ some (u, v) = sym h ∙ ap cut (sym (append_nil rest)) ∙ e in
      absurd (ground (arith, clash))
]

-- The bytes that are left hold no newline.
pub gained-IsWhole :
    (number : Text → Option ℕ) (rest chunk : Bytes) → cut (gained number rest chunk).1 ≡ none
unfolding gained
gained-IsWhole number rest chunk = elim (Option-cases (cut (rest ++ chunk))) [
  | inl e ↦ rw (gained, e) e
  | inr ((u, v), e) ↦ rw (gained, e) (cut-tail (rest ++ chunk) u v e)
]

-- The pump has read the bytes: it has the events of the lines that they end, and what they leave.
pub record HasRead {W : Type 0} (number : Text → Option ℕ) (before after : Pumping W)
    (bytes : Bytes) : Type 0 where
  pub events : after.events ≡ before.events ++ (gained number before.cursor.rest bytes).0
  pub rest : after.cursor.rest ≡ (gained number before.cursor.rest bytes).1
  pub offset : after.cursor.offset ≡ before.cursor.offset + length bytes
  pub file : after.cursor.file ≡ before.cursor.file
  pub whole : cut after.cursor.rest ≡ none

module _ {W : Type 0} (d : Disk W) where
  pub read_nothing :
      (s : Pumping W) (w : W)
      → cut s.cursor.rest ≡ none
      → HasRead d.number s (record s { world = w }) []
  read_nothing s w h =
      let none = gained-nil d.number s.cursor.rest h in
      record {
        events = sym (append_nil s.events) ∙ ap (λ g. s.events ++ g.0) (sym none);
        rest = sym (ap (λ g. g.1) none);
        offset = omega arith;
        file = refl;
        whole = h;
      }

  pub read_more :
      (s t : Pumping W) (w : W) (chunk bytes : Bytes)
      → HasRead d.number (take_in d.number chunk (record s { world = w })) t bytes
      → HasRead d.number s t (chunk ++ bytes)
  unfolding take_in
  read_more s t w chunk bytes h =
      let both = gained-append d.number s.cursor.rest chunk bytes in
      record {
        events =
            h.events
            ∙ append_assoc s.events (gained d.number s.cursor.rest chunk).0
                (gained d.number (gained d.number s.cursor.rest chunk).1 bytes).0
            ∙ ap (λ g. s.events ++ g.0) (sym both);
        rest = h.rest ∙ sym (ap (λ g. g.1) both);
        offset =
            let both_offsets = h.offset in
            let lengths = length-append chunk bytes in omega (arith, both_offsets, lengths);
        file = h.file;
        whole = h.whole;
      }

  -- One read, when the rounds behind it are as they should be.
  one_read :
      (fuel size : ℕ) (s : Pumping W) (r : Result Text Bytes) (w : W)
      → cut s.cursor.rest ≡ none
      → ((t : Pumping W)
          → cut t.cursor.rest ≡ none
          → (bytes : Bytes) × HasRead d.number t (read_chunks d fuel size t).1 bytes)
      → let t =
          case_result r
            (λ why. pure (err why))
            (λ chunk.
              if is_nil chunk
              then pure (ok tt)
              else do modify (take_in d.number chunk); read_chunks d fuel size)
            (record s { world = w }) in
        (bytes : Bytes) × HasRead d.number s t.1 bytes
  unfolding modify pure take_in ◌>>=◌
  one_read fuel size s (err why) w h again = ([], read_nothing s w h)
  one_read fuel size s (ok []) w h again = ([], read_nothing s w h)
  one_read fuel size s (ok (b ∷ chunk)) w h again =
      let taken = take_in d.number (b ∷ chunk) (record s { world = w }) in
      let rest = again taken (gained-IsWhole d.number s.cursor.rest (b ∷ chunk)) in
      ((b ∷ chunk) ++ rest.0, read_more s _ w (b ∷ chunk) rest.0 rest.1)

  read_chunks-HasRead :
      (fuel size : ℕ) (s : Pumping W)
      → cut s.cursor.rest ≡ none
      → (bytes : Bytes) × HasRead d.number s (read_chunks d fuel size s).1 bytes
  unfolding read_chunks disk gets modify pure ◌>>=◌
  read_chunks-HasRead zero size s h = ([], read_nothing s s.world h)
  read_chunks-HasRead (suc fuel) size s h = elim (Bool-cases (ltb s.cursor.offset size)) [
    | inl e ↦ rw e (
        let read =
          d.read_at s.cursor.file s.cursor.offset (min (size - s.cursor.offset) chunk_bytes)
            s.world in
        one_read fuel size s read.0 read.1 h (read_chunks-HasRead fuel size))
    | inr e ↦ rw e ([], read_nothing s s.world h)
  ]
