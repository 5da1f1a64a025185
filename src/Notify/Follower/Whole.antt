-- ===== src/Notify/Follower/Whole.antt =====
-- crates/tagents-core/src/notify/events.rs: the proofs on a pump of a file that can be read.
use tagents.Prelude.{
  ℕ, zero, suc, ◌+◌, ◌-◌, ◌≤◌, ◌<◌, ◌≡◌, ◌≢◌, refl, sym, ap, ◌∙◌, subst, min, none, List, [], ◌∷◌,
  ◌++◌, ltb, arith, length, Bool-cases, inl, inr, if◌then◌else◌,
}
use tagents.Text.{Text}
use tagents.Text.Pieces.{drop, drop-all, drop-append, drop-drop, length-drop, length-pos}
use tagents.Utf8.{Bytes}
use tagents.Exec.{Exec, Result, ok, err, pure, gets, modify, ◌>>=◌, ◌>>◌, case_result}
use tagents.Notify.Event.{AgentEvent}
use tagents.Notify.Follower.{
  Disk, Cursor, Pumping, cut, gained, disk, take_in, is_nil, read_chunks, restart, pump,
  chunk_bytes,
}
use tagents.Notify.Follower.Pumped.{HasRead, read_nothing, read_more, gained-IsWhole}

-- A disk on which the file has the content, for as long as it is read: its size is told, and a read
-- before its end gives some of the bytes that stand there.
pub record IsReadable {W : Type 0} (d : Disk W) (file : ℕ) (content : Bytes) : Type 0 where
  pub told : (w : W) → (d.size file w).0 ≡ ok (length content)
  pub chunk : ℕ → ℕ → W → Bytes
  pub rest : ℕ → ℕ → W → Bytes
  pub gives :
      (offset want : ℕ) (w : W)
      → offset < length content
      → (d.read_at file offset want w).0 ≡ ok (chunk offset want w)
  pub stands :
      (offset want : ℕ) (w : W)
      → offset < length content
      → drop offset content ≡ chunk offset want w ++ rest offset want w
  pub some : (offset want : ℕ) (w : W) → chunk offset want w ≢ []

module _ {W : Type 0} (d : Disk W) (file : ℕ) (content : Bytes)
    (readable : IsReadable d file content) where
  -- What the loop does with what it has read.
  after_read : ℕ → Result Text Bytes → Exec (Pumping W) (Result Text (Unit {0}))
  after_read fuel r =
      case_result r (λ why. pure (err why))
        (λ chunk.
          if is_nil chunk
          then pure (ok tt)
          else do modify (take_in d.number chunk); read_chunks d fuel (length content))

  -- Whether all bytes from the offset on were read, without an error.
  record ReadAll (s : Pumping W) (bytes : Bytes) (r : Result Text (Unit {0})) (t : Pumping W)
      : Type 0 where
    worked : r ≡ ok tt
    all : HasRead d.number s t bytes

  abbrev FromHere : ℕ → Pumping W → Bytes → Type 0
  FromHere fuel s bytes = let t = read_chunks d fuel (length content) s in ReadAll s bytes t.0 t.1

  abbrev AfterRead : ℕ → Pumping W → W → Bytes → Result Text Bytes → Type 0
  AfterRead fuel s w bytes r =
      let t = after_read fuel r (record s { world = w }) in ReadAll s bytes t.0 t.1

  one_read-all :
      (fuel : ℕ) (s : Pumping W) (w : W) (chunk bytes : Bytes)
      → chunk ≢ []
      → (let t =
            read_chunks d fuel (length content) (take_in d.number chunk (record s { world = w })) in
          ReadAll (take_in d.number chunk (record s { world = w })) bytes t.0 t.1)
      → let t = after_read fuel (ok chunk) (record s { world = w }) in
        ReadAll s (chunk ++ bytes) t.0 t.1
  unfolding after_read modify pure ◌>>=◌
  one_read-all fuel s w [] bytes ne h = absurd (ne refl)
  one_read-all fuel s w (b ∷ chunk) bytes ne h = record {
    worked = h.worked;
    all = read_more d s _ w (b ∷ chunk) bytes h.all;
  }

  read_chunks-all :
      (fuel : ℕ) (s : Pumping W)
      → s.cursor.file ≡ file
      → cut s.cursor.rest ≡ none
      → length content - s.cursor.offset ≤ fuel
      → let t = read_chunks d fuel (length content) s in
        ReadAll s (drop s.cursor.offset content) t.0 t.1
  unfolding read_chunks disk gets modify pure ◌>>=◌ after_read take_in
  read_chunks-all zero s same h bound = record {
    worked = refl;
    all =
        subst (HasRead d.number s s) (sym (drop-all s.cursor.offset content (omega (arith, bound))))
          (read_nothing d s s.world h);
  }
  read_chunks-all (suc fuel) s same h bound =
      elim (Bool-cases (ltb s.cursor.offset (length content))) [
        | inl e ↦
            let offset = s.cursor.offset in
            let want = min (length content - offset) chunk_bytes in
            let w = (d.read_at s.cursor.file offset want s.world).1 in
            let before_end : offset < length content = ground (arith, e) in
            let chunk = readable.chunk offset want s.world in
            let bytes = readable.rest offset want s.world in
            let stands = readable.stands offset want s.world before_end in
            let gives =
              ap (λ f. (d.read_at f offset want s.world).0) same
              ∙ readable.gives offset want s.world before_end in
            let some = readable.some offset want s.world in
            let one = length-pos chunk some in
            let taken = take_in d.number chunk (record s { world = w }) in
            let left : drop (offset + length chunk) content ≡ bytes =
              drop-drop offset (length chunk) content
              ∙ ap (drop (length chunk)) stands
              ∙ drop-append chunk bytes in
            let later =
              read_chunks-all fuel taken same (gained-IsWhole d.number s.cursor.rest chunk)
                (omega (arith, bound, one)) in
            let first =
              one_read-all fuel s w chunk bytes some (subst (FromHere fuel taken) left later) in
            rw e (
              subst (λ b. AfterRead fuel s w b (d.read_at s.cursor.file offset want s.world).0)
                (sym stands) (subst (AfterRead fuel s w (chunk ++ bytes)) (sym gives) first))
        | inr e ↦ rw e (record {
          worked = refl;
          all =
              subst (HasRead d.number s s)
                (sym (drop-all s.cursor.offset content (ground (arith, e))))
                (read_nothing d s s.world h);
        })
      ]

  restart-IsWhole :
      (size : ℕ) (s : Pumping W)
      → cut s.cursor.rest ≡ none
      → cut (restart d size s).cursor.rest ≡ none
  unfolding restart cut
  restart-IsWhole size s h = elim (Bool-cases (ltb size s.cursor.offset)) [
    | inl e ↦ rw e refl
    | inr e ↦ rw e h
  ]

  restart-file : (size : ℕ) (s : Pumping W) → (restart d size s).cursor.file ≡ s.cursor.file
  unfolding restart
  restart-file size s = elim (Bool-cases (ltb size s.cursor.offset)) [
    | inl e ↦ rw e refl
    | inr e ↦ rw e refl
  ]

  -- The rest of `pump` once the size is known.
  sized : Result Text ℕ → Exec (Pumping W) (Result Text (Unit {0}))
  sized size =
      case_result size (λ why. pure (err why))
        (λ size. do modify (restart d size); read_chunks d size size)

  abbrev Pumped : Pumping W → Result Text ℕ → Type 0
  Pumped s r =
      let from = restart d (length content) s in
      let t = sized r s in ReadAll from (drop from.cursor.offset content) t.0 t.1

  sized-all :
      (s : Pumping W)
      → s.cursor.file ≡ file
      → cut s.cursor.rest ≡ none
      → Pumped s (ok (length content))
  unfolding sized modify ◌>>=◌
  sized-all s same h =
      let from = restart d (length content) s in
      read_chunks-all (length content) from (restart-file (length content) s ∙ same)
        (restart-IsWhole (length content) s h) (omega arith)

  pumped :
      (s : Pumping W)
      → s.cursor.file ≡ file
      → cut s.cursor.rest ≡ none
      → Pumped
          (record s { world = (d.size s.cursor.file s.world).1 })
          (d.size s.cursor.file s.world).0
  pumped s same h =
      let told = ap (λ f. (d.size f s.world).0) same ∙ readable.told s.world in
      let t = record s { world = (d.size s.cursor.file s.world).1 } in
      subst (Pumped t) (sym told) (sized-all t same h)

  -- The cursor from which a pump reads: where it was, or the start of a file that is shorter now.
  abbrev pub start_of : Cursor → Cursor
  start_of c = if ltb (length content) c.offset then record c { offset = 0; rest = [] } else c

  restart-cursor : (s : Pumping W) → (restart d (length content) s).cursor ≡ start_of s.cursor
  unfolding restart
  restart-cursor s = elim (Bool-cases (ltb (length content) s.cursor.offset)) [
    | inl e ↦ rw e refl
    | inr e ↦ rw e refl
  ]

  restart-events : (s : Pumping W) → (restart d (length content) s).events ≡ s.events
  unfolding restart
  restart-events s = elim (Bool-cases (ltb (length content) s.cursor.offset)) [
    | inl e ↦ rw e refl
    | inr e ↦ rw e refl
  ]

  end_of :
      (c : Cursor)
      → (start_of c).offset + length (drop (start_of c).offset content) ≡ length content
  end_of c = let rest = length-drop (start_of c).offset content in ground (arith, rest)

  -- A pump of a readable file returns without an error. It has then read the file from where it was, or
  -- from the start when the file is shorter than that, to its end, whatever pieces the reads gave: the
  -- new events are those of the lines that are whole now, and the bytes behind the last newline are kept.
  pub pump-HasRead :
      (s : Pumping W)
      → s.cursor.file ≡ file
      → cut s.cursor.rest ≡ none
      → let c = start_of s.cursor in
        let t = pump d s in
        let more = gained d.number c.rest (drop c.offset content) in
        (t.0 ≡ ok tt)
        × (t.1.events ≡ s.events ++ more.0)
        × (t.1.cursor.rest ≡ more.1)
        × (cut more.1 ≡ none)
        × (t.1.cursor.offset ≡ length content)
  unfolding pump sized disk gets pure restart ◌>>=◌
  pump-HasRead s same h =
      let t = record s { world = (d.size s.cursor.file s.world).1 } in
      let from = restart d (length content) t in
      let p = pumped s same h in
      let here = restart-cursor t in
      let more : Cursor → List AgentEvent × Bytes =
        λ c. gained d.number c.rest (drop c.offset content) in
      (
        p.worked,
        p.all.events ∙ (λ i. restart-events t i ++ (more (here i)).0),
        p.all.rest ∙ (λ i. (more (here i)).1),
        gained-IsWhole d.number (start_of s.cursor).rest (drop (start_of s.cursor).offset content),
        p.all.offset
            ∙ (λ i. (here i).offset + length (drop (here i).offset content))
            ∙ end_of s.cursor,
      )
