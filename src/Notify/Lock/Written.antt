-- ===== src/Notify/Lock/Written.antt =====
-- crates/tagents-core/src/notify/lock.rs: the lemmas on a lock file as it is written and read.
use tagents.Prelude.{
  ℕ, ◌≤◌, ◌≡◌, refl, sym, ap, Bool, true, false, not, ◌&&◌, ◌||◌, Option, none, some, [], ◌∷◌, ◌++◌,
  ltb, ◌==◌, arith, if◌then◌else◌, length, append_assoc,
}
use tagents.Text.{Text, is_empty, is_space, all_chars, trim, trim_start, trim_end, number_text}
use tagents.Json.Number.Digits.{
  AllDigits, digits_value-number_text, number_text-AllDigits, number_text-filled,
}
use tagents.Notify.Lock.{LockHolder, render, digit_run, started_of, parse_line, content_of}

-- A start time that is written as it is read: no white space at its ends, and one line.
abbrev pub IsStamp : Text → Type 0
IsStamp [] = ⊥
IsStamp (c ∷ s) =
    (is_space c ≡ false)
    × (trim_end is_space (c ∷ s) ≡ c ∷ s)
    × (all_chars (λ d. not (d == b'\n')) (c ∷ s) ≡ true)

abbrev pub IsStart : Option Text → Type 0
IsStart none = Unit {0}
IsStart (some s) = IsStamp s

trim_end-behind :
    (p : ℕ → Bool) (s : Text) (c : ℕ) → p c ≡ true → trim_end p (s ++ (c ∷ [])) ≡ trim_end p s
unfolding trim_end
trim_end-behind p [] c h = rw h refl
trim_end-behind p (d ∷ s) c h = rw (trim_end-behind p s c h) refl

trim_end-append :
    (p : ℕ → Bool) (s t : Text)
    → trim_end p t ≡ t
    → is_empty t ≡ false
    → trim_end p (s ++ t) ≡ s ++ t
unfolding trim_end
trim_end-append p [] t h filled = h
trim_end-append p (c ∷ s) t h filled = rw (trim_end-append p s t h filled) (not_empty c s t filled)
  where
    not_empty :
        (c : ℕ) (s t : Text)
        → is_empty t ≡ false
        → (if p c && is_empty (s ++ t) then [] else c ∷ (s ++ t)) ≡ c ∷ (s ++ t)
    not_empty c [] t filled = rw filled (ground arith)
    not_empty c (d ∷ s) t filled = ground arith

trim_end-digits : (s : Text) → AllDigits s → trim_end is_space s ≡ s
unfolding trim_end is_space
trim_end-digits [] h = refl
trim_end-digits (c ∷ s) h = let digit = h.0 in rw (trim_end-digits s h.1) (ground (arith, digit))

trim_start-digits :
    (s t : Text) → AllDigits s → is_empty s ≡ false → trim_start is_space (s ++ t) ≡ s ++ t
unfolding trim_start is_space
trim_start-digits [] t h filled = absurd (cc)
trim_start-digits (c ∷ s) t h filled = let digit = h.0 in ground (arith, digit)

digit_run-digits : (s : Text) → AllDigits s → digit_run s ≡ (s, [])
unfolding digit_run
digit_run-digits [] h = refl
digit_run-digits (c ∷ s) h = rw (h.0, digit_run-digits s h.1) refl

digit_run-blank : (s t : Text) → AllDigits s → digit_run (s ++ (b' ' ∷ t)) ≡ (s, b' ' ∷ t)
unfolding digit_run
digit_run-blank [] t h = refl
digit_run-blank (c ∷ s) t h = rw (h.0, digit_run-blank s t h.1) refl

parse_line-pid :
    (s : Text) → AllDigits s → is_empty s ≡ false → parse_line (s ++ (b'\n' ∷ [])) ≡ some (s, none)
unfolding parse_line trim
parse_line-pid s h filled =
    rw
      (
        trim_start-digits s (b'\n' ∷ []) h filled,
        trim_end-behind is_space s b'\n' refl,
        trim_end-digits s h,
        digit_run-digits s h,
        filled,
      )
      refl

trim-IsStamp : (t : Text) → IsStamp t → trim t ≡ t
unfolding trim trim_start
trim-IsStamp [] h = absurd h
trim-IsStamp (c ∷ t) h = rw (h.0) (h.1)

started_of-IsStamp : (s t : Text) → IsStamp t → started_of s t ≡ some (s, some t)
unfolding started_of
started_of-IsStamp s [] h = absurd h
started_of-IsStamp s (c ∷ t) h = rw (h.0, h.2) (ap (λ u. some (s, some u)) (trim-IsStamp (c ∷ t) h))

trim_start-blank : (t : Text) → IsStamp t → trim_start (λ c. c == b' ' || c == b'\t') (b' ' ∷ t) ≡ t
unfolding trim_start is_space
trim_start-blank [] h = absurd h
trim_start-blank (c ∷ t) h = let plain = h.0 in ground (arith, plain)

IsStamp-filled : (t : Text) → IsStamp t → is_empty t ≡ false
IsStamp-filled [] h = absurd h
IsStamp-filled (c ∷ t) h = refl

trim_end-IsStamp : (t : Text) → IsStamp t → trim_end is_space (b' ' ∷ t) ≡ b' ' ∷ t
trim_end-IsStamp [] h = absurd h
trim_end-IsStamp (c ∷ t) h = trim_end-append is_space (b' ' ∷ []) (c ∷ t) h.1 refl

parse_line-stamp :
    (s t : Text)
    → AllDigits s
    → is_empty s ≡ false
    → IsStamp t
    → parse_line (s ++ (b' ' ∷ (t ++ (b'\n' ∷ [])))) ≡ some (s, some t)
unfolding parse_line trim
parse_line-stamp s t h filled stamp =
    let line = b' ' ∷ t in
    let longer : ltb (length t) (length line) ≡ true = ground arith in
    rw
      (
        trim_start-digits s (line ++ (b'\n' ∷ [])) h filled,
        sym (append_assoc s line (b'\n' ∷ [])),
        trim_end-behind is_space (s ++ line) b'\n' refl,
        trim_end-append is_space s line (trim_end-IsStamp t stamp) refl,
        digit_run-blank s t h,
        filled,
        trim_start-blank t stamp,
        longer,
      )
      (started_of-IsStamp s t stamp)

content_of-parsed :
    (mtime pid : ℕ) (raw : Text) (started : Option Text)
    → parse_line raw ≡ some (number_text pid, started)
    → 1 ≤ pid
    → pid ≤ 9007199254740991
    → ((content_of mtime raw).pid ≡ some pid) × ((content_of mtime raw).started ≡ started)
unfolding content_of
content_of-parsed mtime pid raw started h some_pid safe =
    rw (content_of, h, digits_value-number_text pid) (ground (arith, some_pid, safe), refl)

-- What is written of a holder is read as it.
pub content_of-render :
    (holder : LockHolder) (mtime : ℕ)
    → 1 ≤ holder.pid
    → holder.pid ≤ 9007199254740991
    → IsStart holder.started
    → ((content_of mtime (render holder)).pid ≡ some holder.pid)
      × ((content_of mtime (render holder)).started ≡ holder.started)
unfolding render
content_of-render holder mtime some_pid safe start =
    content_of-parsed mtime holder.pid (render holder) holder.started
      (cases holder.pid holder.started start) some_pid safe
  where
    cases :
        (pid : ℕ) (started : Option Text)
        → IsStart started
        → parse_line (render (record { pid = pid; started = started }))
          ≡ some (number_text pid, started)
    cases pid none start =
        parse_line-pid (number_text pid) (number_text-AllDigits pid) (number_text-filled pid)
    cases pid (some t) start =
        parse_line-stamp (number_text pid) t (number_text-AllDigits pid) (number_text-filled pid)
          start
