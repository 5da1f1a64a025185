-- ===== src/Json/Reader/RoundTrip.antt =====
-- crates/tagents-core/src/json.rs: the lemmas on the parser and what `stringify` writes.
use tagents.Prelude.{
  ℕ, suc, ◌+◌, ◌^◌, ◌≡◌, ◌≢◌, refl, sym, ap, ◌∙◌, Bool, true, false, ◌&&◌, Option, none, some, List,
  [], ◌∷◌, ◌++◌, ltb, ◌==◌, arith, if◌then◌else◌, append_assoc, append_nil,
}
use tagents.Text.{Text, word}
use tagents.Json.{
  F64, is_finite, Value, null, bool, number, string, halves, array, object, keyed, Items, no_items,
  item, Members, no_members, member, push_item, push_member,
}
use tagents.Json.Scan.{chars, is_gap, skip_space, number_at}
use tagents.Json.Writer.{Printing, newline, key_text, text_name, begin, quote_units}
use tagents.Json.Writer.Quoted.{IsQuoting, escapes, quote_units-text}
use tagents.Json.Writer.Shown.{lead, ending, show, show_items, show_members}
use tagents.Json.Reader.{
  Parser, at, key_at, complete, opened, Open, in_array, in_object, open_object, array_at, object_at,
  value_at, document,
}
use tagents.Json.Reader.Pieces.{
  skip_space-newline, skip_space-head, IsEnd, number_at-head, key_at-key_text, null-Reads,
  bool-Reads, string-Reads, halves_read, number_read,
}
use tagents.Json.Reader.Rounds.{
  turns, turns_items, turns_members, handed, round_complete, round_opened, document-skip, next_item,
  last_item, next_pair, last_pair,
}
use tagents.Json.Reader.Plain.{IsSpelling, IsPlain, AllPlain, MembersPlain, Opening}

module _ (std : Printing) (parse_f64 : Text → Option F64) (quoting : IsQuoting std.quote)
    (spelling : IsSpelling std.number_text parse_f64) (indent : Bool) where
  abbrev pub text_at : ℕ → Value → Text
  text_at depth v = show std indent depth v

  -- The text of a plain value that is complete at once, or the bracket of a container.
  number-Opening : (n : F64) → is_finite n ≡ true → Opening (std.number_text n)
  number-Opening n h = first (std.number_text n) (spelling.scanned n [] h tt)
    where
      first : (s : Text) → number_at (s ++ []) ≡ some (s, []) → Opening s
      first [] e = absurd (unfold number_at in cc e)
      first (c ∷ s) e =
          let sign_or_digit = number_at-head c (s ++ []) e in
          record {
            head = c;
            tail = s;
            splits = refl;
            no_gap = ground (arith, sign_or_digit);
            no_close = ground (arith, sign_or_digit);
          }

  pub opens : (exact : Bool) (depth : ℕ) (v : Value) → IsPlain exact v → Opening (text_at depth v)
  unfolding show begin word
  opens exact depth null h = record {
    head = _;
    tail = _;
    splits = refl;
    no_gap = refl;
    no_close = refl;
  }
  opens exact depth (bool true) h = record {
    head = _;
    tail = _;
    splits = refl;
    no_gap = refl;
    no_close = refl;
  }
  opens exact depth (bool false) h = record {
    head = _;
    tail = _;
    splits = refl;
    no_gap = refl;
    no_close = refl;
  }
  opens exact depth (number n) h = rw h.0 (number-Opening n h.0)
  opens exact depth (string s) h = record {
    head = b'"';
    tail = escapes s ++ b'"' ∷ [];
    splits = quoting.escaped s;
    no_gap = refl;
    no_close = refl;
  }
  opens exact depth (halves us) h = record {
    head = b'"';
    tail = _;
    splits = quote_units-text std quoting us;
    no_gap = refl;
    no_close = refl;
  }
  opens exact depth (array vs) h = record {
    head = _;
    tail = _;
    splits = refl;
    no_gap = refl;
    no_close = refl;
  }
  opens exact depth (object ms) h = record {
    head = _;
    tail = _;
    splits = refl;
    no_gap = refl;
    no_close = refl;
  }
  opens exact depth (keyed ms) h = absurd h

  -- No white space stands before it, and no end of an array.
  skip_space-text :
      {text : Text} (rest : Text) → Opening text → skip_space (text ++ rest) ≡ text ++ rest
  skip_space-text rest o = rw (o.splits) (skip_space-head o.head (o.tail ++ rest) o.no_gap)

  -- The parser reads the value off the front, in as many rounds as it has values.
  abbrev pub ReadsBack : Bool → Value → Type 0
  ReadsBack exact v =
      (depth : ℕ) (rest : Text) (stack : List Open) (p : Parser) (fuel : ℕ)
      → p.exact ≡ exact
      → IsEnd rest
      → document parse_f64 (turns v + fuel) stack (at p (text_at depth v ++ rest))
        ≡ handed parse_f64 fuel v stack (at p rest)

  scalar_back :
      (exact : Bool) (v : Value) (text : Text)
      → turns v ≡ 1
      → ((depth : ℕ) → text_at depth v ≡ text)
      → Opening text
      → ((p : Parser) (rest : Text)
          → p.exact ≡ exact
          → IsEnd rest
          → value_at parse_f64 (at p (text ++ rest)) (text ++ rest) ≡ some (complete v (at p rest)))
      → ReadsBack exact v
  scalar_back exact v text one shows o reads depth rest stack p fuel keeps ends =
      let steps : turns v + fuel ≡ suc fuel = omega (arith, one) in
      ap (λ n. document parse_f64 n stack (at p (text_at depth v ++ rest))) steps
      ∙ ap (λ t. document parse_f64 (suc fuel) stack (at p (t ++ rest))) (shows depth)
      ∙ round_complete parse_f64 fuel v stack p (text ++ rest) rest (skip_space-text rest o)
          (reads p rest keeps ends)

  abbrev space_at : ℕ → Text
  space_at depth = if indent then newline depth else []

  -- A value behind the white space that stands before a member.
  value_back :
      (exact : Bool) (v : Value) (depth : ℕ) (name_end rest : Text) (stack : List Open) (p : Parser)
      (fuel : ℕ)
      → ReadsBack exact v
      → skip_space name_end ≡ skip_space (text_at depth v ++ rest)
      → p.exact ≡ exact
      → IsEnd rest
      → document parse_f64 (turns v + fuel) stack (at p name_end)
        ≡ handed parse_f64 fuel v stack (at p rest)
  value_back exact v depth name_end rest stack p fuel back skips keeps ends =
      document-skip parse_f64 (turns v + fuel) stack p name_end (text_at depth v ++ rest) skips
      ∙ back depth rest stack p fuel keeps ends

  space_skip :
      (depth : ℕ) (s t : Text) → skip_space ((space_at depth ++ s) ++ t) ≡ skip_space (s ++ t)
  space_skip depth s t =
      ap skip_space (append_assoc (space_at depth) s t) ∙ skip_space-newline indent depth (s ++ t)

  ending_skip :
      (depth : ℕ) (written : Bool) (close : ℕ) (rest : Text)
      → is_gap close ≡ false
      → skip_space (ending indent depth written close ++ rest) ≡ close ∷ rest
  unfolding ending
  ending_skip depth written close rest h =
      ap skip_space
        (append_assoc (if indent && written then newline depth else []) (close ∷ []) rest)
      ∙ skip_space-newline (indent && written) depth (close ∷ rest)
      ∙ skip_space-head close rest h

  -- Behind a member no number goes on.
  items-IsEnd :
      (depth : ℕ) (vs : Items) (rest : Text) → IsEnd (show_items std indent depth true vs ++ rest)
  unfolding show ending newline
  items-IsEnd depth no_items rest =
      elim indent
        as (λ b. IsEnd (((if b && true then newline depth else []) ++ b']' ∷ []) ++ rest)) [
          | true ↦ refl
          | false ↦ refl
        ]
  items-IsEnd depth (item v vs) rest = refl

  members-IsEnd :
      (depth : ℕ) (ms : Members) (rest : Text)
      → IsEnd (show_members std indent depth true text_name ms ++ rest)
  unfolding show ending newline
  members-IsEnd depth no_members rest =
      elim indent
        as (λ b. IsEnd (((if b && true then newline depth else []) ++ b'}' ∷ []) ++ rest)) [
          | true ↦ refl
          | false ↦ refl
        ]
  members-IsEnd depth (member k v ms) rest = refl

  abbrev append_items : Items → Items → Items
  append_items no_items ws = ws
  append_items (item v vs) ws = item v (append_items vs ws)

  append-push :
      (vs ws : Items) (v : Value) → append_items (push_item v vs) ws ≡ append_items vs (item v ws)
  unfolding push_item
  append-push no_items ws v = refl
  append-push (item w vs) ws v = ap (item w) (append-push vs ws v)

  push-append : (vs : Items) (v : Value) → push_item v vs ≡ append_items vs (item v no_items)
  unfolding push_item
  push-append no_items v = refl
  push-append (item w vs) v = ap (item w) (push-append vs v)

  -- The items that are left of an array, behind a complete one.
  abbrev ItemsBack : Bool → Items → Type 0
  ItemsBack exact vs =
      (depth : ℕ) (w : Value) (done : Items) (rest : Text) (stack : List Open) (p : Parser)
      (fuel : ℕ)
      → p.exact ≡ exact
      → IsEnd rest
      → handed parse_f64 (turns_items vs + fuel) w (in_array done ∷ stack)
          (at p (show_items std indent depth true vs ++ rest))
        ≡ handed parse_f64 fuel (array (append_items done (item w vs))) stack (at p rest)

  item_text :
      (depth : ℕ) (v : Value) (tail rest : Text)
      → (lead std indent depth true none ++ (text_at (suc depth) v ++ tail)) ++ rest
        ≡ b',' ∷ ((space_at (suc depth) ++ (text_at (suc depth) v ++ tail)) ++ rest)
  unfolding lead key_text
  item_text depth v tail rest =
      ap (λ s. b',' ∷ ((s ++ (text_at (suc depth) v ++ tail)) ++ rest))
        (append_nil (space_at (suc depth)))

  no_items_back : (exact : Bool) → ItemsBack exact no_items
  unfolding turns show
  no_items_back exact depth w done rest stack p fuel keeps ends =
      let steps : 0 + fuel ≡ fuel = omega arith in
      ap
        (λ n.
          handed parse_f64 n w (in_array done ∷ stack)
            (at p (ending indent depth true b']' ++ rest)))
        steps
      ∙ last_item parse_f64 fuel w done stack p _ rest (ending_skip depth true b']' rest refl)
      ∙ ap (λ vs. handed parse_f64 fuel (array vs) stack (at p rest)) (push-append done w)

  item_back :
      (exact : Bool) (v : Value) (vs : Items)
      → ReadsBack exact v
      → ItemsBack exact vs
      → ItemsBack exact (item v vs)
  unfolding turns show
  item_back exact v vs back rest_back depth w done rest stack p fuel keeps ends =
      let tail = show_items std indent depth true vs in
      let text = text_at (suc depth) v in
      let behind = (space_at (suc depth) ++ (text ++ tail)) ++ rest in
      let steps : (turns v + turns_items vs) + fuel ≡ turns v + (turns_items vs + fuel) =
        omega arith in
      let all = item_text depth v tail rest in
      ap
        (λ n.
          handed parse_f64 n w (in_array done ∷ stack)
            (at p ((lead std indent depth true none ++ (text ++ tail)) ++ rest)))
        steps
      ∙ next_item parse_f64 (turns v + (turns_items vs + fuel)) w done stack p _ behind
          (ap skip_space all ∙ skip_space-head b',' behind refl)
      ∙ value_back exact v (suc depth) behind (tail ++ rest) (in_array (push_item w done) ∷ stack) p
          (turns_items vs + fuel) back
          (space_skip (suc depth) (text ++ tail) rest ∙ ap skip_space (append_assoc text tail rest))
          keeps (items-IsEnd depth vs rest)
      ∙ rest_back depth v (push_item w done) rest stack p fuel keeps ends
      ∙ ap (λ ws. handed parse_f64 fuel (array ws) stack (at p rest))
          (append-push done (item v vs) w)

  array_start :
      (p : Parser) (s rest : Text)
      → skip_space s ≡ b']' ∷ rest
      → value_at parse_f64 (at p (b'[' ∷ s)) (b'[' ∷ s)
        ≡ some (complete (array no_items) (at p rest))
  unfolding value_at array_at
  array_start p s rest h = rw (h, array_at) refl

  array_opened :
      (p : Parser) (s : Text) {text : Text} (behind : Text)
      → Opening text
      → skip_space s ≡ text ++ behind
      → value_at parse_f64 (at p (b'[' ∷ s)) (b'[' ∷ s)
        ≡ some (opened (in_array no_items) (at p (text ++ behind)))
  unfolding value_at array_at
  array_opened p s behind o h = rw (h, array_at, o.splits, o.no_close) refl

  empty_array_back : (exact : Bool) → ReadsBack exact (array no_items)
  unfolding turns show
  empty_array_back exact depth rest stack p fuel keeps ends =
      let text = ending indent depth false b']' in
      ap (λ n. document parse_f64 n stack (at p (b'[' ∷ (text ++ rest)))) (omega arith)
      ∙ round_complete parse_f64 fuel (array no_items) stack p (b'[' ∷ (text ++ rest)) rest
          (skip_space-head b'[' (text ++ rest) refl)
          (array_start p (text ++ rest) rest (ending_skip depth false b']' rest refl))

  array_back :
      (exact : Bool) (v : Value) (vs : Items)
      → IsPlain exact v
      → ReadsBack exact v
      → ItemsBack exact vs
      → ReadsBack exact (array (item v vs))
  unfolding turns show lead key_text
  array_back exact v vs plain back rest_back depth rest stack p fuel keeps ends =
      let tail = show_items std indent depth true vs in
      let text = text_at (suc depth) v in
      let inner = ((space_at (suc depth) ++ []) ++ (text ++ tail)) ++ rest in
      let steps : suc (turns v + turns_items vs) + fuel ≡ suc (turns v + (turns_items vs + fuel)) =
        omega arith in
      let o = opens exact (suc depth) v plain in
      let skips : skip_space inner ≡ text ++ (tail ++ rest) =
        ap (λ s. skip_space ((s ++ (text ++ tail)) ++ rest)) (append_nil (space_at (suc depth)))
        ∙ space_skip (suc depth) (text ++ tail) rest
        ∙ ap skip_space (append_assoc text tail rest)
        ∙ skip_space-text (tail ++ rest) o in
      ap (λ n. document parse_f64 n stack (at p (b'[' ∷ inner))) steps
      ∙ round_opened parse_f64 (turns v + (turns_items vs + fuel)) (in_array no_items) stack p
          (at p (text ++ (tail ++ rest))) (b'[' ∷ inner) (skip_space-head b'[' inner refl)
          (array_opened p inner (tail ++ rest) o skips)
      ∙ back (suc depth) (tail ++ rest) (in_array no_items ∷ stack) p (turns_items vs + fuel) keeps
          (items-IsEnd depth vs rest)
      ∙ rest_back depth v no_items rest stack p fuel keeps ends

  -- A key that is printed opens with its quote.
  abbrev colon : Text
  colon = b':' ∷ (if indent then 0x20 ∷ [] else [])

  abbrev key_tail : Text → Text → Text
  key_tail k t = (escapes k ++ b'"' ∷ []) ++ (colon ++ t)

  key_opens : (k t : Text) → key_text std indent (some (text_name k)) ++ t ≡ b'"' ∷ key_tail k t
  unfolding key_text tagents.Json.Writer.name_text
  key_opens k t =
      append_assoc (std.quote k) colon t ∙ ap (λ q. q ++ (colon ++ t)) (quoting.escaped k)

  object_start :
      (p : Parser) (s rest : Text)
      → skip_space s ≡ b'}' ∷ rest
      → value_at parse_f64 (at p (b'{' ∷ s)) (b'{' ∷ s)
        ≡ some (complete (object no_members) (at p rest))
  unfolding value_at object_at
  object_start p s rest h = rw (h, object_at) refl

  abbrev behind_key : Text → Text
  behind_key t = (if indent then 0x20 ∷ [] else []) ++ t

  first_key :
      (p : Parser) (c : ℕ) (s k t : Text)
      → (c == b'}') ≡ false
      → key_at (at p (c ∷ s)) ≡ some (chars k, at p t)
      → object_at p (c ∷ s) ≡ some (opened (in_object no_members k) (at p t))
  unfolding object_at open_object
  first_key p c s k t no_close reads = rw (no_close, object_at, reads) refl

  object_opened :
      (p : Parser) (s k t : Text)
      → skip_space s ≡ key_text std indent (some (text_name k)) ++ t
      → value_at parse_f64 (at p (b'{' ∷ s)) (b'{' ∷ s)
        ≡ some (opened (in_object no_members k) (at p (behind_key t)))
  unfolding value_at
  object_opened p s k t h =
      let reads = key_at-key_text std quoting parse_f64 p indent k t in
      ap (object_at (at p (b'{' ∷ s))) (h ∙ key_opens k t)
      ∙ first_key (at p (b'{' ∷ s)) b'"' (key_tail k t) k (behind_key t) refl
          (ap (λ u. key_at (at p u)) (sym (key_opens k t)) ∙ reads)

  abbrev append_members : Members → Members → Members
  append_members no_members ns = ns
  append_members (member k v ms) ns = member k v (append_members ms ns)

  append-push_member :
      (ms ns : Members) (k : Text) (v : Value)
      → append_members (push_member k v ms) ns ≡ append_members ms (member k v ns)
  unfolding push_member
  append-push_member no_members ns k v = refl
  append-push_member (member j w ms) ns k v = ap (member j w) (append-push_member ms ns k v)

  push_member-append :
      (ms : Members) (k : Text) (v : Value)
      → push_member k v ms ≡ append_members ms (member k v no_members)
  unfolding push_member
  push_member-append no_members k v = refl
  push_member-append (member j w ms) k v = ap (member j w) (push_member-append ms k v)

  -- The members that are left of an object, behind a complete value.
  abbrev MembersBack : Bool → Members → Type 0
  MembersBack exact ms =
      (depth : ℕ) (key : Text) (w : Value) (done : Members) (rest : Text) (stack : List Open)
      (p : Parser) (fuel : ℕ)
      → p.exact ≡ exact
      → IsEnd rest
      → handed parse_f64 (turns_members ms + fuel) w (in_object done key ∷ stack)
          (at p (show_members std indent depth true text_name ms ++ rest))
        ≡ handed parse_f64 fuel (object (append_members done (member key w ms))) stack (at p rest)

  no_members_back : (exact : Bool) → MembersBack exact no_members
  unfolding turns show
  no_members_back exact depth key w done rest stack p fuel keeps ends =
      ap
        (λ n.
          handed parse_f64 n w (in_object done key ∷ stack)
            (at p (ending indent depth true b'}' ++ rest)))
        (omega arith)
      ∙ last_pair parse_f64 fuel w done key stack p _ rest (ending_skip depth true b'}' rest refl)
      ∙ ap (λ ms. handed parse_f64 fuel (object ms) stack (at p rest))
          (push_member-append done key w)

  -- The text of a member, brought apart: white space, key, value and what follows.
  pair_skip :
      (depth : ℕ) (k text tail rest : Text)
      → skip_space
          (((space_at depth ++ key_text std indent (some (text_name k))) ++ (text ++ tail)) ++ rest)
        ≡ key_text std indent (some (text_name k)) ++ (text ++ (tail ++ rest))
  pair_skip depth k text tail rest =
      let key = key_text std indent (some (text_name k)) in
      let behind = text ++ (tail ++ rest) in
      ap skip_space (
        append_assoc (space_at depth ++ key) (text ++ tail) rest
        ∙ ap (λ t. (space_at depth ++ key) ++ t) (append_assoc text tail rest)
        ∙ append_assoc (space_at depth) key behind)
      ∙ skip_space-newline indent depth (key ++ behind)
      ∙ ap skip_space (key_opens k behind)
      ∙ skip_space-head b'"' (key_tail k behind) refl
      ∙ sym (key_opens k behind)

  behind_key_skip : (t : Text) → skip_space (behind_key t) ≡ skip_space t
  unfolding skip_space
  behind_key_skip t =
      elim indent as (λ b. skip_space ((if b then 0x20 ∷ [] else []) ++ t) ≡ skip_space t) [
        | true ↦ refl
        | false ↦ refl
      ]

  member_back :
      (exact : Bool) (k : Text) (v : Value) (ms : Members)
      → ReadsBack exact v
      → MembersBack exact ms
      → MembersBack exact (member k v ms)
  unfolding turns show lead
  member_back exact k v ms back rest_back depth key w done rest stack p fuel keeps ends =
      let tail = show_members std indent depth true text_name ms in
      let text = text_at (suc depth) v in
      let name = key_text std indent (some (text_name k)) in
      let behind = ((space_at (suc depth) ++ name) ++ (text ++ tail)) ++ rest in
      let value = text ++ (tail ++ rest) in
      let steps : (turns v + turns_members ms) + fuel ≡ turns v + (turns_members ms + fuel) =
        omega arith in
      ap (λ n. handed parse_f64 n w (in_object done key ∷ stack) (at p (b',' ∷ behind))) steps
      ∙ next_pair parse_f64 (turns v + (turns_members ms + fuel)) w done key k stack p
          (at p (behind_key value)) (b',' ∷ behind) behind (skip_space-head b',' behind refl)
          (ap (λ s. key_at (at p s)) (pair_skip (suc depth) k text tail rest)
            ∙ key_at-key_text std quoting parse_f64 p indent k value)
      ∙ value_back exact v (suc depth) (behind_key value) (tail ++ rest)
          (in_object (push_member key w done) k ∷ stack) p (turns_members ms + fuel) back
          (behind_key_skip value) keeps (members-IsEnd depth ms rest)
      ∙ rest_back depth k v (push_member key w done) rest stack p fuel keeps ends
      ∙ ap (λ ns. handed parse_f64 fuel (object ns) stack (at p rest))
          (append-push_member done (member k v ms) key w)

  empty_object_back : (exact : Bool) → ReadsBack exact (object no_members)
  unfolding turns show
  empty_object_back exact depth rest stack p fuel keeps ends =
      let text = ending indent depth false b'}' in
      ap (λ n. document parse_f64 n stack (at p (b'{' ∷ (text ++ rest)))) (omega arith)
      ∙ round_complete parse_f64 fuel (object no_members) stack p (b'{' ∷ (text ++ rest)) rest
          (skip_space-head b'{' (text ++ rest) refl)
          (object_start p (text ++ rest) rest (ending_skip depth false b'}' rest refl))

  object_back :
      (exact : Bool) (k : Text) (v : Value) (ms : Members)
      → ReadsBack exact v
      → MembersBack exact ms
      → ReadsBack exact (object (member k v ms))
  unfolding turns show lead
  object_back exact k v ms back rest_back depth rest stack p fuel keeps ends =
      let tail = show_members std indent depth true text_name ms in
      let text = text_at (suc depth) v in
      let name = key_text std indent (some (text_name k)) in
      let inner = ((space_at (suc depth) ++ name) ++ (text ++ tail)) ++ rest in
      let value = text ++ (tail ++ rest) in
      let steps : suc (turns v + turns_members ms) + fuel
          ≡ suc (turns v + (turns_members ms + fuel)) =
        omega arith in
      ap (λ n. document parse_f64 n stack (at p (b'{' ∷ inner))) steps
      ∙ round_opened parse_f64 (turns v + (turns_members ms + fuel)) (in_object no_members k) stack
          p (at p (behind_key value)) (b'{' ∷ inner) (skip_space-head b'{' inner refl)
          (object_opened p inner k value (pair_skip (suc depth) k text tail rest))
      ∙ value_back exact v (suc depth) (behind_key value) (tail ++ rest)
          (in_object no_members k ∷ stack) p (turns_members ms + fuel) back (behind_key_skip value)
          keeps (members-IsEnd depth ms rest)
      ∙ rest_back depth k v no_members rest stack p fuel keeps ends

  number_back :
      (n : F64)
      → (is_finite n ≡ true) × (n ≢ 2 ^ 63) × (ltb n (2 ^ 64) ≡ true)
      → (p : Parser) (rest : Text) → IsEnd rest
      → value_at parse_f64 (at p (std.number_text n ++ rest)) (std.number_text n ++ rest)
        ≡ some (complete (number n) (at p rest))
  number_back n h p rest ends =
      let o = number-Opening n h.0 in
      let scanned = spelling.scanned n rest h.0 ends in
      let parsed = spelling.parsed n h.0 h.1 h.2 in
      rw (o.splits) (
        number_read std quoting parse_f64 n o.head o.tail p rest (rw (o.splits) at scanned)
          (rw (o.splits) at parsed))

  mutual
    unfolding show begin turns

    pub reads_back : (exact : Bool) (v : Value) → IsPlain exact v → ReadsBack exact v
    reads_back exact null h =
        scalar_back exact null (word "null") refl (λ depth. refl) (opens exact 0 null h)
          (λ p rest _ ends. null-Reads std quoting parse_f64 p rest ends)
    reads_back exact (bool b) h =
        scalar_back exact (bool b) (if b then word "true" else word "false") refl (λ depth. refl)
          (opens exact 0 (bool b) h)
          (λ p rest _ ends. bool-Reads std quoting parse_f64 b p rest ends)
    reads_back exact (number n) h =
        scalar_back exact (number n) (std.number_text n) refl (λ depth. rw h.0 refl)
          (number-Opening n h.0) (λ p rest _ ends. number_back n h p rest ends)
    reads_back exact (string s) h =
        scalar_back exact (string s) (std.quote s) refl (λ depth. refl) (opens exact 0 (string s) h)
          (λ p rest _ ends. string-Reads std quoting parse_f64 s p rest ends)
    reads_back exact (halves us) h =
        scalar_back exact (halves us) (quote_units std us) refl (λ depth. refl)
          (opens exact 0 (halves us) h)
          (λ p rest keeps ends. halves_read std quoting parse_f64 us p rest h.1 h.2 (keeps ∙ h.0))
    reads_back exact (array no_items) h = empty_array_back exact
    reads_back exact (array (item v vs)) h =
        array_back exact v vs h.0 (reads_back exact v h.0) (items_back exact vs h.1)
    reads_back exact (object no_members) h = empty_object_back exact
    reads_back exact (object (member k v ms)) h =
        object_back exact k v ms (reads_back exact v h.0) (members_back exact ms h.1)
    reads_back exact (keyed ms) h = absurd h

    items_back : (exact : Bool) (vs : Items) → AllPlain exact vs → ItemsBack exact vs
    items_back exact no_items h = no_items_back exact
    items_back exact (item v vs) h =
        item_back exact v vs (reads_back exact v h.0) (items_back exact vs h.1)

    members_back : (exact : Bool) (ms : Members) → MembersPlain exact ms → MembersBack exact ms
    members_back exact no_members h = no_members_back exact
    members_back exact (member k v ms) h =
        member_back exact k v ms (reads_back exact v h.0) (members_back exact ms h.1)
