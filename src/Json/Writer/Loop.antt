-- ===== src/Json/Writer/Loop.antt =====
-- crates/tagents-core/src/json.rs: the lemmas on the printer's loop and a recursion on the value.
use tagents.Prelude.{
  ℕ, suc, ◌+◌, ◌≡◌, refl, sym, ap, ◌∙◌, Bool, true, false, ◌&&◌, Option, none, some, List, [], ◌∷◌,
  ◌++◌, map, length, arith, All, if◌then◌else◌, append_assoc,
}
use tagents.Text.{Text}
use tagents.Json.{
  Value, null, bool, number, string, halves, array, object, keyed, Items, no_items, item, Members,
  no_members, member, Entry, entries_of, items_of,
}
use tagents.Json.Order.{array_index, units_index, js_order}
use tagents.Json.Order.Laws.{over, AllValues, js_order-over, js_order-All}
use tagents.Json.Writer.{
  Printing, Name, text_name, units_name, Level, Printer, begin, begun, newline, opened, unnamed,
  next_member, rounds, cost, cost_items, cost_members,
}
use tagents.Json.Writer.Shown.{
  members_of, ordered, ordered_items, ordered_members, ordered_members-over, lead, ending, show,
  show_items, show_members,
}

abbrev Named : Type 0
Named = Option Name × Value

abbrev costs : List Named → ℕ
costs [] = 0
costs ((name, v) ∷ es) = suc (cost (ordered v)) + costs es

module _ (std : Printing) (indent : Bool) where
  abbrev tail_text : ℕ → Bool → ℕ → List Named → Text
  tail_text depth written close [] = ending indent depth written close
  tail_text depth written close ((name, v) ∷ es) =
      lead std indent depth written name
      ++ (show std indent (suc depth) (ordered v) ++ tail_text depth true close es)

  -- A pending value is printed, and the loop goes on behind it.
  abbrev pub Prints : Value → Type 0
  Prints v =
      (out : Text) (levels : List Level) (fuel : ℕ)
      → rounds std (cost (ordered v) + suc fuel) indent
          (record { out = out; levels = levels; pending = some v })
        ≡ rounds std (suc fuel) indent (record {
          out = out ++ show std indent (length levels) (ordered v);
          levels = levels;
          pending = none;
        })

  abbrev inside : Text → List Named → ℕ → Bool → List Level → Printer
  inside out es close written levels = record {
    out = out;
    levels = record { members = es; close = close; written = written } ∷ levels;
    pending = none;
  }

  abbrev behind : Text → List Level → Printer
  behind out levels = record { out = out; levels = levels; pending = none }

  ended_text :
      (out : Text) (depth : ℕ) (written : Bool) (close : ℕ)
      → (if indent && written then out ++ newline depth else out) ++ close ∷ []
        ≡ out ++ ending indent depth written close
  unfolding ending
  ended_text out depth written close =
      elim (indent && written)
        as (λ b.
          (if b then out ++ newline depth else out) ++ close ∷ []
          ≡ out ++ ((if b then newline depth else []) ++ close ∷ [])) [
            | true ↦ append_assoc out (newline depth) (close ∷ [])
            | false ↦ refl
          ]

  -- The members that are left of a container, and its end.
  Prints-tail :
      (es : List Named) (out : Text) (close : ℕ) (written : Bool) (levels : List Level) (fuel : ℕ)
      → All (λ e. Prints e.1) es
      → rounds std (costs es + suc (suc fuel)) indent (inside out es close written levels)
        ≡ rounds std
            (suc fuel)
            indent
            (behind (out ++ tail_text (length levels) written close es) levels)
  unfolding rounds begun next_member lead
  Prints-tail [] out close written levels fuel hs =
      let steps : costs [] + suc (suc fuel) ≡ suc (suc fuel) = omega arith in
      ap (λ n. rounds std n indent (inside out [] close written levels)) steps
      ∙ ap (λ t. rounds std (suc fuel) indent (behind t levels))
          (ended_text out (length levels) written close)
  Prints-tail ((name, v) ∷ es) out close written levels fuel hs =
      let steps : costs ((name, v) ∷ es) + suc (suc fuel)
          ≡ suc (cost (ordered v) + suc (costs es + suc fuel)) =
        omega arith in
      let more : suc (costs es + suc fuel) ≡ costs es + suc (suc fuel) = omega arith in
      let head = lead std indent (length levels) written name in
      let text = show std indent (suc (length levels)) (ordered v) in
      let rest = tail_text (length levels) true close es in
      let level : Level = record { members = es; close = close; written = true } in
      ap (λ n. rounds std n indent (inside out ((name, v) ∷ es) close written levels)) steps
      ∙ hs.0 (out ++ head) (level ∷ levels) (costs es + suc fuel)
      ∙ ap (λ n. rounds std n indent (inside ((out ++ head) ++ text) es close true levels)) more
      ∙ Prints-tail es ((out ++ head) ++ text) close true levels fuel hs.1
      ∙ ap (λ t. rounds std (suc fuel) indent (behind t levels))
          (append_assoc (out ++ head) text rest ∙ append_assoc out head (text ++ rest))

  Prints-scalar :
      (v : Value)
      → cost (ordered v) ≡ 0
      → (begin std v).1 ≡ none
      → ((depth : ℕ) → show std indent depth (ordered v) ≡ (begin std v).0)
      → Prints v
  unfolding rounds begun
  Prints-scalar v free closed shows out levels fuel =
      let steps : cost (ordered v) + suc fuel ≡ suc fuel = omega (arith, free) in
      let started : Printer = record { out = out; levels = levels; pending = some v } in
      ap (λ n. rounds std n indent started) steps
      ∙ ap
          (λ o.
            rounds std (suc fuel) indent (behind (out ++ (begin std v).0) (opened std o levels)))
          closed
      ∙ ap (λ t. rounds std (suc fuel) indent (behind (out ++ t) levels))
          (sym (shows (length levels)))

  -- A container is printed, if its members are.
  Prints-opened :
      (v : Value) (bracket close : ℕ) (es : List Named)
      → begin std v ≡ (bracket ∷ [], some (record { members = es; close = close; written = false }))
      → cost (ordered v) ≡ suc (costs es)
      → ((depth : ℕ) → show std indent depth (ordered v) ≡ bracket ∷ tail_text depth false close es)
      → All (λ e. Prints e.1) es
      → Prints v
  Prints-opened v bracket close es begins costly shows hs out levels fuel =
      let steps : cost (ordered v) + suc fuel ≡ costs es + suc (suc fuel) = omega (arith, costly) in
      let again : costs es + suc (suc fuel) ≡ suc (costs es + suc fuel) = omega arith in
      let started : Printer = record { out = out; levels = levels; pending = some v } in
      let within = inside (out ++ bracket ∷ []) es close false levels in
      ap (λ n. rounds std n indent started) (steps ∙ again)
      ∙ opening (costs es + suc fuel)
      ∙ ap (λ n. rounds std n indent within) (sym again)
      ∙ Prints-tail es (out ++ bracket ∷ []) close false levels fuel hs
      ∙ ap (λ t. rounds std (suc fuel) indent (behind t levels))
          (append_assoc out (bracket ∷ []) (tail_text (length levels) false close es)
            ∙ ap (λ t. out ++ t) (sym (shows (length levels))))
    where
      opening :
          (n : ℕ)
          → rounds std (suc n) indent (record { out = out; levels = levels; pending = some v })
            ≡ rounds std (suc n) indent (inside (out ++ bracket ∷ []) es close false levels)
      opening n =
          unfold rounds begun in
          ap
            (λ (b : Text × Option Level).
              rounds std (suc n) indent (behind (out ++ b.0) (opened std b.1 levels)))
            begins

  costs_items : (vs : Items) → cost_items (ordered_items vs) ≡ costs (map unnamed (items_of vs))
  unfolding cost ordered
  costs_items no_items = refl
  costs_items (item v vs) = ap (λ n. suc (cost (ordered v)) + n) (costs_items vs)

  shown_items :
      (depth : ℕ) (written : Bool) (vs : Items)
      → show_items std indent depth written (ordered_items vs)
        ≡ tail_text depth written b']' (map unnamed (items_of vs))
  unfolding show ordered
  shown_items depth written no_items = refl
  shown_items depth written (item v vs) =
      ap (λ t. lead std indent depth written none ++ (show std indent (suc depth) (ordered v) ++ t))
        (shown_items depth true vs)

  abbrev named : (List ℕ → Name) → Entry → Named
  named name e = (some (name e.0), e.1)

  costs_members :
      (name : List ℕ → Name) (es : List Entry)
      → cost_members (members_of (over ordered es)) ≡ costs (map (named name) es)
  unfolding cost
  costs_members name [] = refl
  costs_members name ((k, v) ∷ es) = ap (λ n. suc (cost (ordered v)) + n) (costs_members name es)

  shown_members :
      (name : List ℕ → Name) (depth : ℕ) (written : Bool) (es : List Entry)
      → show_members std indent depth written name (members_of (over ordered es))
        ≡ tail_text depth written b'}' (map (named name) es)
  unfolding show
  shown_members name depth written [] = refl
  shown_members name depth written ((k, v) ∷ es) =
      ap
        (λ t.
          lead std indent depth written (some (name k))
          ++ (show std indent (suc depth) (ordered v) ++ t))
        (shown_members name depth true es)

  all_named :
      (name : List ℕ → Name) (es : List Entry)
      → AllValues Prints es
      → All (λ e. Prints e.1) (map (named name) es)
  all_named name [] hs = tt
  all_named name ((k, v) ∷ es) hs = (hs.0, all_named name es hs.1)

  -- The members of an object in their order, after the same is done inside them.
  sorted_members :
      (index : List ℕ → Option ℕ) (ms : Members)
      → members_of (js_order index (entries_of (ordered_members ms)))
        ≡ members_of (over ordered (js_order index (entries_of ms)))
  sorted_members index ms =
      ap (λ es. members_of (js_order index es)) (ordered_members-over ms)
      ∙ ap members_of (js_order-over index ordered (entries_of ms))

  Prints-members :
      (name : List ℕ → Name) (index : List ℕ → Option ℕ) (v : Value) (ms : Members)
      → begin std v ≡ (
        b'{' ∷ [],
        some (record {
          members = map (named name) (js_order index (entries_of ms));
          close = b'}';
          written = false;
        }),
      )
      → (let sorted = members_of (js_order index (entries_of (ordered_members ms))) in
          (cost (ordered v) ≡ suc (cost_members sorted))
          × ((depth : ℕ)
              → show std indent depth (ordered v)
                ≡ b'{' ∷ show_members std indent depth false name sorted))
      → AllValues Prints (entries_of ms)
      → Prints v
  Prints-members name index v ms begins (costly, shows) hs =
      let es = js_order index (entries_of ms) in
      let same = sorted_members index ms in
      Prints-opened v b'{' b'}' (map (named name) es) begins
        (costly ∙ ap (λ m. suc (cost_members m)) same ∙ ap suc (costs_members name es))
        (λ depth.
          shows depth
          ∙ ap (λ m. b'{' ∷ show_members std indent depth false name m) same
          ∙ ap (λ t. b'{' ∷ t) (shown_members name depth false es))
        (all_named name es (js_order-All Prints index (entries_of ms) hs))

  mutual
    unfolding begin cost ordered show rounds begun

    pub prints : (v : Value) → Prints v
    prints null = Prints-scalar null refl refl (λ depth. refl)
    prints (bool b) = Prints-scalar (bool b) refl refl (λ depth. refl)
    prints (number n) = Prints-scalar (number n) refl refl (λ depth. refl)
    prints (string s) = Prints-scalar (string s) refl refl (λ depth. refl)
    prints (halves us) = Prints-scalar (halves us) refl refl (λ depth. refl)
    prints (array vs) =
        Prints-opened (array vs) b'[' b']' (map unnamed (items_of vs)) refl
          (ap suc (costs_items vs)) (λ depth. ap (λ t. b'[' ∷ t) (shown_items depth false vs))
          (Prints-items vs)
    prints (object ms) =
        Prints-members text_name array_index (object ms) ms refl (refl, (λ depth. refl))
          (Prints-all ms)
    prints (keyed ms) =
        Prints-members units_name units_index (keyed ms) ms refl (refl, (λ depth. refl))
          (Prints-all ms)

    Prints-items : (vs : Items) → All (λ e. Prints e.1) (map unnamed (items_of vs))
    Prints-items no_items = tt
    Prints-items (item v vs) = (prints v, Prints-items vs)

    Prints-all : (ms : Members) → AllValues Prints (entries_of ms)
    Prints-all no_members = tt
    Prints-all (member k v ms) = (prints v, Prints-all ms)
