-- ===== src/Tests/ParseArgs.antt =====
-- crates/tagents-core/src/parse_args.rs: each theorem at one command line.
use tagents.Prelude.{◌≡◌, refl, true, List, [], ◌∷◌}
use tagents.Text.{word, text_eq, all_chars}
use tagents.Exec.{ok, err}
use tagents.ParseArgs.{text, many, flag, nothing_parsed, listed, Grammar, dashes, read}
use tagents.ParseArgs.Reading.{
  Item, switch, joined, apart, plain, line_of, meanings, AllValid, with_positionals, read-line_of,
}
use tagents.ParseArgs.Faults.{before_dash, IsFault, fault_line, complaint, read-complaint}
use tagents.ParseArgs.Sound.{IsSound, read-IsSound}
use tagents.ParseArgs.Values.{Gives, read-values_of}

abbrev grammar : Grammar
grammar = record {
  options = (word "idle", text) ∷ (word "foreground", flag) ∷ (word "state", many) ∷ [];
  positionals = true;
}

-- `--idle 5 --foreground --state=a word`
abbrev items : List Item
items =
    apart (word "idle") text (word "5")
    ∷ switch (word "foreground")
    ∷ joined (word "state") many (word "a")
    ∷ plain (word "word")
    ∷ []

items-AllValid : AllValid grammar items
unfolding listed text_eq word all_chars
items-AllValid = (
  (record { found = refl; filled = refl; free = refl }, (λ e. cc), refl),
  (
    record { found = refl; filled = refl; free = refl },
    ((record { found = refl; filled = refl; free = refl }, (λ e. cc)), ((refl, refl), tt)),
  ),
)

read-line_of_example :
    (read grammar (line_of items []) ≡ ok (meanings items nothing_parsed))
    × (true ≡ true
        → read grammar (line_of items (dashes ∷ word "-x" ∷ []))
          ≡ ok (with_positionals (word "-x" ∷ []) (meanings items nothing_parsed)))
read-line_of_example = read-line_of grammar items (word "-x" ∷ []) items-AllValid

-- `--state` is given twice, and so is `--idle`.
abbrev more : List Item
more =
    joined (word "state") many (word "b")
    ∷ apart (word "idle") text (word "6")
    ∷ apart (word "idle") text (word "5")
    ∷ joined (word "state") many (word "a")
    ∷ []

more-AllValid : AllValid grammar more
unfolding listed text_eq word all_chars
more-AllValid = (
  (record { found = refl; filled = refl; free = refl }, (λ e. cc)),
  (
    (record { found = refl; filled = refl; free = refl }, (λ e. cc), refl),
    (
      (record { found = refl; filled = refl; free = refl }, (λ e. cc), refl),
      ((record { found = refl; filled = refl; free = refl }, (λ e. cc)), tt),
    ),
  ),
)

read-values_of_example : Gives grammar (word "state") more (read grammar (line_of more []))
read-values_of_example = read-values_of grammar (word "state") more more-AllValid

read_back : read grammar (line_of items []) ≡ ok (meanings items nothing_parsed)
read_back = (read-line_of grammar items [] items-AllValid).0

read-IsSound_example : IsSound grammar (meanings items nothing_parsed)
read-IsSound_example =
    read-IsSound grammar (line_of items []) (meanings items nothing_parsed) read_back

-- `--idle -x`
no_value : IsFault grammar (before_dash (word "idle") text (word "-x"))
unfolding listed text_eq word all_chars
no_value = (record { found = refl; filled = refl; free = refl }, (λ e. cc), refl)

read-complaint_example :
    read grammar (line_of items (fault_line (before_dash (word "idle") text (word "-x")) []))
    ≡ err (complaint grammar (before_dash (word "idle") text (word "-x")))
read-complaint_example =
    read-complaint grammar items (before_dash (word "idle") text (word "-x")) [] items-AllValid
      no_value
