-- ===== src/Node.antt =====
-- crates/tagents-core/src/node.rs: what it says of an error of a system call.
use tagents.Prelude.{ℕ, String, ◌++◌, Option, none, some, List, [], ◌∷◌, ◌==◌, if◌then◌else◌}
use tagents.Text.{Text, word}

-- `std::io::ErrorKind`, as far as the modelled code asks for it.
pub data ErrorKind : Type 0 where
  already_exists not_found other_kind : ErrorKind

-- `std::io::Error`: its kind, its number, and the text that Rust prints for it.
pub record IoError : Type 0 where
  pub kind : ErrorKind
  pub raw_os_error : Option ℕ
  pub to_string : Text

pub record Errno : Type 0 where
  pub number : ℕ
  pub code : String
  pub message : String

abbrev entry : ℕ → String → String → Errno
entry number code message = record { number = number; code = code; message = message }

abbrev pub errnos : List Errno
errnos =
    entry 2 "ENOENT" "no such file or directory"
    ∷ entry 5 "EIO" "i/o error"
    ∷ entry 7 "E2BIG" "argument list too long"
    ∷ entry 8 "ENOEXEC" "exec format error"
    ∷ entry 12 "ENOMEM" "not enough memory"
    ∷ entry 13 "EACCES" "permission denied"
    ∷ entry 17 "EEXIST" "file already exists"
    ∷ entry 20 "ENOTDIR" "not a directory"
    ∷ entry 21 "EISDIR" "illegal operation on a directory"
    ∷ entry 24 "EMFILE" "too many open files"
    ∷ entry 26 "ETXTBSY" "text file is busy"
    ∷ []

-- `SYSTEM_ERRNOS`, with the numbers that Linux has.
abbrev pub system_errnos : List Errno
system_errnos =
    entry 40 "ELOOP" "too many symbolic links encountered"
    ∷ entry 36 "ENAMETOOLONG" "name too long"
    ∷ entry 1 "EPERM" "operation not permitted"
    ∷ []

abbrev find_number : ℕ → List Errno → Option Errno
find_number n [] = none
find_number n (e ∷ es) = let rest = find_number n es in if e.number == n then some e else rest

unfoldable pub errno : IoError → Option Errno
errno error = elim (error.raw_os_error) [
  | none ↦ none
  | some number ↦ find_number number (errnos ++ system_errnos)
]

unfoldable pub io_message : IoError → Text → Option Text → Text
unfolding errno word
io_message error syscall path = elim (errno error) [
  | none ↦ error.to_string
  | some e ↦
      word e.code
      ++ (word ": "
          ++ (word e.message
              ++ (word ", "
                  ++ (syscall ++ elim path [ none ↦ [] | some p ↦ word " '" ++ (p ++ word "'") ]))))
]
