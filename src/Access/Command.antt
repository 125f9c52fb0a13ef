-- ===== src/Access/Command.antt =====
-- The command line of a file access: mtk_vs_file_access_commands and parse_mtk_vs_file_access.
use tulum_utils.Base.{
  ℕ, Bool, true, false, ◌&&◌, ◌||◌, ltb, ◌==◌, if◌then◌else◌, Option, none, some, ◌>>=◌, List, [],
  ◌∷◌, Bytes, codes, bytes_eq, length,
}

-- struct mtk_vs_file_access_command_t, as the table sets it. The operations are numbers from 0 (write) to
-- 8 (scan-sta), and the flags 0, 1 (input) and 2 (output).
pub record Command : Type 0 where
  pub name : Bytes
  pub op : ℕ
  pub file_type : ℕ
  pub parse_next : Bool
  pub file_flag : ℕ

abbrev entry : Bytes → ℕ → ℕ → Bool → ℕ → Command
entry name op file_type parse_next file_flag = record {
  name = name;
  op = op;
  file_type = file_type;
  parse_next = parse_next;
  file_flag = file_flag;
}

abbrev pub file_access_commands : List Command
file_access_commands =
    entry (codes "write") 0 2 true 1
    ∷ entry (codes "bootloader") 0 0 false 1
    ∷ entry (codes "simage") 0 1 true 1
    ∷ entry (codes "read") 1 2 true 0
    ∷ entry (codes "debug") 1 3 false 0
    ∷ entry (codes "delete") 2 2 true 0
    ∷ entry (codes "simage-delete") 2 1 true 0
    ∷ entry (codes "listdir") 3 2 true 0
    ∷ entry (codes "format") 6 2 false 0
    ∷ entry (codes "save") 7 2 true 2
    ∷ entry (codes "scan-sta") 8 2 false 0
    ∷ []

abbrev pub find_command : Bytes → List Command → Option Command
find_command word [] = none
find_command word (c ∷ commands) =
    if bytes_eq word c.name then some c else find_command word commands

-- Where the first loop ends: at a command, with its parameter and the words from the next index on, at
-- the end of the table, or with the result NULL.
pub data Found : Type 0 where
  found : Command → Bytes → List Bytes → Found
  at_end : Found
  refused : Found

-- The command line that has been read, with the fields that the table does not set.
pub record Access : Type 0 where
  pub command : Command
  pub parameter : Bytes
  pub file_name : Bytes
  pub all_flag : Bool

-- A parameter of 32 bytes or more does not fit its array, which faults.
fits : Command → Bytes → List Bytes → Option Found
fits c parameter rest = if ltb (length parameter) 32 then some (found c parameter rest) else none

-- "simage input" has no name of an image, and the words are looked at from the command on.
unfoldable pub parse_next_word : Command → Bytes → List Bytes → Option Found
unfolding fits
parse_next_word c word [] = some refused
parse_next_word c word (parameter ∷ rest) =
    if c.op == 0 && c.file_type == 1 && bytes_eq parameter (codes "input")
    then some (found c [] (word ∷ parameter ∷ rest))
    else fits c parameter rest

-- Words before a command are passed over. With no word at all the command is a null pointer, which is
-- read.
unfoldable pub find_words : Bool → List Bytes → Option Found
find_words seen [] = if seen then some at_end else none
find_words seen (word ∷ rest) = elim (find_command word file_access_commands) [
  | none ↦ find_words true rest
  | some c ↦ if c.parse_next then parse_next_word c word rest else some (found c [] rest)
]

-- The second loop: the flag that has been read, the name of the file, and the words that follow. `some
-- none` is the result NULL.
unfoldable pub find_file : List Bytes → Option (Option (ℕ × Bytes × List Bytes))
find_file [] = some (some (0, [], []))
find_file (word ∷ []) =
    if bytes_eq word (codes "input") || bytes_eq word (codes "output")
    then some none
    else some (some (0, [], []))
find_file (word ∷ name ∷ rest) =
    let flag =
      if bytes_eq word (codes "input")
      then 1
      else if bytes_eq word (codes "output")
      then 2
      else 0 in
    if flag == 0
    then find_file (name ∷ rest)
    else if ltb (length name) 128
    then some (some (flag, name, rest))
    else none

is_all : List Bytes → Bool
is_all [] = false
is_all (word ∷ rest) = bytes_eq word (codes "all")

unfoldable pub with_file : Command → Bytes → Option (ℕ × Bytes × List Bytes) → Option Access
unfolding is_all
with_file c parameter none = none
with_file c parameter (some (flag, name, rest)) =
    if flag == c.file_flag
    then some
        (record { command = c; parameter = parameter; file_name = name; all_flag = is_all rest })
    else none

-- The whole function; `some none` is NULL, and none a fault.
unfoldable pub parse_file_access : List Bytes → Option (Option Access)
parse_file_access argv = find_words false argv >>= λ result. elim result [
  | found c parameter rest ↦
      (if c.file_flag == 0 then some (some (0, [], rest)) else find_file rest) >>= λ file.
      some (with_file c parameter file)
  | at_end ↦ some none
  | refused ↦ some none
]

write_command : Bytes → Bytes → Access
write_command parameter name = record {
  command = entry (codes "write") 0 2 true 1;
  parameter = parameter;
  file_name = name;
  all_flag = false;
}
