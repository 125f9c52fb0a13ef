-- ===== src/Libc/Tokens.antt =====
-- Lines and tokens of a text, as fgets and strtok give them. A file has no zero byte.
use tulum_utils.Base.{ℕ, ◌+◌, suc, ltb, ◌==◌, if◌then◌else◌, List, [], ◌∷◌, ◌++◌, Bytes}

-- A token that has begun, if it has any character.
flush : Bytes → List Bytes → List Bytes
flush [] rest = rest
flush (c ∷ token) rest = (c ∷ token) ∷ rest

split : ℕ → Bytes → Bytes → List Bytes
unfolding flush
split sep token [] = flush token []
split sep token (c ∷ s) =
    if c == sep then flush token (split sep [] s) else split sep (token ++ (c ∷ [])) s

-- The tokens that strtok finds one after another, between characters `sep`; none is empty.
unfoldable pub tokens : ℕ → Bytes → List Bytes
unfolding split
tokens sep s = split sep [] s

-- `n` characters of the line have been read.
read_lines : ℕ → ℕ → Bytes → Bytes → List Bytes
unfolding flush
read_lines size n cur [] = flush cur []
read_lines size n cur (c ∷ s) =
    if c == 10
    then (cur ++ (c ∷ [])) ∷ read_lines size 0 [] s
    else if ltb (n + 2) size
    then read_lines size (suc n) (cur ++ (c ∷ [])) s
    else (cur ++ (c ∷ [])) ∷ read_lines size 0 [] s

-- What fgets(str, size, fp) reads at each call, until the file ends.
unfoldable pub fgets_lines : ℕ → Bytes → List Bytes
unfolding read_lines
fgets_lines size file = read_lines size 0 [] file
