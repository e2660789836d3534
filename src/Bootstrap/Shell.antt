-- ===== src/Bootstrap/Shell.antt =====
-- A reader of POSIX shell words, for internal/bootstrap/bootstrap.go: what `sh` makes of a command
-- line of plain and single-quoted words. It models no code of the repository.
use gosh.Base.{ℕ, List, [], ◌∷◌, ◌++◌, Bytes, Option, none, some, ◌==◌, if◌then◌else◌}
use gosh.Base.Text.{codes}
use gosh.Bootstrap.Command.{has_char}

-- The characters with a meaning of their own outside quotes, but for the space, the single quote and
-- the backslash; a word with one is not read.
abbrev pub sh_special : Bytes
sh_special = codes "|&;<>()$`\"*?[#~\t\n"

pub data Mode : Type 0 where
  gap : Mode
  word : Bytes → Mode
  quoted : Bytes → Mode
  escaped : Bytes → Mode
  refused : Mode

abbrev pub enter : Bytes → ℕ → Mode
enter acc c =
    if c == b'\''
    then quoted acc
    else if c == b'\\'
    then escaped acc
    else if has_char sh_special c
    then refused
    else word (acc ++ c ∷ [])

abbrev pub put_first : Bytes → Option (List Bytes) → Option (List Bytes)
put_first acc none = none
put_first acc (some rest) = some (acc ∷ rest)

unfoldable pub words_from : Mode → Bytes → Option (List Bytes)
words_from gap [] = some []
words_from (word acc) [] = some (acc ∷ [])
words_from (quoted acc) [] = none
words_from (escaped acc) [] = none
words_from refused s = none
words_from gap (c ∷ s) = words_from (if c == b' ' then gap else enter [] c) s
words_from (word acc) (c ∷ s) =
    let rest = words_from (if c == b' ' then gap else enter acc c) s in
    if c == b' ' then put_first acc rest else rest
words_from (quoted acc) (c ∷ s) =
    words_from (if c == b'\'' then word acc else quoted (acc ++ c ∷ [])) s
words_from (escaped acc) (c ∷ s) = words_from (if c == 10 then refused else word (acc ++ c ∷ [])) s

abbrev pub sh_words : Bytes → Option (List Bytes)
sh_words s = words_from gap s
