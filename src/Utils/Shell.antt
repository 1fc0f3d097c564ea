-- ===== src/Utils/Shell.antt =====
-- src/utils/cmd/cmd.c: a command line handed to the shell.
use noc_demo.Common.{ℕ, ◌==◌, if◌then◌else◌, List, [], ◌∷◌, ◌++◌}
use noc_demo.Common.Texts.{Text}
use noc_demo.World.{Read, byte, again, done, Cmd}

unfoldable pub execl_non_timeout : Text → Cmd (Unit {0})
execl_non_timeout cmd w = done tt (record w { executed = w.executed ++ cmd ∷ [] })

-- `c = fgetc(fp)`: the pipe does not block, and its EOF for nothing yet is kept as a character.
abbrev pub char_of : Read → ℕ
char_of (byte c) = c
char_of again = 0xff

-- the loop, which appends a character for each call before the end
abbrev pub collected : List Read → Text
collected [] = []
collected (r ∷ rs) = char_of r ∷ collected rs

-- the string that a buffer holds, up to the first NUL
abbrev pub c_string : Text → Text
c_string [] = []
c_string (c ∷ s) = let rest = c_string s in if c == 0 then [] else c ∷ rest

-- The pipe is taken to open.
unfoldable pub execl_timeout : Text → Cmd Text
execl_timeout cmd w =
    done (c_string (collected (w.answer w.executed cmd)))
      (record w { executed = w.executed ++ cmd ∷ [] })
