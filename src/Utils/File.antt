-- ===== src/Utils/File.antt =====
-- src/utils/file/file.c: reading and writing a whole file under `mutex_lock`.
pub mod Lock
use noc_demo.Common.{ℕ, if◌then◌else◌, Bool, true, false, Option, none, some, ◌++◌, List, [], ◌∷◌}
use noc_demo.Common.Int.{ℤ, pos, negsuc}
use noc_demo.Common.Texts.{Text}
use noc_demo.Utils.Split.{split}
use noc_demo.World.{World, Run, done, stopped, deadlock, Cmd, update, pure, ◌>>=◌}

-- APPEND and TRUNCATE; any other number is refused
pub data Mode : Type 0 where
  append truncate : Mode
  other : ℕ → Mode

-- pthread_mutex_lock
lock : Cmd (Unit {0})
lock w = if w.locked then stopped deadlock else done tt (record w { locked = true })

-- fopen(path, "r"); a file that cannot be opened leaves the lock taken
read_locked : Text → Option Text → Cmd (Option Text)
read_locked path none w = done none w
read_locked path (some s) w = done (some s) (record w { locked = false })

unfoldable pub read_data : Text → Cmd (Option Text)
unfolding lock read_locked
read_data path w =
    if w.locked
    then stopped deadlock
    else read_locked path (w.files path) (record w { locked = true })

abbrev pub content : Option Text → Text
content none = []
content (some s) = s

-- what fopen(path, "w") or fopen(path, "a") and fwrite leave in the file
new_content : Mode → Text → Text → World → Text
new_content append path s w = content (w.files path) ++ s
new_content _ path s w = s

write_locked : Text → Mode → Text → Cmd ℤ
unfolding new_content
write_locked s (other n) path w = done (negsuc 0) w
write_locked s mode path w =
    if w.writable path
    then done (pos 0)
        (record w { files = update w.files path (new_content mode path s w); locked = false })
    else done (negsuc 0) w

unfoldable pub write_data : Text → Mode → Text → Cmd ℤ
unfolding lock write_locked
write_data s mode path w =
    if w.locked then stopped deadlock else write_locked s mode path (record w { locked = true })

check_locked : Option Text → Cmd Bool
check_locked none w = done false w
check_locked (some s) w = done true (record w { locked = false })

unfoldable pub check_file_exist : Text → Cmd Bool
unfolding check_locked
check_file_exist path w =
    if w.locked then stopped deadlock else check_locked (w.files path) (record w { locked = true })

-- `split` answers NULL where there is no line.
abbrev pub lines_or_null : List Text → Option (List Text)
lines_or_null [] = none
lines_or_null (l ∷ ls) = some (l ∷ ls)

abbrev pub lines_of : Option Text → Option (List Text)
lines_of none = none
lines_of (some s) = lines_or_null (split s 0x0a)

unfoldable pub read_line : Text → Cmd (Option (List Text))
read_line path = do text ← read_data path; pure (lines_of text)
