-- ===== src/Utils/File/Lock.antt =====
-- What the calls of file.c do to the lock and to the files.
use noc_demo.Common.{◌≡◌, refl, ap, if◌then◌else◌, ◌++◌, true, false, none, some, arith}
use noc_demo.Common.Int.{pos, negsuc}
use noc_demo.Common.Texts.{Text, text_eq_refl}
use noc_demo.World.{World, done, stopped, deadlock, update}
use noc_demo.Utils.File.{
  Mode, append, other, read_data, write_data, check_file_exist, content, truncate,
}

abbrev pub written : Text → Text → World → World
written s path w = record w { files = update w.files path s }

pub read_data_found :
    (path s : Text) (w : World)
    → w.locked ≡ false
    → w.files path ≡ some s
    → read_data path w ≡ done (some s) w
unfolding read_data
read_data_found path s w free found = ground arith

pub write_data_truncates :
    (s path : Text) (w : World)
    → w.locked ≡ false
    → w.writable path ≡ true
    → write_data s truncate path w ≡ done (pos 0) (written s path w)
unfolding write_data
write_data_truncates s path w free ok = ground arith

pub write_data_refused :
    (s path : Text) (w : World)
    → w.locked ≡ false
    → w.writable path ≡ false
    → write_data s truncate path w ≡ done (negsuc 0) (record w { locked = true })
unfolding write_data
write_data_refused s path w free ok = ground arith

-- What happens to later calls once the lock is taken for good.
abbrev pub Stuck : World → Type 0
Stuck w =
    ((path : Text) → read_data path w ≡ stopped deadlock)
    × ((s : Text) (mode : Mode) (path : Text) → write_data s mode path w ≡ stopped deadlock)
    × ((path : Text) → check_file_exist path w ≡ stopped deadlock)

Stuck-locked : (w : World) → w.locked ≡ true → Stuck w
unfolding read_data write_data check_file_exist
Stuck-locked w taken = (λ path. ground arith, λ s mode path. ground arith, λ path. ground arith)

-- If the lock is free and a file can be opened neither for reading nor for writing, read_data
-- answers NULL, write_data -1 in any mode and check_file_exist false, and each leaves the lock
-- taken, so that every later call of any of the three, for any file, waits for ever.
pub failed_open_blocks :
    (path s : Text) (mode : Mode) (w : World)
    → w.locked ≡ false
    → w.files path ≡ none
    → w.writable path ≡ false
    → let stuck = record w { locked = true } in
      (read_data path w ≡ done none stuck)
      × (write_data s mode path w ≡ done (negsuc 0) stuck)
      × (check_file_exist path w ≡ done false stuck)
      × Stuck stuck
unfolding read_data write_data check_file_exist
failed_open_blocks path s mode w free missing refused = (
  ground arith,
  elim mode [ append ↦ ground arith | truncate ↦ ground arith | other n ↦ ground arith ],
  ground arith,
  Stuck-locked (record w { locked = true }) refl,
)

read_written :
    (s path : Text) (w : World)
    → w.locked ≡ false
    → read_data path (written s path w) ≡ done (some s) (written s path w)
read_written s path w free =
    read_data_found path s (written s path w) free
      (ap (λ b. if b then some s else w.files path) (text_eq_refl path))

-- If the lock is free and the file can be written, an append adds the text behind what the file
-- held, or makes a new file of it, a truncation leaves the text alone, and read_data of that file
-- then answers what was written.
pub write_then_read :
    (s path : Text) (w : World)
    → w.locked ≡ false
    → w.writable path ≡ true
    → let old = content (w.files path) in
      let appended = written (old ++ s) path w in
      let truncated = written s path w in
      (write_data s append path w ≡ done (pos 0) appended)
      × (read_data path appended ≡ done (some (old ++ s)) appended)
      × (write_data s truncate path w ≡ done (pos 0) truncated)
      × (read_data path truncated ≡ done (some s) truncated)
unfolding write_data
write_then_read s path w free ok = (
  ground arith,
  read_written (content (w.files path) ++ s) path w free,
  ground arith,
  read_written s path w free,
)
