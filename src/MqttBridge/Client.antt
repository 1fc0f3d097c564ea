-- ===== src/MqttBridge/Client.antt =====
-- What the bridge to the controller leaves in the configuration of the broker.
use noc_demo.Common.{
  ℕ, ◌≡◌, refl, ap, ◌∙◌, if◌then◌else◌, true, false, Option, none, some, List, [], ◌∷◌, ◌++◌,
  append_assoc, append-nil, All, arith,
}
use noc_demo.Common.Texts.{Text, codes, contains, text_eq, text_eq_refl}
use noc_demo.Common.Int.{pos}
use noc_demo.MqttBridge.{
  mosquitto_success, has_word, connection_ip, keep_before, rewrite_file, client_lines, client_conf,
  address_ip, ip_controller, mosquitto_file, each_line, rm, append_lines,
  request_mqtt_bridge_client, delete_mqtt_bridge_client,
}
use noc_demo.Utils.File.{read_line, lines_or_null, write_data, append, content}
use noc_demo.Utils.File.Lock.{written, read_data_found, write_then_read}
use noc_demo.Utils.Shell.{execl_timeout}
use noc_demo.Utils.Split.{split, pieces, flush, IsPiece, unlines, split-unlines}
use noc_demo.World.{World, done, pure, update, ran, sprintf}

split_append :
    (d : ℕ) (cur s t : Text) → pieces d cur (s ++ d ∷ t) ≡ pieces d cur s ++ pieces d [] t
unfolding pieces
split_append d cur [] t = ground arith
split_append d cur (c ∷ s) t = ground (
  arith,
  split_append d (cur ++ c ∷ []) s t,
  split_append d [] s t,
  append_assoc (flush cur) (pieces d [] s) (pieces d [] t),
)

split_lines : (s t : Text) → split (s ++ 0x0a ∷ t) 0x0a ≡ split s 0x0a ++ split t 0x0a
unfolding split
split_lines s t = split_append 0x0a [] s t

client_pieces : All (IsPiece 0x0a) client_lines
client_pieces = (
  (refl, refl),
  (
    (refl, refl),
    (
      (refl, refl),
      (
        (refl, refl),
        ((refl, refl), ((refl, refl), ((refl, refl), ((refl, refl), ((refl, refl), tt))))),
      ),
    ),
  ),
)

-- No line that is no comment has the word.
abbrev pub Lacks : Text → List Text → Type 0
Lacks word = All (λ line. has_word word line ≡ false)

pub connection_skips :
    (ls rest : List Text)
    → Lacks (codes "address") ls
    → connection_ip (ls ++ rest) ≡ connection_ip rest
unfolding connection_ip
connection_skips [] rest h = refl
connection_skips (l ∷ ls) rest (absent, h) = rw absent (connection_skips ls rest h)

pub connection_absent :
    (ls : List Text) (w : World) → Lacks (codes "address") ls → connection_ip ls w ≡ done none w
unfolding connection_ip
connection_absent [] w h = refl
connection_absent (l ∷ ls) w (absent, h) = rw absent (connection_absent ls w h)

pub connection_found : connection_ip client_lines ≡ pure (some ip_controller)
unfolding connection_ip has_word contains address_ip split pieces
connection_found = refl

pub keep_before_skips :
    (before ls rest : List Text)
    → Lacks (codes "connection") ls
    → keep_before (codes "connection") before (ls ++ rest)
      ≡ keep_before (codes "connection") (before ++ ls) rest
unfolding keep_before
keep_before_skips before [] rest h = rw (append-nil before)
keep_before_skips before (l ∷ ls) rest (absent, h) =
    rw absent (rw (keep_before_skips (before ++ l ∷ []) ls rest h, append_assoc before (l ∷ []) ls))

pub keep_before_found :
    (before : List Text)
    → keep_before (codes "connection") before client_lines ≡ rewrite_file before
unfolding keep_before has_word contains
keep_before_found before = refl

read_line_lem :
    (s : Text) (ls : List Text) (w : World)
    → w.locked ≡ false
    → w.files mosquitto_file ≡ some s
    → split s 0x0a ≡ ls
    → read_line mosquitto_file w ≡ done (lines_or_null ls) w
unfolding read_line
read_line_lem s ls w free found pieces_of =
    rw (read_data_found mosquitto_file s w free found, pieces_of)

-- the configuration with the bridge behind the lines `ls`
abbrev pub bridged : List Text → World → World
bridged ls w = written (unlines ls ++ client_conf) mosquitto_file w

abbrev pub rm_command : Text
rm_command = codes "rm /etc/mosquitto/mosquitto.conf"

pub bridged_file :
    (ls : List Text) (w : World)
    → (bridged ls w).files mosquitto_file ≡ some (unlines ls ++ client_conf)
bridged_file ls w =
    ap (λ b. if b then some (unlines ls ++ client_conf) else w.files mosquitto_file)
      (text_eq_refl mosquitto_file)

pub split-bridged :
    (ls : List Text)
    → All (IsPiece 0x0a) ls
    → split (unlines ls ++ client_conf) 0x0a ≡ ls ++ client_lines
split-bridged ls lines = rw (
  split_lines (unlines ls) (unlines client_lines),
  split-unlines ls lines,
  split-unlines client_lines client_pieces,
)

pub added_lem :
    (ls : List Text) (w : World)
    → w.locked ≡ false
    → w.writable mosquitto_file ≡ true
    → w.files mosquitto_file ≡ some (unlines ls)
    → write_data client_conf append mosquitto_file w ≡ done (pos 0) (bridged ls w)
added_lem ls w free ok found =
    (write_then_read client_conf mosquitto_file w free ok).0
    ∙ ap (λ old. done (pos 0) (written (content old ++ client_conf) mosquitto_file w)) found

-- the world after the file is removed and written anew
abbrev pub rewritten : List Text → World → World
rewritten ls w =
    let left : Text → Option Text = λ q. if text_eq mosquitto_file q then none else w.files q in
    record (ran (rm_command ∷ []) w) { files = update left mosquitto_file (unlines ls) }

pub rewrite_lem :
    (ls : List Text) (w : World)
    → w.writable mosquitto_file ≡ true
    → rewrite_file ls w ≡ done mosquitto_success (rewritten ls w)
unfolding rewrite_file rm append_lines sprintf execl_timeout
rewrite_lem ls w ok = rw ok refl

pub request_lem :
    (unset : ℕ) (s : Text) (l : Text) (ls : List Text) (w : World)
    → w.locked ≡ false
    → w.files mosquitto_file ≡ some s
    → split s 0x0a ≡ l ∷ ls
    → request_mqtt_bridge_client unset w ≡ connection_ip (l ∷ ls) w
unfolding request_mqtt_bridge_client each_line
request_lem unset s l ls w free found pieces_of =
    rw (read_line_lem s (l ∷ ls) w free found pieces_of)

pub delete_lem :
    (unset : ℕ) (s : Text) (l : Text) (ls : List Text) (w : World)
    → w.locked ≡ false
    → w.files mosquitto_file ≡ some s
    → split s 0x0a ≡ l ∷ ls
    → delete_mqtt_bridge_client unset w ≡ keep_before (codes "connection") [] (l ∷ ls) w
unfolding delete_mqtt_bridge_client each_line
delete_lem unset s l ls w free found pieces_of =
    rw (read_line_lem s (l ∷ ls) w free found pieces_of)

-- If the lock is free, the configuration can be written and consists of the lines `ls`, none of
-- them with the word `connection` but in a comment, of a line that has the word, and of the lines
-- `rest`, none of them empty: the deletion of the bridge to the controller writes `ls` alone; all
-- of `rest` is lost, whatever it configures.
pub client_deleted_with_rest :
    (unset : ℕ) (l : Text) (ls : List Text) (line : Text) (rest : List Text) (w : World)
    → w.locked ≡ false
    → w.writable mosquitto_file ≡ true
    → w.files mosquitto_file ≡ some (unlines (l ∷ ls ++ line ∷ rest))
    → All (IsPiece 0x0a) (l ∷ ls ++ line ∷ rest)
    → Lacks (codes "connection") (l ∷ ls)
    → has_word (codes "connection") line ≡ true
    → (delete_mqtt_bridge_client unset w ≡ done mosquitto_success (rewritten (l ∷ ls) w))
      × ((rewritten (l ∷ ls) w).files mosquitto_file ≡ some (unlines (l ∷ ls)))
unfolding keep_before
client_deleted_with_rest unset l ls line rest w free ok found lines lacks has =
    let text = unlines (l ∷ ls ++ line ∷ rest) in
    let pieces_of = split-unlines (l ∷ ls ++ line ∷ rest) lines in
    (
      rw
          (
            delete_lem unset text l (ls ++ line ∷ rest) w free found pieces_of,
            keep_before_skips [] (l ∷ ls) (line ∷ rest) lacks,
            has,
          )
          (rewrite_lem (l ∷ ls) w ok),
      ap (λ b. if b then some (unlines (l ∷ ls)) else none) (text_eq_refl mosquitto_file),
    )
