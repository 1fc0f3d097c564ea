-- ===== src/MqttBridge.antt =====
-- src/config/mqtt_bridge/mqtt_bridge.c: the bridges in the configuration of the MQTT broker.
pub mod Client
pub mod Refined
use noc_demo.Common.{
  ℕ, zero, suc, ◌==◌, ◌&&◌, if◌then◌else◌, not, Bool, true, false, Option, none, some, List, [],
  ◌∷◌, ◌++◌,
}
use noc_demo.Common.Texts.{Text, codes, text_eq, contains}
use noc_demo.Api.Handler.{restart_service}
use noc_demo.Utils.File.{append, content, read_line, write_data, check_file_exist}
use noc_demo.Utils.Shell.{execl_timeout}
use noc_demo.Utils.Split.{split, unlines}
use noc_demo.World.{
  World, done, stopped, Cmd, pure, stop, ◌>>=◌, ◌>>◌, null_read, out_of_bounds, update, sprintf,
}

pub data MqttBridgeRet : Type 0 where
  mosquitto_file_not_found mosquitto_server_bridge_not_found : MqttBridgeRet
  mosquitto_server_bridge_existed mosquitto_client_bridge_existed : MqttBridgeRet
  mosquitto_client_bridge_not_found mosquitto_success : MqttBridgeRet

abbrev pub ip_controller : Text
ip_controller = codes "192.168.123.1"

abbrev pub port_controller : Text
port_controller = codes "1884"

abbrev pub mosquitto_file : Text
mosquitto_file = codes "/etc/mosquitto/mosquitto.conf"

abbrev pub password_file : Text
password_file = codes "/etc/mosquitto/password.pwd"

-- `line[0] != '#' && app_strstr(line, word)`; an empty line starts with its NUL
abbrev pub uncommented : Text → Bool
uncommented [] = true
uncommented (c ∷ s) = not (c == 0x23)

unfoldable pub has_word : Text → Text → Bool
has_word word line = uncommented line && contains line word

-- `n_line` is not set before read_line, which leaves it as it is where it gives NULL: `unset` is
-- what it holds then.
unfoldable pub each_line : {A : Type 0} → ℕ → A → (List Text → Cmd A) → Option (List Text) → Cmd A
each_line zero ended loop none = pure ended
each_line (suc n) ended loop none = stop null_read
each_line n ended loop (some lines) = loop lines

-- `ip_port_info[0]`
abbrev pub first_piece : List Text → Cmd (Option Text)
first_piece [] = stop null_read
first_piece (p ∷ ps) = pure (some p)

-- `broker_info[1]`, where the test asks for one piece only
unfoldable pub address_ip : List Text → Cmd (Option Text) → Cmd (Option Text)
address_ip [] rest = rest
address_ip (p ∷ []) rest = stop out_of_bounds
address_ip (p ∷ q ∷ ps) rest = first_piece (split q 0x3a)

unfoldable pub connection_ip : List Text → Cmd (Option Text)
connection_ip [] = pure none
connection_ip (line ∷ lines) =
    let rest = connection_ip lines in
    if has_word (codes "address") line then address_ip (split line 0x20) rest else rest

unfoldable pub last_piece : List Text → Cmd (Option Text)
last_piece [] = stop out_of_bounds
last_piece (p ∷ []) = pure (some p)
last_piece (p ∷ q ∷ ps) = last_piece (q ∷ ps)

unfoldable pub listener_ip : Text → List Text → Cmd (Option Text)
listener_ip word [] = pure none
listener_ip word (line ∷ lines) =
    let rest = listener_ip word lines in
    if has_word word line then last_piece (split line 0x20) else rest

-- the command `rm`, which the shell runs, and its effect
unfoldable pub rm : Text → Cmd (Unit {0})
rm path = do
  cmd ← sprintf 200 (codes "rm " ++ path)
  execl_timeout cmd
  λ w. done tt (record w { files = λ q. if text_eq path q then none else w.files q })

-- fopen(path, "a+") without the lock, and fwrite; a NULL file is written through.
unfoldable pub append_lines : Text → List Text → Cmd (Unit {0})
append_lines path lines w =
    if w.writable path
    then done tt
        (record w { files = update w.files path (content (w.files path) ++ unlines lines) })
    else stopped null_read

unfoldable pub rewrite_file : List Text → Cmd MqttBridgeRet
rewrite_file before = do
  rm mosquitto_file
  append_lines mosquitto_file before
  pure mosquitto_success

-- the lines before the one that has the word are written to a new file
unfoldable pub keep_before : Text → List Text → List Text → Cmd MqttBridgeRet
keep_before word before [] = pure mosquitto_client_bridge_not_found
keep_before word before (line ∷ lines) =
    let rest = keep_before word (before ++ line ∷ []) lines in
    if has_word word line then rewrite_file before else rest

abbrev pub listener_word : Text
listener_word = codes "listener " ++ port_controller

unfoldable pub password_command : Text
password_command =
    codes "mosquitto_passwd -b "
    ++ password_file
    ++ codes "  "
    ++ codes "mqtt-bridge"
    ++ codes "  "
    ++ codes "novaintechs"

unfoldable pub server_conf : Text
server_conf =
    0x0a ∷ (codes "listener " ++ port_controller ++ codes " " ++ ip_controller)
    ++ 0x0a ∷ codes "allow_anonymous false"
    ++ 0x0a ∷ (codes "password_file " ++ password_file)
    ++ 0x0a ∷ codes " "

-- the lines of a bridge to the controller
abbrev pub client_lines : List Text
client_lines =
    codes "connection mqtt-bridge "
    ∷ (codes "address " ++ ip_controller ++ codes ":" ++ port_controller ++ codes " ")
    ∷ codes "topic ezm/# both 1 "
    ∷ codes "topic hub/# both 1 "
    ∷ codes "topic zib/# both 1 "
    ∷ codes "topic zwa/# both 1 "
    ∷ codes "try_private false "
    ∷ codes "remote_username mqtt-bridge  "
    ∷ codes "remote_password novaintechs  "
    ∷ []

abbrev pub client_conf : Text
client_conf = 0x0a ∷ unlines client_lines

module _ (unset : ℕ) where
  unfoldable pub request_mqtt_bridge_client : Cmd (Option Text)
  request_mqtt_bridge_client = do
    lines ← read_line mosquitto_file
    each_line unset none connection_ip lines

  unfoldable pub request_mqtt_bridge_server : Cmd (Option Text)
  request_mqtt_bridge_server = do
    lines ← read_line mosquitto_file
    word ← sprintf 200 listener_word
    each_line unset none (listener_ip word) lines

  unfoldable pub delete_mqtt_bridge_client : Cmd MqttBridgeRet
  delete_mqtt_bridge_client = do
    lines ← read_line mosquitto_file
    each_line unset mosquitto_client_bridge_not_found (keep_before (codes "connection") []) lines

  unfoldable pub delete_mqtt_bridge_server : Cmd MqttBridgeRet
  delete_mqtt_bridge_server = do
    lines ← read_line mosquitto_file
    word ← sprintf 200 listener_word
    each_line unset mosquitto_client_bridge_not_found (keep_before word []) lines

  unfoldable pub add_client : Option Text → Cmd MqttBridgeRet
  add_client (some ip) = pure mosquitto_client_bridge_existed
  add_client none = do
    conf ← sprintf 1024 client_conf
    write_data conf append mosquitto_file
    pure mosquitto_success

  unfoldable pub create_mqtt_bridge_client : Cmd MqttBridgeRet
  create_mqtt_bridge_client = do ip ← request_mqtt_bridge_client; add_client ip

  unfoldable pub add_server : Option Text → Cmd MqttBridgeRet
  add_server (some ip) = pure mosquitto_server_bridge_existed
  add_server none = do
    touch ← sprintf 200 (codes "touch  " ++ password_file ++ codes " ")
    execl_timeout touch
    cmd ← sprintf 200 password_command
    execl_timeout cmd
    conf ← sprintf 200 server_conf
    write_data conf append mosquitto_file
    pure mosquitto_success

  unfoldable pub server_if_file : Bool → Cmd MqttBridgeRet
  server_if_file false = pure mosquitto_file_not_found
  server_if_file true = do ip ← request_mqtt_bridge_server; add_server ip

  unfoldable pub create_mqtt_bridge_server : Cmd MqttBridgeRet
  create_mqtt_bridge_server = do there ← check_file_exist mosquitto_file; server_if_file there

  unfoldable pub update_mqtt_bridge_client : Cmd MqttBridgeRet
  update_mqtt_bridge_client = delete_mqtt_bridge_client >> create_mqtt_bridge_client

  unfoldable pub update_mqtt_bridge_server : Cmd MqttBridgeRet
  update_mqtt_bridge_server = delete_mqtt_bridge_server >> create_mqtt_bridge_server

unfoldable pub restart_mqtt_service : Cmd (Unit {0})
restart_mqtt_service = restart_service (codes "mosquitto")
