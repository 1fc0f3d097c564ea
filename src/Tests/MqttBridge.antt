-- ===== src/Tests/MqttBridge.antt =====
-- The bridges of the broker at concrete inputs.
use noc_demo.Common.{◌≡◌, refl, true, false, some, List, [], ◌∷◌, All}
use noc_demo.Common.Texts.{Text, codes, contains}
use noc_demo.MqttBridge.{mosquitto_success, has_word, mosquitto_file, delete_mqtt_bridge_client}
use noc_demo.MqttBridge.Client.{Lacks, rewritten, client_deleted_with_rest}
use noc_demo.MqttBridge.Refined.{
  Op, create, delete, request, perform_all, switch_all, Represents, Plain, client_is_switch,
}
use noc_demo.Tests.Base.{empty_world}
use noc_demo.Utils.File.Lock.{written}
use noc_demo.Utils.Split.{IsPiece, unlines}
use noc_demo.World.{World, done}

abbrev port : Text
port = codes "port 1883"

abbrev comment : Text
comment = codes "# address"

abbrev world : World
world = written (unlines (port ∷ comment ∷ [])) mosquitto_file empty_world

two_pieces : All (IsPiece 0x0a) (port ∷ comment ∷ [])
two_pieces = ((refl, refl), ((refl, refl), tt))

no_address : Lacks (codes "address") (port ∷ comment ∷ [])
unfolding has_word contains
no_address = (refl, (refl, tt))

no_connection : Lacks (codes "connection") (port ∷ comment ∷ [])
unfolding has_word contains
no_connection = (refl, (refl, tt))

plain : Plain (port ∷ comment ∷ [])
plain = record { lines = two_pieces; no_address = no_address; no_connection = no_connection }

abbrev ops : List Op
ops = request ∷ create ∷ create ∷ request ∷ delete ∷ delete ∷ request ∷ []

client_is_switch_example :
    (w' : World) × (perform_all 3 ops world ≡ done (switch_all ops false).0 w')
    × Represents (port ∷ comment ∷ []) (switch_all ops false).1 w'
client_is_switch_example =
    client_is_switch 3 port (comment ∷ []) plain ops false world
      (record { free = refl; writable = refl; text = refl })

abbrev limit : Text
limit = codes "max_connections 9"

abbrev listener : Text
listener = codes "listener 1884 192.168.123.1"

abbrev limited : World
limited = written (unlines (port ∷ limit ∷ listener ∷ [])) mosquitto_file empty_world

limit_found : has_word (codes "connection") limit ≡ true
unfolding has_word contains
limit_found = refl

client_deleted_with_rest_example :
    (delete_mqtt_bridge_client 0 limited ≡ done mosquitto_success (rewritten (port ∷ []) limited))
    × ((rewritten (port ∷ []) limited).files mosquitto_file ≡ some (unlines (port ∷ [])))
client_deleted_with_rest_example =
    client_deleted_with_rest 0 port [] limit (listener ∷ []) limited refl refl refl
      ((refl, refl), ((refl, refl), ((refl, refl), tt))) (no_connection.0, tt) limit_found
