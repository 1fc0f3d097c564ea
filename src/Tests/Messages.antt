-- ===== src/Tests/Messages.antt =====
-- The properties of the messages, of the errors and of the handlers at concrete inputs.
use noc_demo.Common.{◌≡◌, refl, ap, ◌∙◌, none, some, [], ◌∷◌, ◌++◌, arith}
use noc_demo.Common.Int.{pos}
use noc_demo.Common.Texts.{Text, codes, contains}
use noc_demo.Api.Dispatch.{
  message_handler_entry, first_handler, mqtt_on_message_cb_handler, create_mesh,
}
use noc_demo.Api.Dispatch.Chosen.{first_handler_own, mqtt_on_message_unknown, NoneFound}
use noc_demo.Api.Errors.{Error, ErrorTables, error_table_lookup}
use noc_demo.Api.Errors.Lookup.{table_of, find_error, error_table_lookup_first}
use noc_demo.Api.Handler.{respond_name}
use noc_demo.Api.Message.{
  empty, network_lan, network_wan, cleared, lan, wan, Header, MsgRequest, cvt_msg_request_to_json,
  cvt_json_to_msg_request, message_members,
}
use noc_demo.Api.Message.RoundTrip.{Carries, request_round_trip}
use noc_demo.Api.Network.{create_lan, request_lan}
use noc_demo.Api.Handler.Answer.{Asks, answer_text, told}
use noc_demo.Api.Network.Answers.{lan_world, restart_network, lan_created_then_requested}
use noc_demo.Api.Name.{cvt_req_name_to_res_name, answer_name, answer_tail, answer_word}
use noc_demo.CJson.Object.{object_of, string_item, Members, read_string, read_string-member}
use noc_demo.Utils.Split.{split, pieces}
use noc_demo.World.{sprintf}
use noc_demo.CJson.Tree.{tree_cjson}
use noc_demo.ErrorCode.{code}
use noc_demo.Network.Lan.{Lan, cvt_lan_to_json}
use noc_demo.Network.Wan.{Wan}
use noc_demo.Tests.Base.{config, empty_world}
use noc_demo.Tests.Settings
use noc_demo.World.{World, freed_read, out_of_bounds, done, stopped, ran}

abbrev pub fine : Error
fine = record { code = pos 0; message = some (codes "Success") }

abbrev late : Error
late = record { code = pos 240002; message = some (codes "WPS Fail") }

error_table_lookup_first_example :
    error_table_lookup
      (record {
        general = some (table_of (fine ∷ []));
        general_mqtt = some (table_of []);
        ezm = some (table_of (late ∷ []));
      })
      (pos 240002)
    ≡ find_error (pos 240002) ((fine ∷ []) ++ ([] ++ (late ∷ [])))
error_table_lookup_first_example =
    error_table_lookup_first (pos 240002) (fine ∷ []) [] (late ∷ []) (omega arith, tt) tt
      (omega arith, tt)

abbrev pub header : Header
header = record {
  name = some (codes "hub.ezm.network.lan.requested");
  scope = none;
  source = some (codes "hub");
  home_id = none;
  user_id = none;
  id = some (codes "1");
  auth_token = none;
  parent_id = none;
  client_id = none;
  created_time = pos 7;
}

abbrev outer : Wan
outer = record { proto = some (codes "static"); ipaddr = none }

abbrev wan_request : MsgRequest
wan_request = record { header = header; payload = some (wan outer) }

request_round_trip_example :
    (json : tree_cjson.Json) × ((cvt_msg_request_to_json wan_request network_wan empty_world
        ≡ done json empty_world)
      × (cvt_json_to_msg_request (some json) network_wan ≡ wan_request))
request_round_trip_example =
    request_round_trip network_wan (wan outer) header empty_world (Carries.outer_network outer)
      (omega arith)

abbrev setting : Lan
setting = Settings.lan

abbrev created :
    (json : tree_cjson.Json) × ((cvt_msg_request_to_json
          (record { header = header; payload = some (lan setting) })
          network_lan
          empty_world
        ≡ done json empty_world)
      × (cvt_json_to_msg_request (some json) network_lan
          ≡ record { header = header; payload = some (lan setting) }))
created =
    request_round_trip network_lan (lan setting) header empty_world (Carries.local_network setting)
      (omega arith)

-- a request with data that is not read
abbrev requested :
    (json : tree_cjson.Json) × ((cvt_msg_request_to_json
          (record { header = header; payload = some cleared })
          empty
          empty_world
        ≡ done json empty_world)
      × (cvt_json_to_msg_request (some json) empty
          ≡ record { header = header; payload = some cleared }))
requested = request_round_trip empty cleared header empty_world Carries.nothing (omega arith)

abbrev bare_json : tree_cjson.Json
bare_json = object_of (message_members header none)

abbrev pub answer_name_text : Text
answer_name_text = codes "ezm.hub.network.lan.responded"

pub name_converted : (w : World) → respond_name [] header.name w ≡ done answer_name_text w
unfolding respond_name cvt_req_name_to_res_name answer_name answer_tail answer_word split pieces
    contains sprintf
name_converted w = refl

asks : Asks [] requested.0 empty header (some cleared) answer_name_text
asks = record { parsed = requested.1.1; converted = name_converted }

lan-Asks : Asks [] created.0 network_lan header (some (lan setting)) answer_name_text
lan-Asks = record { parsed = created.1.1; converted = name_converted }

abbrev tables : ErrorTables
tables = record {
  general = some (table_of (fine ∷ []));
  general_mqtt = some (table_of []);
  ezm = some (table_of []);
}

known : error_table_lookup tables (pos 0) ≡ some fine
known = error_table_lookup_first (pos 0) (fine ∷ []) [] [] (omega arith, tt) tt tt

abbrev pub topic : Text
topic = codes "hub/ezm"

lan_created_then_requested_example :
    let item = some (cvt_lan_to_json setting) in
    let told_once =
      told topic
        (answer_text header answer_name_text item fine)
        (lan_world config setting empty_world) in
    let restarted = ran (restart_network ∷ []) told_once in
    (create_lan topic [] tables config created.0 empty_world ≡ done tt restarted)
    × (request_lan topic [] tables config requested.0 restarted
        ≡ done tt (told topic (answer_text header answer_name_text item fine) restarted))
lan_created_then_requested_example =
    lan_created_then_requested [] topic tables config setting fine created.0 requested.0 header
      header cleared answer_name_text answer_name_text empty_world lan-Asks asks known refl refl
      Settings.lan_fits

first_handler_own_example :
    (first_handler (codes "hub.ezm." ++ codes "mesh.created") message_handler_entry
      ≡ some create_mesh)
    × (first_handler (codes "ezm.ezm." ++ codes "mesh.created") message_handler_entry
        ≡ some create_mesh)
first_handler_own_example = first_handler_own 0 (codes "mesh.created") create_mesh refl

abbrev named_members : Text → Members
named_members name = (codes "name", string_item (some name)) ∷ []

abbrev message_named : Text → Text
message_named name = tree_cjson.print (object_of (named_members name))

named_lem :
    (name : Text) → read_string (tree_cjson.parse (message_named name)) (codes "name") ≡ some name
named_lem name =
    ap (λ j. read_string j (codes "name")) (tree_cjson.parse-print (object_of (named_members name)))
    ∙ read_string-member (named_members name) (codes "name") (some name) refl

none_found : NoneFound (codes "hub.ezm.other") message_handler_entry
unfolding contains
none_found = ground arith

none_found' : NoneFound (codes "hub") message_handler_entry
unfolding contains
none_found' = ground arith

abbrev anonymous : Text
anonymous = tree_cjson.print (object_of [])

anonymous_nameless : read_string (tree_cjson.parse anonymous) (codes "name") ≡ none
unfolding string_item
anonymous_nameless =
    ap (λ j. read_string j (codes "name")) (tree_cjson.parse-print (object_of []))
    ∙ read_string-member [] (codes "name") none refl

mqtt_on_message_unknown_example :
    (mqtt_on_message_cb_handler topic tables (message_named (codes "hub.ezm.other")) empty_world
      ≡ stopped freed_read)
    × (mqtt_on_message_cb_handler topic tables (message_named (codes "hub")) empty_world
        ≡ stopped out_of_bounds)
    × (mqtt_on_message_cb_handler topic tables anonymous empty_world ≡ done none empty_world)
unfolding answer_word contains
mqtt_on_message_unknown_example =
    mqtt_on_message_unknown topic tables (message_named (codes "hub.ezm.other"))
      (message_named (codes "hub")) anonymous (codes "hub") (codes "ezm") (codes "other") []
      empty_world ((refl, refl), (refl, refl), (refl, refl), tt) (omega arith)
      (named_lem (codes "hub.ezm.other")) none_found (named_lem (codes "hub")) none_found'
      anonymous_nameless
