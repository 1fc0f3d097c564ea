-- ===== src/Tests/Base.antt =====
-- A configuration, a world and identifiers for the tests.
use noc_demo.Common.{ℕ, zero, suc, refl, true, false, none, [], ◌∷◌}
use noc_demo.Common.Texts.{Text, codes}
use noc_demo.Config.{Config}
use noc_demo.Utils.Uuid.{LibUuid}
use noc_demo.World.{World}

abbrev pub zeros : ℕ → Text
zeros zero = []
zeros (suc n) = 0x30 ∷ zeros n

-- Identifiers that differ in their first character.
instance pub numbered : LibUuid
numbered = record { unparse = λ n. n ∷ zeros 35; length-unparse = λ n. refl }

abbrev pub config : Config
config = record {
  mosquitto_host = codes "localhost";
  mosquitto_port = 1883;
  sub_topic_pattern = codes "/req/";
  pub_topic_pattern = codes "/res/";
  broadcast_request_name = codes "scan";
  mesh_setting_file = codes "mesh";
  mesh_devices_file = codes "devices";
  dhcp_setting_file = codes "dhcp";
  lan_setting_file = codes "lan";
  wan_setting_file = codes "wan";
  route_setting_file = codes "route";
  iptables_dnat_forwarding_setting_file = codes "pf";
  iptables_dnat_dmz_setting_file = codes "dmz";
  iptables_nova_setting_file = codes "nova";
  general_error_table_file = codes "error";
  general_mqtt_error_table_file = codes "mqtt";
  ezm_error_table_file = codes "ezm";
  setup_agent_file = codes "agent";
  setup_controller_file = codes "controller";
  setup_wps_file = codes "wps";
  service_info_file = codes "service";
  ezm_version = codes "1";
  ezm_name = codes "ezm";
  pair_check_polling_time = 5000;
  pair_timeout = 60000;
  uuid_size = 50;
}

-- no file, every path writable
abbrev pub empty_world : World
empty_world = record {
  files = λ path. none;
  writable = λ path. true;
  locked = false;
  executed = [];
  answer = λ before cmd. [];
  uuids = 0;
  published = [];
}

-- no file, and none can be written
abbrev pub full_disk : World
full_disk = record empty_world { writable = λ path. false }
