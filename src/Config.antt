-- ===== src/Config.antt =====
-- src/config.c, src/config.h and the readers of the environment in src/utils/dotenv/dotenv.c.
use noc_demo.Common.{ℕ, Option, none, some, [], ◌∷◌}
use noc_demo.Common.Texts.{Text}

pub record Config : Type 0 where
  pub mosquitto_host : Text
  pub mosquitto_port : ℕ
  pub sub_topic_pattern : Text
  pub pub_topic_pattern : Text
  pub broadcast_request_name : Text
  pub mesh_setting_file : Text
  pub mesh_devices_file : Text
  pub dhcp_setting_file : Text
  pub lan_setting_file : Text
  pub wan_setting_file : Text
  pub route_setting_file : Text
  pub iptables_dnat_forwarding_setting_file : Text
  pub iptables_dnat_dmz_setting_file : Text
  pub iptables_nova_setting_file : Text
  pub general_error_table_file : Text
  pub general_mqtt_error_table_file : Text
  pub ezm_error_table_file : Text
  pub setup_agent_file : Text
  pub setup_controller_file : Text
  pub setup_wps_file : Text
  pub service_info_file : Text
  pub ezm_version : Text
  pub ezm_name : Text
  pub pair_check_polling_time : ℕ
  pub pair_timeout : ℕ
  pub uuid_size : ℕ

-- getenv, with NULL for a variable that is not set
abbrev pub Environment : Type 0
Environment = Text → Option Text

non_empty : Option Text → Text → Text
non_empty none def = def
non_empty (some []) def = def
non_empty (some (c ∷ s)) def = c ∷ s

unfoldable pub env_get : Environment → Text → Text → Text
unfolding non_empty
env_get env name def = non_empty (env name) def

module _ (atoi : Text → ℕ) where
  int_of : Option Text → ℕ → ℕ
  int_of none def = def
  int_of (some []) def = def
  int_of (some (c ∷ s)) def = atoi (c ∷ s)

  unfoldable pub env_get_int : Environment → Text → ℕ → ℕ
  unfolding int_of
  env_get_int env name def = int_of (env name) def
