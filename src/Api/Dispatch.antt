-- ===== src/Api/Dispatch.antt =====
-- src/api/message/message_handler.c: which handler a message of the broker is given to.
pub mod Chosen
use noc_demo.Common.{if◌then◌else◌, Option, none, some, List, [], ◌∷◌}
use noc_demo.Common.Texts.{Text, codes, contains}
use noc_demo.Api.Errors.{ErrorTables}
use noc_demo.Api.Handler.{mqtt_publish_message, error_of, put_error}
use noc_demo.Api.Message.{empty, cvt_json_to_msg_request, cvt_msg_request_to_msg_respond}
use noc_demo.Api.Name.{cvt_req_name_to_res_name}
use noc_demo.CJson.Base.{CJson}
use noc_demo.CJson.Object.{read_string}
use noc_demo.ErrorCode.{request_invalid}
use noc_demo.World.{Cmd, pure, stop, ◌>>=◌, ◌>>◌, freed_read}

-- the functions of the table
pub data Handler : Type 0 where
  create_mesh request_mesh update_mesh delete_mesh request_mesh_devices : Handler
  request_pair_mesh_devices request_devices_available_for_pairing update_mesh_devices : Handler
  delete_mesh_devices request_activate_agent_device request_inactivate_agent_device : Handler
  request_mesh_quality request_lan create_lan request_wan create_wan request_dns_dhcp : Handler
  create_dns_dhcp request_dhcp4_leases request_static_routes create_static_route : Handler
  delete_static_route update_static_routes request_dnat_port_forwarding_profiles : Handler
  update_dnat_port_forwarding_profiles create_dnat_port_forwarding_profile : Handler
  delete_dnat_port_forwarding_profile request_dnat_dmz create_dnat_dmz : Handler
  request_nova_services_port_profiles create_nova_services_port_profiles : Handler

abbrev pub message_handler_entry : List (Text × Handler)
message_handler_entry =
    (codes "mesh.created", create_mesh)
    ∷ (codes "mesh.requested", request_mesh)
    ∷ (codes "mesh.updated", update_mesh)
    ∷ (codes "mesh.deleted", delete_mesh)
    ∷ (codes "mesh.devices.requested", request_mesh_devices)
    ∷ (codes "mesh.devices.pair.requested", request_pair_mesh_devices)
    ∷ (codes "mesh.devices.available_for_pairing.requested", request_devices_available_for_pairing)
    ∷ (codes "mesh.devices.updated", update_mesh_devices)
    ∷ (codes "mesh.devices.deleted", delete_mesh_devices)
    ∷ (codes "mesh.device.agent.activate.requested", request_activate_agent_device)
    ∷ (codes "mesh.device.agent.inactivate.requested", request_inactivate_agent_device)
    ∷ (codes "mesh.quality.requested", request_mesh_quality)
    ∷ (codes "network.lan.requested", request_lan)
    ∷ (codes "network.lan.created", create_lan)
    ∷ (codes "network.wan.requested", request_wan)
    ∷ (codes "network.wan.created", create_wan)
    ∷ (codes "network.dns_dhcp.requested", request_dns_dhcp)
    ∷ (codes "network.dns_dhcp.created", create_dns_dhcp)
    ∷ (codes "network.dhcp4.leases.requested", request_dhcp4_leases)
    ∷ (codes "network.static.routes.requested", request_static_routes)
    ∷ (codes "network.static.routes.created", create_static_route)
    ∷ (codes "network.static.routes.deleted", delete_static_route)
    ∷ (codes "network.static.routes.updated", update_static_routes)
    ∷ (
      codes "iptables.dnat.port_forwarding.profiles.requested",
      request_dnat_port_forwarding_profiles,
    )
    ∷ (codes "iptables.dnat.port_forwarding.profiles.updated", update_dnat_port_forwarding_profiles)
    ∷ (codes "iptables.dnat.port_forwarding.profiles.created", create_dnat_port_forwarding_profile)
    ∷ (codes "iptables.dnat.port_forwarding.profiles.deleted", delete_dnat_port_forwarding_profile)
    ∷ (codes "iptables.dnat.dmz.profiles.requested", request_dnat_dmz)
    ∷ (codes "iptables.dnat.dmz.profiles.created", create_dnat_dmz)
    ∷ (codes "iptables.nova-services.port-profiles.requested", request_nova_services_port_profiles)
    ∷ (codes "iptables.nova-services.port-profiles.created", create_nova_services_port_profiles)
    ∷ []

-- the first entry whose text is found in the name
unfoldable pub first_handler : Text → List (Text × Handler) → Option Handler
first_handler name [] = none
first_handler name ((text, handler) ∷ entries) =
    if contains name text then some handler else first_handler name entries

-- The string of the member `name` of the message: cvt_req_name_to_res_name gives it back with `free`,
-- although it is the message's.
pub data NameString : Type 0 where
  held : Text → NameString
  given_back : NameString

unfoldable pub convert_held : NameString → Cmd (Text × NameString)
convert_held (held name) = do
  respond_name ← cvt_req_name_to_res_name name
  pure (respond_name, given_back)
convert_held given_back = stop freed_read

-- cvt_json_to_msg_request copies the string.
unfoldable pub read_held : NameString → Cmd Text
read_held (held name) = pure name
read_held given_back = stop freed_read

module _ ⦃cj : CJson⦄ (pub_topic : Text) (tables : ErrorTables) where
  open cj use {Json, parse}

  -- the answer to a request that no entry takes
  unfoldable pub refuse : Option Json → Text → Cmd (Unit {0})
  refuse msg_json name = do
    (respond_name, string) ← convert_held (held name)
    read_held string
    let request = cvt_json_to_msg_request msg_json empty
    error ← error_of tables request_invalid
    let respond = cvt_msg_request_to_msg_respond request
    mqtt_publish_message pub_topic (put_error respond error) empty

  -- a thread is started with the message, or it is refused
  unfoldable pub start_or_refuse : Option Json → Text → Option Handler → Cmd (Option Handler)
  start_or_refuse msg_json name (some handler) = pure (some handler)
  start_or_refuse msg_json name none = do refuse msg_json name; pure none

  unfoldable pub on_name : Option Json → Option Text → Cmd (Option Handler)
  on_name msg_json none = pure none
  on_name msg_json (some name) =
      start_or_refuse msg_json name (first_handler name message_handler_entry)

  -- the handler of the thread that is started for the text of a message
  unfoldable pub mqtt_on_message_cb_handler : Text → Cmd (Option Handler)
  mqtt_on_message_cb_handler message =
      on_name (parse message) (read_string (parse message) (codes "name"))
