-- ===== src/Api/Message.antt =====
-- src/api/message/message_struct.c and message_struct.h: requests, answers and their JSON.
pub mod RoundTrip
use noc_demo.Common.{if◌then◌else◌, Option, none, some, List, [], ◌∷◌, ◌++◌}
use noc_demo.Common.Int.{ℤ}
use noc_demo.Common.Texts.{Text, codes}
use noc_demo.Api.Errors.{Error, cvt_error_to_json, cvt_json_to_error}
use noc_demo.CJson.Base.{CJson}
use noc_demo.CJson.Nested.{read_object}
use noc_demo.CJson.Object.{
  Members, object_of, string_item, number_item, read_string, read_int, get_item, is_object,
  is_array,
}
use noc_demo.Mesh.Device.{DeviceInfo, cvt_device_list_to_json, cvt_json_to_device_list}
use noc_demo.Mesh.Quality.{
  QualityProfile, cvt_quality_profile_list_to_json, cvt_json_to_quality_profile_list,
}
use noc_demo.Mesh.Setting.{MeshSetting, cvt_mesh_setting_to_json, cvt_json_to_mesh_setting}
use noc_demo.Network.Dhcp.Codec.{
  DhcpInfo, DnsDhcp, cvt_dns_dhcp_to_json, cvt_json_to_dns_dhcp, cvt_dhcp4_lease_to_json,
  cvt_json_to_dhcp4_lease,
}
use noc_demo.Network.Iptables.Codec.{
  cvt_iptable_to_json, cvt_json_to_iptable, cvt_iptable_list_to_json, cvt_json_to_iptable_list,
  cvt_iptable_nova_service_list_to_json, cvt_json_to_iptable_nova_service_list,
}
use noc_demo.Network.Iptables.Defs.{Iptable, IptableNovaService}
use noc_demo.Network.Lan.{Lan, cvt_lan_to_json, cvt_json_to_lan}
use noc_demo.Network.Route.Codec.{cvt_route_list_to_json, cvt_json_to_route_list}
use noc_demo.Network.Route.Defs.{Route}
use noc_demo.Network.Wan.{Wan, cvt_wan_to_json, cvt_json_to_wan}
use noc_demo.World.{Cmd, pure, stop, ◌>>=◌, null_read, wrong_member}

-- `msg_type_t`
pub data MsgType : Type 0 where
  empty mesh_devices mesh_settings mesh_quality network_lan network_wan : MsgType
  network_dns_dhcp network_dhcp4_leases network_static_route : MsgType
  iptables_dnat_profile iptables_dnat_dmz_profile iptable_nova_service_port_profile : MsgType

-- `data_t`, a union of pointers: the member that was written, with what it points to. A cleared
-- union is NULL in every member.
pub data Data : Type 0 where
  cleared : Data
  mesh_setting : MeshSetting → Data
  device_list : List DeviceInfo → Data
  quality_profile_list : List QualityProfile → Data
  dns_dhcp : DnsDhcp → Data
  dhcp4_lease : List DhcpInfo → Data
  lan : Lan → Data
  wan : Wan → Data
  routes_list : List Route → Data
  iptable_list : List Iptable → Data
  iptable : Iptable → Data
  iptable_nova_service_list : List IptableNovaService → Data

pub record RespondData : Type 0 where
  pub error : Option Error
  pub payload : Option Data

-- The members that `msg_request_t` and `msg_respond_t` begin with, and their last one.
pub record Header : Type 0 where
  pub name : Option Text
  pub scope : Option Text
  pub source : Option Text
  pub home_id : Option Text
  pub user_id : Option Text
  pub id : Option Text
  pub auth_token : Option Text
  pub parent_id : Option Text
  pub client_id : Option Text
  pub created_time : ℤ

pub record MsgRequest : Type 0 where
  pub header : Header
  pub payload : Option Data

pub record MsgRespond : Type 0 where
  pub header : Header
  pub respond_data : Option RespondData

module _ ⦃cj : CJson⦄ where
  open cj use {Json, create_object}

  -- The conversion of the member that the type names. Only that of the settings of the mesh takes
  -- NULL.
  -- a NULL list of profiles, which is read through
  abbrev pub written_services : Option Json → Cmd (Option Json)
  written_services none = stop null_read
  written_services (some json) = pure (some json)

  unfoldable pub member_to_json : MsgType → Data → Cmd (Option Json)
  member_to_json empty d = pure (some create_object)
  member_to_json mesh_devices (device_list ds) = pure (some (cvt_device_list_to_json ds))
  member_to_json mesh_settings (mesh_setting m) = pure (some (cvt_mesh_setting_to_json m))
  member_to_json mesh_settings cleared = pure none
  member_to_json mesh_quality (quality_profile_list qs) =
      pure (some (cvt_quality_profile_list_to_json qs))
  member_to_json network_lan (lan l) = pure (some (cvt_lan_to_json l))
  member_to_json network_wan (wan x) = pure (some (cvt_wan_to_json x))
  member_to_json network_dns_dhcp (dns_dhcp d) = do json ← cvt_dns_dhcp_to_json d; pure (some json)
  member_to_json network_dhcp4_leases (dhcp4_lease ls) = pure (some (cvt_dhcp4_lease_to_json ls))
  member_to_json network_static_route (routes_list rs) = pure (some (cvt_route_list_to_json rs))
  member_to_json iptables_dnat_profile (iptable_list is) = pure (some (cvt_iptable_list_to_json is))
  member_to_json iptables_dnat_dmz_profile (iptable i) = pure (some (cvt_iptable_to_json i))
  member_to_json iptable_nova_service_port_profile (iptable_nova_service_list ss) =
      written_services (cvt_iptable_nova_service_list_to_json ss)
  member_to_json type cleared = stop null_read
  member_to_json type d = stop wrong_member

  unfoldable pub cvt_data_to_json : Option Data → MsgType → Cmd (Option Json)
  cvt_data_to_json none type = pure none
  cvt_data_to_json (some d) type = member_to_json type d

  -- A member is written if the item is an array, or an object; else the union stays cleared.
  unfoldable pub cvt_json_to_data : Option Json → MsgType → Data
  cvt_json_to_data json empty = cleared
  cvt_json_to_data json mesh_devices =
      if is_array json then device_list (cvt_json_to_device_list json) else cleared
  cvt_json_to_data json mesh_settings =
      if is_object json then mesh_setting (cvt_json_to_mesh_setting json) else cleared
  cvt_json_to_data json mesh_quality =
      if is_object json
      then quality_profile_list (cvt_json_to_quality_profile_list json)
      else cleared
  cvt_json_to_data json network_lan = if is_object json then lan (cvt_json_to_lan json) else cleared
  cvt_json_to_data json network_wan = if is_object json then wan (cvt_json_to_wan json) else cleared
  cvt_json_to_data json network_dns_dhcp =
      if is_object json then dns_dhcp (cvt_json_to_dns_dhcp json) else cleared
  cvt_json_to_data json network_dhcp4_leases =
      if is_object json then dhcp4_lease (cvt_json_to_dhcp4_lease json) else cleared
  cvt_json_to_data json network_static_route =
      if is_array json then routes_list (cvt_json_to_route_list json) else cleared
  cvt_json_to_data json iptables_dnat_profile =
      if is_array json then iptable_list (cvt_json_to_iptable_list json) else cleared
  cvt_json_to_data json iptables_dnat_dmz_profile =
      if is_object json then iptable (cvt_json_to_iptable json) else cleared
  cvt_json_to_data json iptable_nova_service_port_profile =
      if is_array json
      then iptable_nova_service_list (cvt_json_to_iptable_nova_service_list json)
      else cleared

  abbrev pub respond_members : Option Json → Option Error → Members
  respond_members json error = (codes "data", json) ∷ (codes "error", cvt_error_to_json error) ∷ []

  unfoldable pub cvt_respond_data_to_json : Option RespondData → MsgType → Cmd (Option Json)
  cvt_respond_data_to_json none type = pure none
  cvt_respond_data_to_json (some r) type = do
    json ← cvt_data_to_json r.payload type
    pure (some (object_of (respond_members json r.error)))

  unfoldable pub cvt_json_to_respond_data : Option Json → MsgType → RespondData
  cvt_json_to_respond_data json type = record {
    error = read_object cvt_json_to_error json (codes "error");
    payload = read_object (λ item. cvt_json_to_data item type) json (codes "data");
  }

  unfoldable pub read_header : Option Json → Header
  read_header json = record {
    name = read_string json (codes "name");
    scope = read_string json (codes "scope");
    source = read_string json (codes "source");
    home_id = read_string json (codes "home_id");
    user_id = read_string json (codes "user_id");
    id = read_string json (codes "id");
    auth_token = read_string json (codes "auth_token");
    parent_id = read_string json (codes "parent_id");
    client_id = read_string json (codes "client_id");
    created_time = read_int json (codes "created_time");
  }

  -- the members of a message, its data before the time
  abbrev pub message_members : Header → Option Json → Members
  message_members h json =
      (codes "name", string_item h.name)
      ∷ (codes "scope", string_item h.scope)
      ∷ (codes "source", string_item h.source)
      ∷ (codes "home_id", string_item h.home_id)
      ∷ (codes "user_id", string_item h.user_id)
      ∷ (codes "id", string_item h.id)
      ∷ (codes "auth_token", string_item h.auth_token)
      ∷ (codes "parent_id", string_item h.parent_id)
      ∷ (codes "client_id", string_item h.client_id)
      ∷ (codes "data", json)
      ∷ (codes "created_time", number_item h.created_time)
      ∷ []

  -- `if (msg_data_json) msg->data = cvt_json_to_data(msg_data_json, msg_type)`
  unfoldable pub data_if_there : MsgType → Option Json → Option Data
  data_if_there type none = none
  data_if_there type (some json) = some (cvt_json_to_data (some json) type)

  unfoldable pub cvt_json_to_msg_request : Option Json → MsgType → MsgRequest
  cvt_json_to_msg_request json type = record {
    header = read_header json;
    payload = data_if_there type (get_item json (codes "data"));
  }

  unfoldable pub cvt_msg_request_to_json : MsgRequest → MsgType → Cmd Json
  cvt_msg_request_to_json r type = do
    json ← cvt_data_to_json r.payload type
    pure (object_of (message_members r.header json))

  unfoldable pub cvt_json_to_msg_respond : Option Json → MsgType → MsgRespond
  cvt_json_to_msg_respond json type = record {
    header = read_header json;
    respond_data = read_object (λ item. cvt_json_to_respond_data item type) json (codes "data");
  }

  unfoldable pub cvt_msg_respond_to_json : MsgRespond → MsgType → Cmd Json
  cvt_msg_respond_to_json r type = do
    json ← cvt_respond_data_to_json r.respond_data type
    pure (object_of (message_members r.header json))

-- The answer to a request, which shares its strings and its data; the function has no `return`, and
-- the answer is taken as its result.
unfoldable pub cvt_msg_request_to_msg_respond : MsgRequest → MsgRespond
cvt_msg_request_to_msg_respond r = record {
  header = r.header;
  respond_data = some (record { error = none; payload = r.payload });
}
