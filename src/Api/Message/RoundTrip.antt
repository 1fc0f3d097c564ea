-- ===== src/Api/Message/RoundTrip.antt =====
-- Which requests and answers are read back as they were written.
use noc_demo.Common.{
  ◌≡◌, refl, ◌∙◌, ap, if◌then◌else◌, Bool, true, false, Option, none, some, List, [], All,
}
use noc_demo.Common.Int.{IsInt}
use noc_demo.Common.Texts.{codes}
use noc_demo.Api.Message.{
  MsgType, empty, mesh_devices, mesh_settings, network_lan, network_wan, network_static_route,
  iptables_dnat_profile, iptables_dnat_dmz_profile, Data, cleared, mesh_setting, device_list, lan,
  wan, routes_list, iptable_list, iptable, Header, MsgRequest, member_to_json, cvt_data_to_json,
  cvt_json_to_data, read_header, message_members, data_if_there, cvt_json_to_msg_request,
  cvt_msg_request_to_json,
}
use noc_demo.CJson.Base.{CJson, object, array}
use noc_demo.CJson.Array.{kind-array_of}
use noc_demo.CJson.Object.{
  object_of, kind-object_of, is_object, is_array, read_string-member, read_int-member,
  get_item-object_of,
}
use noc_demo.Mesh.Device.{StatusFits, cvt_device_list_to_json, device_list_round_trip}
use noc_demo.Mesh.Setting.{cvt_mesh_setting_to_json}
use noc_demo.Mesh.Setting.RoundTrip.{SettingFits, mesh_setting_round_trip}
use noc_demo.Mesh.Device.{DeviceInfo}
use noc_demo.Mesh.Setting.{MeshSetting}
use noc_demo.Network.Iptables.Defs.{Iptable}
use noc_demo.Network.Lan.{Lan}
use noc_demo.Network.Wan.{Wan}
use noc_demo.Network.Route.Defs.{Route}
use noc_demo.Network.Iptables.Codec.{
  iptable_members, cvt_iptable_to_json, cvt_iptable_list_to_json, app_mem_empty,
}
use noc_demo.Network.Iptables.RoundTrip.{iptable_round_trip, iptable_list_round_trip}
use noc_demo.Network.Lan.{cvt_lan_to_json}
use noc_demo.Network.Lan.Stores.{lan_round_trip}
use noc_demo.Network.Route.Codec.{cvt_route_list_to_json, route_list_round_trip}
use noc_demo.Network.Wan.{cvt_wan_to_json}
use noc_demo.Network.Wan.Stores.{wan_round_trip}
use noc_demo.World.{World, done}

-- The data is that of the type, one of these types, and its numbers are machine integers.
pub data Carries : MsgType → Data → Type 0 where
  nothing : Carries empty cleared
  devices : (ds : List DeviceInfo) → All StatusFits ds → Carries mesh_devices (device_list ds)
  setting : (m : MeshSetting) → SettingFits m → Carries mesh_settings (mesh_setting m)
  local_network : (l : Lan) → Carries network_lan (lan l)
  outer_network : (x : Wan) → Carries network_wan (wan x)
  routes : (rs : List Route) → Carries network_static_route (routes_list rs)
  forwarded : (is : List Iptable) → Carries iptables_dnat_profile (iptable_list is)
  dmz : (i : Iptable) → Carries iptables_dnat_dmz_profile (iptable i)

module _ ⦃cj : CJson⦄ where
  open cj use {Json, kind, create_object}

  is_object_lem : (j : Json) → kind j ≡ object → is_object (some j) ≡ true
  unfolding is_object
  is_object_lem j h = rw h

  is_array_lem : (j : Json) → kind j ≡ array → is_array (some j) ≡ true
  unfolding is_array
  is_array_lem j h = rw h

  -- The member of a type, written as JSON and read back.
  ReadBack : MsgType → Data → Json → Type 0
  ReadBack type d j =
      ((w : World) → member_to_json type d w ≡ done (some j) w)
      × (cvt_json_to_data (some j) type ≡ d)

  kind-iptable : (i : Iptable) → kind (cvt_iptable_to_json i) ≡ object
  unfolding cvt_iptable_to_json
  kind-iptable i = either (app_mem_empty i)
    where
      either :
          (b : Bool) → kind (if b then object_of [] else object_of (iptable_members i)) ≡ object
      either true = kind-object_of []
      either false = kind-object_of (iptable_members i)

  data-ReadBack : (type : MsgType) (d : Data) → Carries type d → (j : Json) × ReadBack type d j
  unfolding ReadBack member_to_json cvt_json_to_data cvt_lan_to_json cvt_wan_to_json
      cvt_route_list_to_json cvt_iptable_list_to_json cvt_mesh_setting_to_json
      cvt_device_list_to_json
  data-ReadBack _ _ nothing = (create_object, (λ w. refl, refl))
  data-ReadBack _ _ (devices ds fits) = (
    cvt_device_list_to_json ds,
    (
      λ w. refl,
      rw (is_array_lem (cvt_device_list_to_json ds) (kind-array_of _))
          (ap device_list (device_list_round_trip ds fits)),
    ),
  )
  data-ReadBack _ _ (setting m fits) = (
    cvt_mesh_setting_to_json m,
    (
      λ w. refl,
      rw (is_object_lem (cvt_mesh_setting_to_json m) (kind-object_of _))
          (ap mesh_setting (mesh_setting_round_trip m fits)),
    ),
  )
  data-ReadBack _ _ (local_network l) = (
    cvt_lan_to_json l,
    (
      λ w. refl,
      rw (is_object_lem (cvt_lan_to_json l) (kind-object_of _)) (ap lan (lan_round_trip l)),
    ),
  )
  data-ReadBack _ _ (outer_network x) = (
    cvt_wan_to_json x,
    (
      λ w. refl,
      rw (is_object_lem (cvt_wan_to_json x) (kind-object_of _)) (ap wan (wan_round_trip x)),
    ),
  )
  data-ReadBack _ _ (routes rs) = (
    cvt_route_list_to_json rs,
    (
      λ w. refl,
      rw (is_array_lem (cvt_route_list_to_json rs) (kind-array_of _))
          (ap routes_list (route_list_round_trip rs)),
    ),
  )
  data-ReadBack _ _ (forwarded is) = (
    cvt_iptable_list_to_json is,
    (
      λ w. refl,
      rw (is_array_lem (cvt_iptable_list_to_json is) (kind-array_of _))
          (ap iptable_list (iptable_list_round_trip is)),
    ),
  )
  data-ReadBack _ _ (dmz i) = (
    cvt_iptable_to_json i,
    (
      λ w. refl,
      rw (is_object_lem (cvt_iptable_to_json i) (kind-iptable i))
          (ap iptable (iptable_round_trip i)),
    ),
  )

  header_back :
      (h : Header) (item : Option Json)
      → IsInt h.created_time
      → read_header (some (object_of (message_members h item))) ≡ h
  unfolding read_header
  header_back h item fits =
      let ms = message_members h item in
      λ i. record {
        name = read_string-member ms (codes "name") h.name refl i;
        scope = read_string-member ms (codes "scope") h.scope refl i;
        source = read_string-member ms (codes "source") h.source refl i;
        home_id = read_string-member ms (codes "home_id") h.home_id refl i;
        user_id = read_string-member ms (codes "user_id") h.user_id refl i;
        id = read_string-member ms (codes "id") h.id refl i;
        auth_token = read_string-member ms (codes "auth_token") h.auth_token refl i;
        parent_id = read_string-member ms (codes "parent_id") h.parent_id refl i;
        client_id = read_string-member ms (codes "client_id") h.client_id refl i;
        created_time = read_int-member ms (codes "created_time") h.created_time fits refl i;
      }

  -- A request whose data is that of its type, a list of devices, a setting of the mesh, a network,
  -- routes or rules, or none for a type without data, and whose numbers are machine integers, is
  -- written without a stop, and what is written is read back as the same request.
  pub request_round_trip :
      (type : MsgType) (d : Data) (h : Header) (w : World)
      → Carries type d
      → IsInt h.created_time
      → let r : MsgRequest = record { header = h; payload = some d } in
        (json : Json) × ((cvt_msg_request_to_json r type w ≡ done json w)
          × (cvt_json_to_msg_request (some json) type ≡ r))
  unfolding cvt_msg_request_to_json cvt_data_to_json cvt_json_to_msg_request data_if_there ReadBack
  request_round_trip type d h w carries fits =
      let (item, (written, back)) = data-ReadBack type d carries in
      let ms = message_members h (some item) in
      (
        object_of ms,
        (
          rw (written w) refl,
          λ i. record {
            header = header_back h (some item) fits i;
            payload =
                (ap (data_if_there type) (get_item-object_of ms (codes "data")) ∙ ap some back) i;
          },
        ),
      )

  -- A message without data has none when it is read.
  pub bare_back :
      (type : MsgType) (h : Header)
      → IsInt h.created_time
      → cvt_json_to_msg_request (some (object_of (message_members h none))) type
        ≡ record { header = h; payload = none }
  unfolding cvt_json_to_msg_request data_if_there
  bare_back type h fits = λ i. record {
    header = header_back h none fits i;
    payload =
        ap (data_if_there type) (get_item-object_of (message_members h none) (codes "data")) i;
  }
