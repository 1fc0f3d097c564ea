-- ===== src/Api/Network.antt =====
-- src/api/network: the handlers of the requests for the networks, the routes and the rules.
pub mod Answers
use noc_demo.Common.{ℕ, Option, none, some, List}
use noc_demo.Common.Int.{ℤ}
use noc_demo.Common.Texts.{Text, codes}
use noc_demo.Api.Errors.{ErrorTables}
use noc_demo.Api.Handler.{
  mqtt_publish_message, begin, error_at, error_of, put_error, put_data, data_member,
  restart_service,
}
use noc_demo.Api.Message.{
  MsgType, empty, network_lan, network_wan, network_dns_dhcp, network_dhcp4_leases,
  network_static_route, iptables_dnat_profile, iptables_dnat_dmz_profile,
  iptable_nova_service_port_profile, Data, lan, wan, dns_dhcp, dhcp4_lease, routes_list,
  iptable_list, iptable, iptable_nova_service_list, MsgRespond,
}
use noc_demo.CJson.Base.{CJson}
use noc_demo.Config.{Config}
use noc_demo.ErrorCode.{ErrorCode, success}
use noc_demo.Network.Dhcp.Apply.{dns_dhcp_set, dns_dhcp_get_from_setting_file}
use noc_demo.Network.Dhcp.Codec.{DnsDhcp}
use noc_demo.Network.Dhcp.Lease.{dhcp_lease_get}
use noc_demo.Network.Iptables.Defs.{Iptable, IptableNovaService}
use noc_demo.Network.Iptables.Forwarding.{
  iptables_dnat_forwarding_request, iptables_dnat_forwarding_create,
  iptables_dnat_forwarding_update, iptables_dnat_forwarding_delete,
}
use noc_demo.Network.Iptables.Reload.{
  iptable_dnat_dmz_request_from_setting_file, iptable_nova_service_request_from_setting_file,
}
use noc_demo.Network.Iptables.Services.{iptable_dnat_dmz_update, iptable_nova_service_set}
use noc_demo.Network.Lan.{Lan, lan_get, lan_set}
use noc_demo.Network.Route.Defs.{Route}
use noc_demo.Network.Route.Ops.{route_request, route_create, route_update, route_delete}
use noc_demo.Network.Wan.{Wan, wan_get, wan_set}
use noc_demo.Utils.Uuid.{LibUuid}
use noc_demo.World.{Cmd, pure, stop, ◌>>=◌, ◌>>◌, null_read}

-- the members of the union
abbrev pub lan_of : Data → Option Lan
lan_of (lan l) = some l
lan_of _ = none

abbrev pub wan_of : Data → Option Wan
wan_of (wan x) = some x
wan_of _ = none

abbrev pub dns_dhcp_of : Data → Option DnsDhcp
dns_dhcp_of (dns_dhcp d) = some d
dns_dhcp_of _ = none

abbrev pub routes_of : Data → Option (List Route)
routes_of (routes_list rs) = some rs
routes_of _ = none

abbrev pub iptables_of : Data → Option (List Iptable)
iptables_of (iptable_list is) = some is
iptables_of _ = none

abbrev pub iptable_of : Data → Option Iptable
iptable_of (iptable i) = some i
iptable_of _ = none

abbrev pub services_of : Data → Option (List IptableNovaService)
services_of (iptable_nova_service_list ss) = some ss
services_of _ = none

module _ ⦃cj : CJson⦄ (pub_topic : Text) (resumed : List Text) (tables : ErrorTables) where
  open cj use {Json}

  module _ {A : Type 0} (member : Data → Option A) (op : A → Cmd ErrorCode) where
    -- `if (member) { err = op(member); … publish }`, and what follows the answer
    unfoldable pub run_and_answer :
        MsgRespond → MsgType → Cmd (Unit {0}) → Option A → Cmd (Unit {0})
    run_and_answer respond type after none = pure tt
    run_and_answer respond type after (some a) = do
      err ← op a
      error ← error_of tables err
      mqtt_publish_message pub_topic (put_error respond error) type
      after

    -- a handler that sets the member of its request and answers with the request's data
    unfoldable pub set_and_answer : MsgType → Cmd (Unit {0}) → Json → Cmd (Unit {0})
    set_and_answer type after msg_json = do
      (request, respond) ← begin resumed msg_json type
      a ← data_member member request.payload
      run_and_answer respond type after a

  module _ {A : Type 0} (put : A → Data) where
    -- the answer with a list or a setting of its own
    unfoldable pub answer_with : MsgRespond → MsgType → ErrorCode × A → Cmd (Unit {0})
    answer_with respond type (err, out) = do
      error ← error_of tables err
      respond' ← put_data (put_error respond error) (put out)
      mqtt_publish_message pub_topic respond' type

    -- a handler that answers what `get` reads; the request is parsed without its data
    unfoldable pub get_and_answer : MsgType → Cmd (ErrorCode × A) → Json → Cmd (Unit {0})
    get_and_answer type get msg_json = do
      (request, respond) ← begin resumed msg_json empty
      result ← get
      answer_with respond type result

    unfoldable pub change_if_there :
        (A → Cmd (ErrorCode × A)) → MsgRespond → MsgType → Option A → Cmd (Unit {0})
    change_if_there op respond type none = pure tt
    change_if_there op respond type (some a) = do result ← op a; answer_with respond type result

    -- a handler that changes a stored list by that of its request and answers with the stored one
    unfoldable pub change_and_answer :
        (Data → Option A) → MsgType → (A → Cmd (ErrorCode × A)) → Json → Cmd (Unit {0})
    change_and_answer member type op msg_json = do
      (request, respond) ← begin resumed msg_json type
      a ← data_member member request.payload
      change_if_there op respond type a

  abbrev with_success : {A : Type 0} → Cmd A → Cmd (ErrorCode × A)
  with_success m = do a ← m; pure (success, a)

  module _ (config : Config) where
    unfoldable pub create_lan : Json → Cmd (Unit {0})
    create_lan =
        set_and_answer lan_of (lan_set config) network_lan (restart_service (codes "network"))

    unfoldable pub request_lan : Json → Cmd (Unit {0})
    request_lan msg_json = do
      (request, respond) ← begin resumed msg_json empty
      (err, l) ← lan_get config
      respond' ← put_data respond (lan l)
      error ← error_of tables err
      mqtt_publish_message pub_topic (put_error respond' error) network_lan

    unfoldable pub create_wan : Json → Cmd (Unit {0})
    create_wan =
        set_and_answer wan_of (wan_set config) network_wan (restart_service (codes "network"))

    unfoldable pub request_wan : Json → Cmd (Unit {0})
    request_wan = get_and_answer wan network_wan (wan_get config)

    unfoldable pub request_static_routes : Json → Cmd (Unit {0})
    request_static_routes = get_and_answer routes_list network_static_route (route_request config)

    unfoldable pub create_static_route : ⦃lib : LibUuid⦄ → Json → Cmd (Unit {0})
    create_static_route =
        change_and_answer routes_list routes_of network_static_route (route_create config)

    unfoldable pub update_static_routes : Json → Cmd (Unit {0})
    update_static_routes =
        change_and_answer routes_list routes_of network_static_route (route_update config)

    unfoldable pub delete_static_route : Json → Cmd (Unit {0})
    delete_static_route =
        change_and_answer routes_list routes_of network_static_route (route_delete config)

    unfoldable pub request_dnat_port_forwarding_profiles : Json → Cmd (Unit {0})
    request_dnat_port_forwarding_profiles =
        get_and_answer iptable_list iptables_dnat_profile
          (with_success (iptables_dnat_forwarding_request config))

    unfoldable pub create_dnat_port_forwarding_profile : ⦃lib : LibUuid⦄ → Json → Cmd (Unit {0})
    create_dnat_port_forwarding_profile =
        change_and_answer iptable_list iptables_of iptables_dnat_profile
          (iptables_dnat_forwarding_create config)

    unfoldable pub update_dnat_port_forwarding_profiles : Json → Cmd (Unit {0})
    update_dnat_port_forwarding_profiles =
        change_and_answer iptable_list iptables_of iptables_dnat_profile
          (iptables_dnat_forwarding_update config)

    unfoldable pub delete_dnat_port_forwarding_profile : Json → Cmd (Unit {0})
    delete_dnat_port_forwarding_profile =
        change_and_answer iptable_list iptables_of iptables_dnat_profile
          (iptables_dnat_forwarding_delete config)

    unfoldable pub request_dnat_dmz : Json → Cmd (Unit {0})
    request_dnat_dmz =
        get_and_answer iptable iptables_dnat_dmz_profile
          (with_success (iptable_dnat_dmz_request_from_setting_file config))

    unfoldable pub create_dnat_dmz : Json → Cmd (Unit {0})
    create_dnat_dmz =
        set_and_answer iptable_of (iptable_dnat_dmz_update config) iptables_dnat_dmz_profile
          (pure tt)

    unfoldable pub request_nova_services_port_profiles : Json → Cmd (Unit {0})
    request_nova_services_port_profiles =
        get_and_answer iptable_nova_service_list iptable_nova_service_port_profile
          (with_success (iptable_nova_service_request_from_setting_file config))

    unfoldable pub create_nova_services_port_profiles : Json → Cmd (Unit {0})
    create_nova_services_port_profiles =
        set_and_answer services_of (iptable_nova_service_set config)
          iptable_nova_service_port_profile (pure tt)

    unfoldable pub request_dns_dhcp : Json → Cmd (Unit {0})
    request_dns_dhcp =
        get_and_answer dns_dhcp network_dns_dhcp
          (with_success (dns_dhcp_get_from_setting_file config))

    -- a request without the setting is handed on as NULL, which dns_dhcp_set reads through
    module _ (atoi : Text → ℤ) (decimal : ℤ → Text) (unreturned : ℤ) (fuel : ℕ) where
      set_dns_dhcp : Option DnsDhcp → Cmd (ℤ × DnsDhcp)
      set_dns_dhcp none = stop null_read
      set_dns_dhcp (some d) = dns_dhcp_set atoi decimal resumed config unreturned fuel d

      -- The answer has the setting of the request as dns_dhcp_set leaves it.
      unfoldable pub create_dns_dhcp : Json → Cmd (Unit {0})
      unfolding set_dns_dhcp
      create_dns_dhcp msg_json = do
        (request, respond) ← begin resumed msg_json network_dns_dhcp
        setting ← data_member dns_dhcp_of request.payload
        (err, left) ← set_dns_dhcp setting
        error ← error_at tables err
        respond' ← put_data (put_error respond error) (dns_dhcp left)
        mqtt_publish_message pub_topic respond' network_dns_dhcp
        restart_service (codes "dnsmasq")

    unfoldable pub request_dhcp4_leases : (Text → ℤ) → Json → Cmd (Unit {0})
    request_dhcp4_leases atoi =
        get_and_answer dhcp4_lease network_dhcp4_leases (dhcp_lease_get atoi)
