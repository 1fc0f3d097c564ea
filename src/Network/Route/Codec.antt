-- ===== src/Network/Route/Codec.antt =====
-- cvt_route_to_json, cvt_json_to_route and the conversions of lists.
use noc_demo.Common.{◌≡◌, refl, Option, some, List, [], ◌∷◌, map}
use noc_demo.Common.Texts.{codes}
use noc_demo.CJson.Base.{CJson}
use noc_demo.CJson.Object.{Members, object_of, string_item, read_string, read_string-member}
use noc_demo.CJson.Array.{array_of, read_array, read_array-map}
use noc_demo.Network.Route.Defs.{Route}

module _ ⦃cj : CJson⦄ where
  open cj use {Json}

  abbrev pub route_members : Route → Members
  route_members route =
      (codes "id", string_item route.id)
      ∷ (codes "interface", string_item route.interface)
      ∷ (codes "ip_mask", string_item route.ip_mask)
      ∷ (codes "target_ip", string_item route.target_ip)
      ∷ (codes "name", string_item route.name)
      ∷ []

  pub cvt_route_to_json : Route → Json
  cvt_route_to_json route = object_of (route_members route)

  pub cvt_json_to_route : Option Json → Route
  cvt_json_to_route json = record {
    id = read_string json (codes "id");
    interface = read_string json (codes "interface");
    ip_mask = read_string json (codes "ip_mask");
    target_ip = read_string json (codes "target_ip");
    name = read_string json (codes "name");
  }

  unfoldable pub cvt_route_list_to_json : List Route → Json
  cvt_route_list_to_json routes = array_of (map cvt_route_to_json routes)

  unfoldable pub cvt_json_to_route_list : Option Json → List Route
  cvt_json_to_route_list json = read_array cvt_json_to_route json

  route_round_trip : (r : Route) → cvt_json_to_route (some (cvt_route_to_json r)) ≡ r
  unfolding cvt_route_to_json cvt_json_to_route
  route_round_trip r =
      let ms = route_members r in
      λ i. record {
        id = read_string-member ms (codes "id") r.id refl i;
        interface = read_string-member ms (codes "interface") r.interface refl i;
        ip_mask = read_string-member ms (codes "ip_mask") r.ip_mask refl i;
        target_ip = read_string-member ms (codes "target_ip") r.target_ip refl i;
        name = read_string-member ms (codes "name") r.name refl i;
      }

  -- A list of routes is read back from its JSON array, NULL fields and the order included.
  pub route_list_round_trip :
      (routes : List Route) → cvt_json_to_route_list (some (cvt_route_list_to_json routes)) ≡ routes
  unfolding cvt_route_list_to_json cvt_json_to_route_list
  route_list_round_trip routes =
      read_array-map cvt_json_to_route cvt_route_to_json routes route_round_trip
