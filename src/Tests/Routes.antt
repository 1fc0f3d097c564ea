-- ===== src/Tests/Routes.antt =====
-- The properties of the static routes and of their JSON at concrete inputs.
use noc_demo.Common.{
  ◌-◌, ◌≡◌, refl, true, false, if◌then◌else◌, none, some, List, [], ◌∷◌, ◌++◌, length, arith,
}
use noc_demo.Common.Texts.{Text, codes, strstr_found, contains}
use noc_demo.CJson.Tree.{tree_cjson}
use noc_demo.ErrorCode.{success, id_mismatched, internal_server}
use noc_demo.Network.Route.Defs.{Route}
use noc_demo.Network.Route.Codec.{cvt_route_list_to_json}
use noc_demo.Network.Route.Create.{
  AddFits, HasRoutes, with_ids, created, route_create_stores, route_create_refused,
}
use noc_demo.Network.Route.Delete.{DelFits, has_match, requested, answer, route_delete_counts}
use noc_demo.Network.Route.Delete.Single.{route_delete_single}
use noc_demo.Network.Route.Ops.{
  add_command, del_command, route_create, route_request, route_update, route_delete,
}
use noc_demo.Network.Route.Update.{
  replaced_all, update_commands, route_update_stores, route_update_mismatch,
}
use noc_demo.Settings.{saved, HasSetting-saved}
use noc_demo.Tests.Base.{numbered, config, empty_world, full_disk}
use noc_demo.World.{World, done, ran}

abbrev route : Text → Text → Route
route id target = record {
  id = some id;
  interface = some (codes "eth0");
  ip_mask = some (codes "10.0.0.0/8");
  target_ip = some target;
  name = none;
}

abbrev one : Route
one = route (codes "r1") (codes "10.0.0.1")

abbrev two : Route
two = route (codes "r2") (codes "10.0.0.2")

abbrev two' : Route
two' = route (codes "r2") (codes "10.0.0.9")

abbrev other : Route
other = route (codes "x") (codes "10.0.0.7")

abbrev stored : List Route
stored = one ∷ two ∷ []

abbrev with_stored : World → World
with_stored w = saved config.route_setting_file (cvt_route_list_to_json stored) w

abbrev world : World
world = with_stored empty_world

has_stored : HasRoutes config stored world
has_stored = HasSetting-saved config.route_setting_file _ empty_world refl

has_full : HasRoutes config stored (with_stored full_disk)
has_full = HasSetting-saved config.route_setting_file _ full_disk refl

add_fits : (AddFits one) × (AddFits two) × (AddFits two') × (AddFits other)
unfolding add_command
add_fits = (omega arith, omega arith, omega arith, omega arith)

del_fits : (DelFits one) × (DelFits two) × (DelFits two') × (DelFits other)
unfolding del_command
del_fits = (omega arith, omega arith, omega arith, omega arith)

-- The identifier r2 names the second stored route only.
two_named : strstr_found two'.id two.id ≡ true
unfolding contains
two_named = refl

one_not_named : has_match two' (one ∷ []) ≡ false
unfolding contains
one_not_named = refl

two_requested : requested (two' ∷ []) stored ≡ true
unfolding contains
two_requested = refl

other_not_requested : requested (other ∷ []) stored ≡ false
unfolding contains
other_not_requested = refl

route_create_stores_example :
    let all = stored ++ with_ids 0 (other ∷ []) in
    let w' =
      saved config.route_setting_file (cvt_route_list_to_json all) (created (other ∷ []) world) in
    (route_create config (other ∷ []) world ≡ done (success, all) w')
    × (route_request config w' ≡ done (success, all) w')
route_create_stores_example =
    route_create_stores config stored (other ∷ []) world has_stored refl (omega arith)
      (add_fits.3, tt)

route_create_refused_example :
    route_create config (other ∷ []) (with_stored full_disk)
    ≡ done
        (internal_server, stored ++ with_ids 0 (other ∷ []))
        (record (created (other ∷ []) (with_stored full_disk)) { locked = true })
route_create_refused_example =
    route_create_refused config stored (other ∷ []) (with_stored full_disk) has_full refl
      (omega arith) (add_fits.3, tt)

route_delete_counts_example :
    (rest : List Route) × (w' : World) × (route_delete config stored world
      ≡ done (answer (requested stored stored), rest) w')
    × HasRoutes config rest w'
    × (length rest ≡ (if requested stored stored then length stored - 1 else length stored))
route_delete_counts_example =
    route_delete_counts config stored stored world has_stored refl (del_fits.0, (del_fits.1, tt))

route_delete_single_example :
    route_delete config (two' ∷ []) world
    ≡ done
        (success, one ∷ [])
        (saved config.route_setting_file
          (cvt_route_list_to_json (one ∷ []))
          (ran (del_command two' ∷ []) world))
route_delete_single_example =
    route_delete_single config two' two (one ∷ []) [] world has_stored refl del_fits.2 one_not_named
      two_named

route_update_stores_example :
    route_update config (two' ∷ []) world
    ≡ done
        (success, replaced_all (two' ∷ []) stored)
        (saved config.route_setting_file
          (cvt_route_list_to_json (replaced_all (two' ∷ []) stored))
          (ran (update_commands (two' ∷ []) stored) world))
route_update_stores_example =
    route_update_stores config (two' ∷ []) stored world has_stored refl
      ((del_fits.2, add_fits.2), tt) (del_fits.0, (del_fits.1, tt)) two_requested

route_update_mismatch_example :
    route_update config (other ∷ []) world ≡ done (id_mismatched, stored) world
route_update_mismatch_example =
    route_update_mismatch config (other ∷ []) stored world has_stored other_not_requested
