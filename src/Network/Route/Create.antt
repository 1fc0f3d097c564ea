-- ===== src/Network/Route/Create.antt =====
-- What route_create leaves in the setting file and in the kernel.
use noc_demo.Common.{
  ℕ, ◌+◌, ◌≤◌, ◌<◌, ◌≡◌, true, false, some, List, [], ◌∷◌, ◌++◌, append_assoc, append-nil, map,
  length, All, arith,
}
use noc_demo.Common.Texts.{codes}
use noc_demo.CJson.Base.{CJson}
use noc_demo.Config.{Config}
use noc_demo.ErrorCode.{success, internal_server}
use noc_demo.Network.Route.Defs.{Route}
use noc_demo.Network.Route.Codec.{cvt_route_list_to_json, route_list_round_trip}
use noc_demo.Network.Route.Ops.{
  add_command, create_all, route_create, route_request, route_request_from_setting_file,
  route_save_to_setting_file,
}
use noc_demo.Settings.{
  HasSetting, load_found, saved, save_json_writes, save_json_refused, HasSetting-saved,
}
use noc_demo.Utils.Shell.{execl_non_timeout}
use noc_demo.Utils.Uuid.{LibUuid, uuid_text, uuid_gen_fits}
use noc_demo.World.{World, done, sprintf}

-- The command fits the buffer `char cmd[200]`.
abbrev pub AddFits : Route → Type 0
AddFits route = length (add_command route) < 200

-- The setting file holds `routes`, and the lock of the files is free.
abbrev pub HasRoutes : ⦃cj : CJson⦄ → Config → List Route → World → Type 0
HasRoutes config routes w = HasSetting config.route_setting_file (cvt_route_list_to_json routes) w

module _ ⦃cj : CJson⦄ (config : Config) where
  pub request_found :
      (routes : List Route) (w : World)
      → HasRoutes config routes w
      → route_request_from_setting_file config w ≡ done routes w
  unfolding route_request_from_setting_file
  request_found routes w h = rw (load_found h, route_list_round_trip routes)

  pub save_routes :
      (routes : List Route) (w : World)
      → w.locked ≡ false
      → w.writable config.route_setting_file ≡ true
      → route_save_to_setting_file config routes w
        ≡ done success (saved config.route_setting_file (cvt_route_list_to_json routes) w)
  unfolding route_save_to_setting_file
  save_routes routes w free ok = save_json_writes config.route_setting_file _ w free ok

module _ ⦃lib : LibUuid⦄ where
  -- the routes with the identifiers that the UUID library makes from its n-th on
  abbrev pub with_ids : ℕ → List Route → List Route
  with_ids n [] = []
  with_ids n (r ∷ rs) = record r { id = some (uuid_text (codes "route") n) } ∷ with_ids (n + 1) rs

  -- the world after the loop of route_create
  abbrev pub created : List Route → World → World
  created routes w = record w {
    uuids = w.uuids + length routes;
    executed = w.executed ++ map add_command routes;
  }

  created-cons :
      (r : Route) (rs : List Route) (w : World)
      → created rs (record w { uuids = w.uuids + 1; executed = w.executed ++ add_command r ∷ [] })
        ≡ created (r ∷ rs) w
  created-cons r rs w =
      ground (arith, append_assoc w.executed (add_command r ∷ []) (map add_command rs))

  pub create_all_lem :
      (uuid_size : ℕ) (routes : List Route) (w : World)
      → 37 ≤ uuid_size
      → All AddFits routes
      → create_all uuid_size routes w ≡ done (with_ids w.uuids routes) (created routes w)
  unfolding create_all sprintf execl_non_timeout
  create_all_lem uuid_size [] w room fits = ground (arith, append-nil w.executed)
  create_all_lem uuid_size (r ∷ rs) w room (fit, fits) = ground (
    arith,
    uuid_gen_fits uuid_size (codes "route") w room,
    created-cons r rs w,
    create_all_lem uuid_size rs
        (record w { uuids = w.uuids + 1; executed = w.executed ++ add_command r ∷ [] }) room fits,
  )

  module _ ⦃cj : CJson⦄ where
    -- If the setting file can be read and written, the identifiers have room and every command fits
    -- its buffer, route_create succeeds: each new route gets an identifier of its own draw, the list
    -- it returns and stores is the old one followed by the new routes in their order, the kernel was
    -- given one `ip route add` for each, and a later route_request returns that list.
    pub route_create_stores :
        (config : Config) (old new : List Route) (w : World)
        → HasRoutes config old w
        → w.writable config.route_setting_file ≡ true
        → 37 ≤ config.uuid_size
        → All AddFits new
        → let all = old ++ with_ids w.uuids new in
          let w' = saved config.route_setting_file (cvt_route_list_to_json all) (created new w) in
          (route_create config new w ≡ done (success, all) w')
          × (route_request config w' ≡ done (success, all) w')
    unfolding route_create route_request
    route_create_stores config old new w h ok room fits = (
      rw (
        request_found config old w h,
        create_all_lem config.uuid_size new w room fits,
        save_routes config (old ++ with_ids w.uuids new) (created new w) h.free ok,
      ),
      rw (
          request_found config (old ++ with_ids w.uuids new) _
            (HasSetting-saved config.route_setting_file _ (created new w) h.free)),
    )

    -- If the setting file can be read but not written, the identifiers have room and every command
    -- fits its buffer, route_create reports an internal error after it has added the routes to the
    -- kernel, and the lock of the files stays taken.
    pub route_create_refused :
        (config : Config) (old new : List Route) (w : World)
        → HasRoutes config old w
        → w.writable config.route_setting_file ≡ false
        → 37 ≤ config.uuid_size
        → All AddFits new
        → route_create config new w
          ≡ done
              (internal_server, old ++ with_ids w.uuids new)
              (record (created new w) { locked = true })
    unfolding route_create route_save_to_setting_file
    route_create_refused config old new w h bad room fits = rw (
      request_found config old w h,
      create_all_lem config.uuid_size new w room fits,
      save_json_refused config.route_setting_file
          (cvt_route_list_to_json (old ++ with_ids w.uuids new)) (created new w) h.free bad,
    )
