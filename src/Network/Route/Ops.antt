-- ===== src/Network/Route/Ops.antt =====
-- route_create, route_request, route_update and route_delete of src/core/network/route/route.c.
-- route_request_from_setting_file always returns ERR_SUCCESS, so the callers' test of its result
-- never leaves early and is not written out.
use noc_demo.Common.{
  ℕ, ◌-◌, if◌then◌else◌, ◌||◌, Bool, true, false, some, List, [], ◌∷◌, ◌++◌, length, take,
}
use noc_demo.Common.Texts.{Text, codes, strstr_found}
use noc_demo.CJson.Base.{CJson}
use noc_demo.Config.{Config}
use noc_demo.ErrorCode.{ErrorCode, success, id_mismatched}
use noc_demo.Network.Route.Defs.{Route}
use noc_demo.Network.Route.Codec.{cvt_route_list_to_json, cvt_json_to_route_list}
use noc_demo.Settings.{load_json_from_file, save_json}
use noc_demo.Utils.Shell.{execl_non_timeout, execl_timeout}
use noc_demo.Utils.Uuid.{LibUuid, uuid_gen}
use noc_demo.World.{Cmd, pure, ◌>>=◌, ◌>>◌, sprintf, arg}

-- "ip route add %s via %s dev %s" and "ip route del %s via %s dev %s"
abbrev route_command : Text → Route → Text
route_command verb route =
    codes "ip route "
    ++ verb
    ++ codes " "
    ++ arg route.ip_mask
    ++ codes " via "
    ++ arg route.target_ip
    ++ codes " dev "
    ++ arg route.interface

unfoldable pub add_command : Route → Text
add_command route = route_command (codes "add") route

unfoldable pub del_command : Route → Text
del_command route = route_command (codes "del") route

-- memmove(&list[j], &list[j + 1], (n - j - 1) * sizeof(route_t)) on the part of the buffer from
-- `j` on: what follows moves down, and the last slot keeps its copy.
unfoldable pub shift_down : List Route → List Route
shift_down [] = []
shift_down (r ∷ []) = r ∷ []
shift_down (r ∷ s ∷ rest) = s ∷ shift_down (s ∷ rest)

-- `ip route del` with the fields of the request, and the item taken out of the buffer
unfoldable pub delete_here : Route → Route → List Route → Cmd (Bool × List Route)
delete_here route r rest = do
  cmd ← sprintf 200 (del_command route)
  execl_non_timeout cmd
  pure (true, shift_down (r ∷ rest))

abbrev pub keep_item : Route → Bool × List Route → Cmd (Bool × List Route)
keep_item r (found, rest) = pure (found, r ∷ rest)

-- the inner loop of route_delete, up to its `break`
unfoldable pub delete_one : Route → List Route → Cmd (Bool × List Route)
delete_one route [] = pure (false, [])
delete_one route (r ∷ rest) =
    let later = delete_one route rest >>= keep_item r in
    if strstr_found route.id r.id then delete_here route r rest else later

unfoldable pub delete_all : List Route → Bool → List Route → Cmd (Bool × List Route)
delete_all [] found buffer = pure (found, buffer)
delete_all (route ∷ routes) found buffer = do
  (now, buffer') ← delete_one route buffer
  delete_all routes (found || now) buffer'

-- `ip route del` with the stored fields, `ip route add` with the new ones, and the replacement
unfoldable pub update_here : Route → Route → List Route → Cmd (Bool × List Route)
update_here route r rest = do
  del ← sprintf 200 (del_command r)
  output ← execl_timeout del
  add ← sprintf 200 (add_command route)
  execl_non_timeout add
  pure (true, route ∷ rest)

-- the inner loop of route_update, up to its `break`
unfoldable pub update_one : Route → List Route → Cmd (Bool × List Route)
update_one route [] = pure (false, [])
update_one route (r ∷ rest) =
    let later = update_one route rest >>= keep_item r in
    if strstr_found route.id r.id then update_here route r rest else later

unfoldable pub update_all : List Route → Bool → List Route → Cmd (Bool × List Route)
update_all [] found setting = pure (found, setting)
update_all (route ∷ routes) found setting = do
  (now, setting') ← update_one route setting
  update_all routes (found || now) setting'

module _ ⦃lib : LibUuid⦄ where
  -- the loop of route_create: the routes that it stores behind the old ones
  unfoldable pub create_all : ℕ → List Route → Cmd (List Route)
  create_all uuid_size [] = pure []
  create_all uuid_size (route ∷ routes) = do
    id ← uuid_gen uuid_size (codes "route")
    cmd ← sprintf 200 (add_command route)
    execl_non_timeout cmd
    added ← create_all uuid_size routes
    pure (record route { id = some id } ∷ added)

module _ ⦃cj : CJson⦄ (config : Config) where
  unfoldable pub route_request_from_setting_file : Cmd (List Route)
  route_request_from_setting_file = do
    json ← load_json_from_file config.route_setting_file
    pure (cvt_json_to_route_list json)

  unfoldable pub route_save_to_setting_file : List Route → Cmd ErrorCode
  route_save_to_setting_file routes =
      save_json config.route_setting_file (cvt_route_list_to_json routes)

  unfoldable pub route_request : Cmd (ErrorCode × List Route)
  route_request = do routes ← route_request_from_setting_file; pure (success, routes)

  unfoldable pub route_create : ⦃lib : LibUuid⦄ → List Route → Cmd (ErrorCode × List Route)
  route_create routes = do
    setting ← route_request_from_setting_file
    added ← create_all config.uuid_size routes
    err ← route_save_to_setting_file (setting ++ added)
    pure (err, setting ++ added)

  -- Nothing is saved when no identifier matched.
  unfoldable pub finish_update : Bool → List Route → Cmd (ErrorCode × List Route)
  finish_update false setting = pure (id_mismatched, setting)
  finish_update true setting = do err ← route_save_to_setting_file setting; pure (err, setting)

  unfoldable pub route_update : List Route → Cmd (ErrorCode × List Route)
  route_update routes = do
    setting ← route_request_from_setting_file
    (found, setting') ← update_all routes false setting
    finish_update found setting'

  -- the result of route_delete after the save
  abbrev delete_result : ErrorCode → Bool → ErrorCode
  delete_result success true = success
  delete_result success false = id_mismatched
  delete_result err found = err

  -- `nb_routes` is set to one less than the number that was loaded, at each match.
  unfoldable pub route_delete : List Route → Cmd (ErrorCode × List Route)
  route_delete routes = do
    setting ← route_request_from_setting_file
    (found, buffer) ← delete_all routes false setting
    let remained = take (if found then length setting - 1 else length setting) buffer
    err ← route_save_to_setting_file remained
    pure (delete_result err found, remained)
