-- ===== src/Mesh/Topology.antt =====
-- The list of devices that src/core/mesh/topology/topology.c keeps in a file: its reads, and its
-- changes by a pairing, by a request and by an answer of the daemon of the mesh. What write_data
-- answers is not looked at.
pub mod Kept
pub mod Listed
pub mod Marked
use noc_demo.Common.{
  ◌||◌, not, if◌then◌else◌, Bool, true, false, Option, none, some, List, [], ◌∷◌, ◌++◌, map,
}
use noc_demo.Common.Int.{ℤ, int_eq}
use noc_demo.Common.Texts.{codes, Text, strstr_found}
use noc_demo.CJson.Base.{CJson}
use noc_demo.Config.{Config}
use noc_demo.Mesh.Device.{
  DeviceInfo, device_off, device_on, device_deleted, cvt_device_list_to_json,
  cvt_json_to_device_list,
}
use noc_demo.Settings.{load_json_from_file}
use noc_demo.Utils.File.{write_data, truncate}
use noc_demo.World.{Cmd, pure, ◌>>=◌, ◌>>◌}

-- `app_strstr(device.role, "controller")`
abbrev pub is_controller : DeviceInfo → Bool
is_controller d = strstr_found d.role (some (codes "controller"))

unfoldable pub with_status : ℤ → List DeviceInfo → List DeviceInfo
with_status status [] = []
with_status status (d ∷ ds) =
    let rest = with_status status ds in if int_eq d.status status then d ∷ rest else rest

-- one device of set_device_list_to_file: it takes the place of the first that it matches, or the end
unfoldable pub set_one : DeviceInfo → List DeviceInfo → List DeviceInfo
set_one s [] = s ∷ []
set_one s (d ∷ ds) =
    let rest = set_one s ds in
    if strstr_found s.mac d.mac || strstr_found s.ezm_id d.ezm_id then s ∷ ds else d ∷ rest

unfoldable pub set_all : List DeviceInfo → List DeviceInfo → List DeviceInfo
set_all [] current = current
set_all (s ∷ ss) current = set_all ss (set_one s current)

-- one device of delete_device_list_from_file: the first match is marked
unfoldable pub mark_one : DeviceInfo → List DeviceInfo → Bool × List DeviceInfo
mark_one x [] = (false, [])
mark_one x (d ∷ ds) =
    let (found, rest) = mark_one x ds in
    if strstr_found x.mac d.mac
    then (true, record d { status = device_deleted } ∷ ds)
    else (found, d ∷ rest)

unfoldable pub mark_all : List DeviceInfo → List DeviceInfo → Bool × List DeviceInfo
mark_all [] current = (false, current)
mark_all (x ∷ xs) current =
    let (now, current') = mark_one x current in
    let (later, result) = mark_all xs current' in (now || later, result)

-- one device of update_device_list_to_file_from_web: the first match gets its name
unfoldable pub name_one : DeviceInfo → List DeviceInfo → Bool × List DeviceInfo
name_one s [] = (false, [])
name_one s (d ∷ ds) =
    let (found, rest) = name_one s ds in
    if strstr_found s.mac d.mac
    then (true, record d { ezm_name = s.ezm_name } ∷ ds)
    else (found, d ∷ rest)

unfoldable pub name_all : List DeviceInfo → List DeviceInfo → Bool × List DeviceInfo
name_all [] current = (false, current)
name_all (s ∷ ss) current =
    let (now, current') = name_one s current in
    let (later, result) = name_all ss current' in (now || later, result)

-- the fields that an agent takes from the daemon's answer; a deleted one stays deleted
abbrev pub update_agent : DeviceInfo → DeviceInfo → DeviceInfo
update_agent e d = record d {
  role = e.role;
  mac = e.mac;
  ip = e.ip;
  parent_mac = e.parent_mac;
  channel_selection_5g = e.channel_selection_5g;
  channel_selection_2g = e.channel_selection_2g;
  status = if int_eq d.status device_deleted then d.status else device_on;
}

-- the loop over the current devices for an agent of the answer, which has no `break`
unfoldable pub agent_pass : DeviceInfo → List DeviceInfo → Bool × List DeviceInfo
agent_pass e [] = (false, [])
agent_pass e (d ∷ ds) =
    let (found, rest) = agent_pass e ds in
    if strstr_found e.mac d.mac then (true, update_agent e d ∷ rest) else (found, d ∷ rest)

abbrev pub update_controller : DeviceInfo → DeviceInfo → DeviceInfo
update_controller e d =
    if is_controller d
    then record d {
      mac = e.mac;
      ip = e.ip;
      parent_mac = e.parent_mac;
      channel_selection_5g = e.channel_selection_5g;
      channel_selection_2g = e.channel_selection_2g;
      status = device_on;
    }
    else d

-- An agent that is not found is added.
unfoldable pub add_agent : DeviceInfo → Bool × List DeviceInfo → List DeviceInfo
add_agent e (true, ds) = ds
add_agent e (false, ds) = ds ++ record e { status = device_on } ∷ []

unfoldable pub emt_one : DeviceInfo → List DeviceInfo → List DeviceInfo
unfolding add_agent
emt_one e current =
    if not (is_controller e)
    then add_agent e (agent_pass e current)
    else map (update_controller e) current

unfoldable pub emt_all : List DeviceInfo → List DeviceInfo → List DeviceInfo
emt_all [] current = current
emt_all (e ∷ es) current = emt_all es (emt_one e current)

-- Does the answer hold this device?
unfoldable pub reported : List DeviceInfo → DeviceInfo → Bool
reported [] d = false
reported (e ∷ es) d = strstr_found d.mac e.mac || reported es d

abbrev pub turn_off : List DeviceInfo → DeviceInfo → DeviceInfo
turn_off es d =
    if not (is_controller d)
    then (if not (reported es d) then record d { status = device_off } else d)
    else d

unfoldable pub emt_update : List DeviceInfo → List DeviceInfo → List DeviceInfo
emt_update es current = map (turn_off es) (emt_all es current)

unfoldable pub first_by_mac : Option Text → List DeviceInfo → Option DeviceInfo
first_by_mac mac [] = none
first_by_mac mac (d ∷ ds) =
    let rest = first_by_mac mac ds in if strstr_found mac d.mac then some d else rest

module _ ⦃cj : CJson⦄ (config : Config) where
  open cj use {print}

  unfoldable pub request_device_list_from_file : Cmd (List DeviceInfo)
  request_device_list_from_file = do
    json ← load_json_from_file config.mesh_devices_file
    pure (cvt_json_to_device_list json)

  unfoldable pub request_device_list_from_file_by_status : ℤ → Cmd (List DeviceInfo)
  request_device_list_from_file_by_status status = do
    devices ← request_device_list_from_file
    pure (with_status status devices)

  unfoldable pub write_devices : List DeviceInfo → Cmd (Unit {0})
  write_devices devices = do
    write_data (print (cvt_device_list_to_json devices)) truncate config.mesh_devices_file
    pure tt

  unfoldable pub set_device_list_to_file : List DeviceInfo → Cmd (Unit {0})
  set_device_list_to_file devices = do
    current ← request_device_list_from_file
    write_devices (set_all devices current)

  unfoldable pub delete_device_list_from_file : List DeviceInfo → Cmd Bool
  delete_device_list_from_file devices = do
    current ← request_device_list_from_file
    let (found, result) = mark_all devices current
    write_devices result
    pure found

  unfoldable pub update_device_list_to_file_from_emt_device : List DeviceInfo → Cmd (Unit {0})
  update_device_list_to_file_from_emt_device devices = do
    current ← request_device_list_from_file
    write_devices (emt_update devices current)

  unfoldable pub update_device_list_to_file_from_web : List DeviceInfo → Cmd Bool
  update_device_list_to_file_from_web devices = do
    current ← request_device_list_from_file
    let (found, result) = name_all devices current
    write_devices result
    pure found

  unfoldable pub get_device_from_file_by_mac : Option Text → Cmd (Option DeviceInfo)
  get_device_from_file_by_mac mac = do
    current ← request_device_list_from_file
    pure (first_by_mac mac current)
