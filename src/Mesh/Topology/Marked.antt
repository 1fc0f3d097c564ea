-- ===== src/Mesh/Topology/Marked.antt =====
-- What a deletion or a pairing of one device leaves in the list of devices.
use noc_demo.Common.{◌≡◌, ◌||◌, true, false, Bool, some, List, [], ◌∷◌, ◌++◌, All, arith}
use noc_demo.Common.Texts.{strstr_found}
use noc_demo.CJson.Base.{CJson}
use noc_demo.Config.{Config}
use noc_demo.Mesh.Device.{DeviceInfo, StatusFits, device_deleted}
use noc_demo.Mesh.Topology.{
  mark_one, mark_all, first_by_mac, delete_device_list_from_file, get_device_from_file_by_mac,
}
use noc_demo.Mesh.Topology.Listed.{
  HasDevices, devices_found, listed, write_devices_lem, HasDevices-listed,
}
use noc_demo.World.{World, done}

-- Does the device name one of the list by its hardware address?
abbrev pub names : DeviceInfo → List DeviceInfo → Bool
names x [] = false
names x (d ∷ ds) = strstr_found x.mac d.mac || names x ds

abbrev deleted : DeviceInfo → DeviceInfo
deleted d = record d { status = device_deleted }

mark_one_lem :
    (x d : DeviceInfo) (before after : List DeviceInfo)
    → names x before ≡ false
    → strstr_found x.mac d.mac ≡ true
    → mark_one x (before ++ d ∷ after) ≡ (true, before ++ deleted d ∷ after)
unfolding mark_one
mark_one_lem x d [] after miss hit = ground arith
mark_one_lem x d (b ∷ before) after miss hit = ground (arith, mark_one_lem x d before after)

first_lem :
    (x d : DeviceInfo) (before after : List DeviceInfo)
    → names x before ≡ false
    → strstr_found x.mac d.mac ≡ true
    → first_by_mac x.mac (before ++ d ∷ after) ≡ some d
unfolding first_by_mac
first_lem x d [] after miss hit = ground arith
first_lem x d (b ∷ before) after miss hit = ground (arith, first_lem x d before after)

fits_marked :
    (d : DeviceInfo) (before after : List DeviceInfo)
    → All StatusFits (before ++ d ∷ after)
    → All StatusFits (before ++ deleted d ∷ after)
fits_marked d [] after (fit, fits) = (omega arith, fits)
fits_marked d (b ∷ before) after (fit, fits) = (fit, fits_marked d before after fits)

module _ ⦃cj : CJson⦄ (config : Config) where
  -- If the file holds the devices and can be written, deleting one device whose hardware address
  -- contains that of the stored device `d` and of none before it answers true, keeps every device in
  -- its place and changes the status of `d` alone, to deleted; a later look-up by that address finds
  -- `d` with this status.
  pub delete_marks_one :
      (x d : DeviceInfo) (before after : List DeviceInfo) (w : World)
      → HasDevices config (before ++ d ∷ after) w
      → w.writable config.mesh_devices_file ≡ true
      → names x before ≡ false
      → strstr_found x.mac d.mac ≡ true
      → let w' = listed config (before ++ record d { status = device_deleted } ∷ after) w in
        (delete_device_list_from_file config (x ∷ []) w ≡ done true w')
        × (get_device_from_file_by_mac config x.mac w'
            ≡ done (some (record d { status = device_deleted })) w')
  unfolding delete_device_list_from_file get_device_from_file_by_mac mark_all
  delete_marks_one x d before after w h ok miss hit =
      let ds = before ++ deleted d ∷ after in
      (
        rw (
          devices_found config (before ++ d ∷ after) w h,
          mark_one_lem x d before after miss hit,
          write_devices_lem config ds w h.0.free ok,
        ),
        rw (
          devices_found config ds (listed config ds w)
              (HasDevices-listed config ds w h.0.free (fits_marked d before after h.1)),
          first_lem x (deleted d) before after miss hit,
        ),
      )
