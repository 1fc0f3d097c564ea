-- ===== src/Mesh/Topology/Listed.antt =====
-- What an answer of the daemon of the mesh and a deletion leave in the list of devices.
use noc_demo.Common.{
  ◌≤◌, ◌≡◌, refl, ap, ◌⊎◌, inl, inr, true, false, Bool-cases, List, [], ◌∷◌, map, length,
  length-map, All, arith,
}
use noc_demo.Common.Int.{ℤ, int_eq}
use noc_demo.CJson.Base.{CJson}
use noc_demo.Config.{Config}
use noc_demo.Mesh.Device.{
  DeviceInfo, StatusFits, device_on, device_off, cvt_device_list_to_json, device_list_round_trip,
}
use noc_demo.Mesh.Topology.{
  is_controller, with_status, emt_all, reported, turn_off, emt_update,
  request_device_list_from_file, request_device_list_from_file_by_status, write_devices,
  update_device_list_to_file_from_emt_device,
}
use noc_demo.Mesh.Topology.Kept.{fits-emt_update, length-emt_all}
use noc_demo.Settings.{HasSetting, saved, load_found, HasSetting-saved}
use noc_demo.Utils.File.Lock.{write_data_truncates}
use noc_demo.World.{World, done}

-- The device is a controller, or the answer holds it, or it is off.
abbrev pub Settled : List DeviceInfo → DeviceInfo → Type 0
Settled es d = (is_controller d ≡ true) ⊎ (reported es d ≡ true) ⊎ (d.status ≡ device_off)

-- The device is a controller, or the answer holds it.
abbrev pub Present : List DeviceInfo → DeviceInfo → Type 0
Present es d = (is_controller d ≡ true) ⊎ (reported es d ≡ true)

Settled-turn_off : (es : List DeviceInfo) (d : DeviceInfo) → Settled es (turn_off es d)
Settled-turn_off es d = elim (Bool-cases (is_controller d)) [
  | inl yes_controller ↦ rw yes_controller (inl yes_controller)
  | inr agent ↦ elim (Bool-cases (reported es d)) [
    | inl here ↦ rw (agent, here) (inr (inl here))
    | inr absent ↦ rw (agent, absent) (inr (inr refl))
  ]
]

Settled-All : (es ds : List DeviceInfo) → All (Settled es) (map (turn_off es) ds)
Settled-All es [] = tt
Settled-All es (d ∷ ds) = (Settled-turn_off es d, Settled-All es ds)

off_on : (s : ℤ) → s ≡ device_off → int_eq s device_on ≡ true → ⊥
off_on s off on = cc (ap (λ t. int_eq t device_on) off)

Present-on :
    (es ds : List DeviceInfo) → All (Settled es) ds → All (Present es) (with_status device_on ds)
unfolding with_status
Present-on es [] h = tt
Present-on es (d ∷ ds) (settled, h) = elim (Bool-cases (int_eq d.status device_on)) [
  | inr skipped ↦ rw skipped (Present-on es ds h)
  | inl on ↦ rw on (present settled on, Present-on es ds h)
]
  where
    present : Settled es d → int_eq d.status device_on ≡ true → Present es d
    present (inl c) on = inl c
    present (inr (inl r)) on = inr r
    present (inr (inr off)) on = absurd (off_on d.status off on)

module _ ⦃cj : CJson⦄ (config : Config) where
  -- The file holds the devices, whose statuses are machine integers, and the lock is free.
  abbrev pub HasDevices : List DeviceInfo → World → Type 0
  HasDevices ds w =
      HasSetting config.mesh_devices_file (cvt_device_list_to_json ds) w × All StatusFits ds

  pub devices_found :
      (ds : List DeviceInfo) (w : World)
      → HasDevices ds w
      → request_device_list_from_file config w ≡ done ds w
  unfolding request_device_list_from_file
  devices_found ds w (h, fits) = rw (load_found h, device_list_round_trip ds fits)

  -- the world after the list was written
  abbrev pub listed : List DeviceInfo → World → World
  listed ds w = saved config.mesh_devices_file (cvt_device_list_to_json ds) w

  pub write_devices_lem :
      (ds : List DeviceInfo) (w : World)
      → w.locked ≡ false
      → w.writable config.mesh_devices_file ≡ true
      → write_devices config ds w ≡ done tt (listed ds w)
  unfolding write_devices
  write_devices_lem ds w free ok = rw (
      write_data_truncates (cj.print (cvt_device_list_to_json ds)) config.mesh_devices_file w free
        ok)

  pub HasDevices-listed :
      (ds : List DeviceInfo) (w : World)
      → w.locked ≡ false
      → All StatusFits ds
      → HasDevices ds (listed ds w)
  HasDevices-listed ds w free fits = (HasSetting-saved config.mesh_devices_file _ w free, fits)

  -- If the file holds the devices and can be written, an update by an answer of the daemon returns
  -- and leaves a list in which every device is a controller, is in the answer or is off, a device
  -- that was deleted before included; the list is not shorter than the old one, and a later request
  -- for the devices that are on returns only controllers and devices of the answer.
  pub emt_update_settles :
      (es old : List DeviceInfo) (w : World)
      → HasDevices old w
      → w.writable config.mesh_devices_file ≡ true
      → (ds on : List DeviceInfo) × (w' : World) × (update_device_list_to_file_from_emt_device
            config es w
          ≡ done tt w')
        × HasDevices ds w'
        × All (Settled es) ds
        × (length old ≤ length ds)
        × (request_device_list_from_file_by_status config device_on w' ≡ done on w')
        × All (Present es) on
  unfolding update_device_list_to_file_from_emt_device request_device_list_from_file_by_status
      emt_update
  emt_update_settles es old w h ok =
      let ds = emt_update es old in
      let w' = listed ds w in
      let settled = Settled-All es (emt_all es old) in
      let has = HasDevices-listed ds w h.0.free (fits-emt_update es old h.1) in
      (
        ds,
        with_status device_on ds,
        w',
        rw (devices_found old w h, write_devices_lem ds w h.0.free ok),
        has,
        settled,
        omega (arith, length-emt_all es old, length-map (turn_off es) (emt_all es old)),
        rw (devices_found ds w' has),
        Present-on es ds settled,
      )
