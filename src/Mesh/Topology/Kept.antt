-- ===== src/Mesh/Topology/Kept.antt =====
-- An answer of the daemon of the mesh takes no device out of the list, and the statuses stay machine
-- integers.
use noc_demo.Common.{
  ◌≤◌, ◌≡◌, refl, inl, inr, Bool, true, false, Bool-cases, List, [], ◌∷◌, ◌++◌, map, length,
  length-map, length-append, All, arith,
}
use noc_demo.Common.Int.{int_eq}
use noc_demo.Common.Texts.{strstr_found}
use noc_demo.Mesh.Device.{DeviceInfo, StatusFits, device_on, device_deleted}
use noc_demo.Mesh.Topology.{
  is_controller, update_agent, agent_pass, add_agent, update_controller, emt_one, emt_all, reported,
  turn_off, emt_update,
}

fits_update : (e d : DeviceInfo) → StatusFits d → StatusFits (update_agent e d)
fits_update e d fit = elim (Bool-cases (int_eq d.status device_deleted)) [
  | inl deleted ↦ rw deleted fit
  | inr kept ↦ rw kept (omega arith)
]

fits-agent_pass :
    (e : DeviceInfo) (ds : List DeviceInfo) → All StatusFits ds → All StatusFits (agent_pass e ds).1
unfolding agent_pass
fits-agent_pass e [] fits = tt
fits-agent_pass e (d ∷ ds) (fit, fits) = elim (Bool-cases (strstr_found e.mac d.mac)) [
  | inl hit ↦ rw hit (fits_update e d fit, fits-agent_pass e ds fits)
  | inr miss ↦ rw miss (fit, fits-agent_pass e ds fits)
]

fits_controller : (e d : DeviceInfo) → StatusFits d → StatusFits (update_controller e d)
fits_controller e d fit = elim (Bool-cases (is_controller d)) [
  | inl yes_controller ↦ rw yes_controller (omega arith)
  | inr agent ↦ rw agent fit
]

fits_map :
    (f : DeviceInfo → DeviceInfo) (ds : List DeviceInfo)
    → ((d : DeviceInfo) → StatusFits d → StatusFits (f d))
    → All StatusFits ds
    → All StatusFits (map f ds)
fits_map f [] each fits = tt
fits_map f (d ∷ ds) each (fit, fits) = (each d fit, fits_map f ds each fits)

fits_end :
    (ds : List DeviceInfo) (d : DeviceInfo)
    → All StatusFits ds
    → StatusFits d
    → All StatusFits (ds ++ d ∷ [])
fits_end [] d fits fit = (fit, tt)
fits_end (x ∷ ds) d (fit_x, fits) fit = (fit_x, fits_end ds d fits fit)

fits_add :
    (e : DeviceInfo) (found : Bool) (ds : List DeviceInfo)
    → All StatusFits ds
    → All StatusFits (add_agent e (found, ds))
unfolding add_agent
fits_add e true ds fits = fits
fits_add e false ds fits = fits_end ds (record e { status = device_on }) fits (omega arith)

fits-emt_one :
    (e : DeviceInfo) (ds : List DeviceInfo) → All StatusFits ds → All StatusFits (emt_one e ds)
unfolding emt_one
fits-emt_one e ds fits = elim (Bool-cases (is_controller e)) [
  | inl yes_controller ↦
      rw yes_controller (fits_map (update_controller e) ds (fits_controller e) fits)
  | inr agent ↦
      rw agent (fits_add e (agent_pass e ds).0 (agent_pass e ds).1 (fits-agent_pass e ds fits))
]

fits-emt_all : (es ds : List DeviceInfo) → All StatusFits ds → All StatusFits (emt_all es ds)
unfolding emt_all
fits-emt_all [] ds fits = fits
fits-emt_all (e ∷ es) ds fits = fits-emt_all es (emt_one e ds) (fits-emt_one e ds fits)

fits_off : (es : List DeviceInfo) (d : DeviceInfo) → StatusFits d → StatusFits (turn_off es d)
fits_off es d fit = elim (Bool-cases (is_controller d)) [
  | inl yes_controller ↦ rw yes_controller fit
  | inr agent ↦ elim (Bool-cases (reported es d)) [
    | inl here ↦ rw (agent, here) fit
    | inr absent ↦ rw (agent, absent) (omega arith)
  ]
]

pub fits-emt_update :
    (es ds : List DeviceInfo) → All StatusFits ds → All StatusFits (emt_update es ds)
unfolding emt_update
fits-emt_update es ds fits =
    fits_map (turn_off es) (emt_all es ds) (fits_off es) (fits-emt_all es ds fits)

length-agent_pass : (e : DeviceInfo) (ds : List DeviceInfo) → length (agent_pass e ds).1 ≡ length ds
unfolding agent_pass
length-agent_pass e [] = refl
length-agent_pass e (d ∷ ds) = ground (arith, length-agent_pass e ds)

length-add_agent :
    (e : DeviceInfo) (found : Bool) (ds : List DeviceInfo)
    → length ds ≤ length (add_agent e (found, ds))
unfolding add_agent
length-add_agent e true ds = omega arith
length-add_agent e false ds = omega (arith, length-append ds (record e { status = device_on } ∷ []))

length-emt_one : (e : DeviceInfo) (ds : List DeviceInfo) → length ds ≤ length (emt_one e ds)
unfolding emt_one
length-emt_one e ds = elim (Bool-cases (is_controller e)) [
  | inl yes_controller ↦ rw yes_controller (omega (arith, length-map (update_controller e) ds))
  | inr agent ↦ rw agent (
      omega
        (arith, length-agent_pass e ds, length-add_agent e (agent_pass e ds).0 (agent_pass e ds).1))
]

pub length-emt_all : (es ds : List DeviceInfo) → length ds ≤ length (emt_all es ds)
unfolding emt_all
length-emt_all [] ds = omega arith
length-emt_all (e ∷ es) ds = omega (arith, length-emt_one e ds, length-emt_all es (emt_one e ds))
