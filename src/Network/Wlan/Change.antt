-- ===== src/Network/Wlan/Change.antt =====
-- How long a name or a password change_wifi_iface takes.
use noc_demo.Common.{
  ◌<◌, ◌≤◌, ◌+◌, ltb, ◌&&◌, if◌then◌else◌, none, ◌≡◌, Option, some, List, [], ◌∷◌, ◌++◌, length,
  length-append, append_assoc, arith, refl,
}
use noc_demo.Common.Texts.{Text, codes}
use noc_demo.Network.Wlan.{
  WifiIface, run_command, ssid_command, key_command, change_wifi_iface, change_to, set_required,
  commit_repacd, restart_repacd,
}
use noc_demo.Utils.Shell.{execl_timeout}
use noc_demo.World.{World, Run, done, stopped, overflow, ran, sprintf}

abbrev pub change_commands : Text → Text → List Text
change_commands ssid key =
    ssid_command ssid ∷ key_command key ∷ set_required ∷ commit_repacd ∷ restart_repacd ∷ []

run_command_lem :
    (text : Text) (w : World) → length text < 200 → run_command text w ≡ done tt (ran (text ∷ []) w)
unfolding run_command sprintf execl_timeout
run_command_lem text w fit = ground arith

run_command_long :
    (text : Text) (w : World) → 200 ≤ length text → run_command text w ≡ stopped overflow
unfolding run_command sprintf
run_command_long text w long = ground arith

length-ssid_command : (s : Text) → length (ssid_command s) ≡ length s + 41
unfolding ssid_command
length-ssid_command s =
    let prefix = codes "uci set repacd.MAPConfig.FronthaulSSID='" in
    omega (arith, length-append (prefix ++ s) (codes "'"), length-append prefix s)

length-key_command : (s : Text) → length (key_command s) ≡ length s + 40
unfolding key_command
length-key_command s =
    let prefix = codes "uci set repacd.MAPConfig.FronthaulKey='" in
    omega (arith, length-append (prefix ++ s) (codes "'"), length-append prefix s)

fixed_fit :
    (length set_required < 200) × (length commit_repacd < 200) × (length restart_repacd < 200)
unfolding set_required commit_repacd restart_repacd
fixed_fit = (omega arith, omega arith, omega arith)

change_fits :
    (ssid key : Text) (w : World)
    → length ssid < 159
    → length key < 160
    → change_to (some ssid) (some key) w ≡ done tt (ran (change_commands ssid key) w)
unfolding change_to
change_fits ssid key w ssid_fits key_fits =
    let c1 = ssid_command ssid in
    let c2 = key_command key in
    let w1 = ran (c1 ∷ []) w in
    let w2 = ran (c1 ∷ c2 ∷ []) w in
    let w3 = ran (c1 ∷ c2 ∷ set_required ∷ []) w in
    let w4 = ran (c1 ∷ c2 ∷ set_required ∷ commit_repacd ∷ []) w in
    let e = w.executed in
    rw (
      run_command_lem c1 w (omega (arith, length-ssid_command ssid)),
      run_command_lem c2 w1 (omega (arith, length-key_command key)),
      append_assoc e (c1 ∷ []) (c2 ∷ []),
      run_command_lem set_required w2 fixed_fit.0,
      append_assoc e (c1 ∷ c2 ∷ []) (set_required ∷ []),
      run_command_lem commit_repacd w3 fixed_fit.1,
      append_assoc e (c1 ∷ c2 ∷ set_required ∷ []) (commit_repacd ∷ []),
      run_command_lem restart_repacd w4 fixed_fit.2,
      append_assoc e (c1 ∷ c2 ∷ set_required ∷ commit_repacd ∷ []) (restart_repacd ∷ []),
    )

ssid_long :
    (ssid key : Text) (w : World)
    → 159 ≤ length ssid
    → change_to (some ssid) (some key) w ≡ stopped overflow
unfolding change_to
ssid_long ssid key w long =
    rw (run_command_long (ssid_command ssid) w (omega (arith, length-ssid_command ssid)))

key_long :
    (ssid key : Text) (w : World)
    → length ssid < 159
    → 160 ≤ length key
    → change_to (some ssid) (some key) w ≡ stopped overflow
unfolding change_to
key_long ssid key w ssid_fits long = rw (
  run_command_lem (ssid_command ssid) w (omega (arith, length-ssid_command ssid)),
  run_command_long (key_command key) (ran (ssid_command ssid ∷ []) w)
      (omega (arith, length-key_command key)),
)

-- what change_wifi_iface does with a name and a password
change_result : Text → Text → World → Run (Unit {0})
change_result ssid key w =
    if ltb (length ssid) 159 && ltb (length key) 160
    then done tt (ran (change_commands ssid key) w)
    else stopped overflow

change_given :
    (ssid key : Text) (w : World) → change_to (some ssid) (some key) w ≡ change_result ssid key w
unfolding change_result
change_given ssid key w =
    ground (arith, change_fits ssid key w, ssid_long ssid key w, key_long ssid key w)

change_cases :
    (ssid key : Option Text) (w : World)
    → change_to ssid key w ≡ elim ssid [
      | none ↦ done tt w
      | some s ↦ elim key [ none ↦ done tt w | some k ↦ change_result s k w ]
    ]
unfolding change_to
change_cases none key w = refl
change_cases (some ssid) none w = refl
change_cases (some ssid) (some key) w = change_given ssid key w

-- With a name and a password, change_wifi_iface runs its five commands in order if the name is
-- shorter than 159 bytes and the password shorter than 160, and writes past the end of `cmd`
-- otherwise; without one of the two it does nothing.
pub change_wifi_iface_bounds :
    (iface : WifiIface) (w : World)
    → change_wifi_iface iface w ≡ elim iface.ssid [
      | none ↦ done tt w
      | some ssid ↦ elim iface.key [
        | none ↦ done tt w
        | some key ↦
            if ltb (length ssid) 159 && ltb (length key) 160
            then done tt (ran (change_commands ssid key) w)
            else stopped overflow
      ]
    ]
unfolding change_wifi_iface change_result
change_wifi_iface_bounds iface w = change_cases iface.ssid iface.key w
