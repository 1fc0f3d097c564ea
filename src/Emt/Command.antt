-- ===== src/Emt/Command.antt =====
-- create_cmd of src/core/mesh/core/emt_cmd.c. The allocation of the command is taken to succeed.
pub mod Decode
pub mod Total
use noc_demo.Common.{
  ℕ, if◌then◌else◌, leb, ltb, Option, none, some, List, [], ◌∷◌, ◌++◌, length, get_elem?,
}
use noc_demo.Common.Int.{ℤ, pos, negsuc}
use noc_demo.Common.Texts.{Text, codes}
use noc_demo.Emt.Actions.{Section}
use noc_demo.Emt.Tables
use noc_demo.World.{Stop, overflow, out_of_bounds}

-- What create_cmd does: it returns NULL, it returns a command, or its behaviour is undefined.
pub data Built : Type 0 where
  refused : Built
  command : Text → Built
  fault : Stop → Built

-- `section_max` and `CMD_LENGTH`
abbrev pub section_max : ℕ
section_max = 19

abbrev pub cmd_length : ℕ
cmd_length = 200

-- the cases of the `switch`, in the order of the sections
abbrev pub sections : List Section
sections =
    Section.debug ∷ Section.md ∷ Section.ev_loop ∷ Section.ieee1905 ∷ Section.hy_manager
    ∷ Section.wlan_manager ∷ Section.mc_manager ∷ Section.multi_ap ∷ Section.service_priority
    ∷ Section.topology ∷ Section.dispatch_service ∷ Section.dbg_service ∷ Section.stadb
    ∷ Section.map_ctrl ∷ Section.pc_service ∷ Section.steer_exec ∷ Section.band_mon
    ∷ Section.estimator ∷ Section.steer_alg ∷ []

-- the bound that the case of a section tests the action against
unfoldable pub action_limit : Section → ℕ
action_limit Section.debug = 2
action_limit Section.md = 2
action_limit Section.ev_loop = 1
action_limit Section.ieee1905 = 2
action_limit Section.hy_manager = 4
action_limit Section.wlan_manager = 2
action_limit Section.mc_manager = 3
action_limit Section.multi_ap = 14
action_limit Section.service_priority = section_max
action_limit Section.topology = 19
action_limit Section.dispatch_service = 1
action_limit Section.dbg_service = 2
action_limit Section.stadb = 8
action_limit Section.map_ctrl = 2
action_limit Section.pc_service = 7
action_limit Section.steer_exec = 5
action_limit Section.band_mon = 3
action_limit Section.estimator = 7
action_limit Section.steer_alg = 2

-- the table that the case of a section reads
unfoldable pub action_table : Section → List (ℕ × Text)
unfolding Tables.debug_action_cmd Tables.md_action_cmd Tables.evloop_action_cmd
    Tables.ieee1905_action_cmd Tables.hy_manager_action_cmd Tables.wlan_manager_action_cmd
    Tables.mc_manager_action_cmd Tables.multi_ap_action_cmd Tables.service_priority_action_cmd
    Tables.topology_action_cmd Tables.dispatch_service_action_cmd Tables.dbg_service_action_cmd
    Tables.stadb_action_cmd Tables.mapctrl_action_cmd Tables.pc_service_action_cmd
    Tables.steer_exec_action_cmd Tables.band_mon_action_cmd Tables.estimator_action_cmd
    Tables.steeralg_action_cmd
action_table Section.debug = Tables.debug_action_cmd
action_table Section.md = Tables.md_action_cmd
action_table Section.ev_loop = Tables.evloop_action_cmd
action_table Section.ieee1905 = Tables.ieee1905_action_cmd
action_table Section.hy_manager = Tables.hy_manager_action_cmd
action_table Section.wlan_manager = Tables.wlan_manager_action_cmd
action_table Section.mc_manager = Tables.mc_manager_action_cmd
action_table Section.multi_ap = Tables.multi_ap_action_cmd
action_table Section.service_priority = Tables.service_priority_action_cmd
action_table Section.topology = Tables.topology_action_cmd
action_table Section.dispatch_service = Tables.dispatch_service_action_cmd
action_table Section.dbg_service = Tables.dbg_service_action_cmd
action_table Section.stadb = Tables.stadb_action_cmd
action_table Section.map_ctrl = Tables.mapctrl_action_cmd
action_table Section.pc_service = Tables.pc_service_action_cmd
action_table Section.steer_exec = Tables.steer_exec_action_cmd
action_table Section.band_mon = Tables.band_mon_action_cmd
action_table Section.estimator = Tables.estimator_action_cmd
action_table Section.steer_alg = Tables.steeralg_action_cmd

-- the arguments behind the two words, if there are any
abbrev pub with_args : Option Text → Text
with_args none = []
with_args (some args) = codes " " ++ args

-- the strcat calls into the `CMD_LENGTH` bytes of the command
unfoldable pub write_cmd : Text → Option Text → Option (ℕ × Text) → Built
write_cmd section_cmd args none = fault out_of_bounds
write_cmd section_cmd args (some (n, action_cmd)) =
    let cmd = section_cmd ++ (codes " " ++ (action_cmd ++ (with_args args ++ codes "\n"))) in
    if ltb (length cmd) cmd_length then command cmd else fault overflow

-- an `int` action against its bound; a negative one passes, and reads in front of the table
unfoldable pub check_action : Text → Option Text → Section → ℤ → Built
check_action section_cmd args section (pos n) =
    if leb (action_limit section) n
    then refused
    else write_cmd section_cmd args (get_elem? (action_table section) n)
check_action section_cmd args section (negsuc n) = fault out_of_bounds

abbrev pub with_section : Option (ℕ × Text) → Option Section → ℤ → Option Text → Built
with_section (some (n, section_cmd)) (some section) action args =
    check_action section_cmd args section action
with_section _ _ action args = fault out_of_bounds

-- `section_t` is unsigned.
unfoldable pub create_cmd : ℕ → ℤ → Option Text → Built
unfolding Tables.section_mapping_cmd
create_cmd section action args =
    if leb section_max section
    then refused
    else with_section (get_elem? Tables.section_mapping_cmd section) (get_elem? sections section)
        action args
