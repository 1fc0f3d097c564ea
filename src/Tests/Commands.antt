-- ===== src/Tests/Commands.antt =====
-- The properties of the commands of the mesh at concrete inputs.
use noc_demo.Common.{◌<◌, ◌≡◌, some, length, arith}
use noc_demo.Common.Int.{pos}
use noc_demo.Common.Texts.{Text, codes}
use noc_demo.Emt.Actions.{Section, section_int}
use noc_demo.Emt.Command.{command, fault, action_table, create_cmd}
use noc_demo.Emt.Command.Decode.{decode}
use noc_demo.Emt.Command.Total.{create_cmd_decodes, create_cmd_service_priority}
use noc_demo.World.{out_of_bounds}

debug_first : 0 < length (action_table Section.debug)
unfolding action_table
debug_first = omega arith

create_cmd_decodes_example :
    (cmd : Text) × (create_cmd (section_int Section.debug) (pos 0) (some (codes "x")) ≡ command cmd)
    × (decode cmd ≡ some (section_int Section.debug, 0))
create_cmd_decodes_example =
    create_cmd_decodes Section.debug 0 (some (codes "x")) debug_first (omega arith)

create_cmd_service_priority_example :
    create_cmd (section_int Section.service_priority) (pos 6) (some (codes "x"))
    ≡ fault out_of_bounds
create_cmd_service_priority_example =
    create_cmd_service_priority 6 (some (codes "x")) (omega arith) (omega arith)
