-- ===== src/ErrorCode.antt =====
-- src/api/error_code/error_code.h: the codes that the operations return.
use noc_demo.Common.{ℕ, ◌≡◌, ◌≢◌, refl}
use noc_demo.World.{World, Cmd, pure, done}

pub data ErrorCode : Type 0 where
  success unknown setting_failed interface_convert_failed internal_server : ErrorCode
  unauthorised id_mismatched mqtt_connect_fail wrong_format_message timeout : ErrorCode
  device_not_found mesh_setuped_before mesh_not_found request_invalid : ErrorCode
  ezmesh_deamon_connect_fail : ErrorCode

unfoldable pub code : ErrorCode → ℕ
code success = 0
code unknown = 100001
code setting_failed = 100002
code interface_convert_failed = 100003
code internal_server = 100004
code unauthorised = 100005
code id_mismatched = 100006
code mqtt_connect_fail = 101000
code wrong_format_message = 240001
code timeout = 240002
code device_not_found = 240003
code mesh_setuped_before = 240004
code mesh_not_found = 240005
code request_invalid = 240006
code ezmesh_deamon_connect_fail = 240007

-- `if (err != ERR_SUCCESS) return err;` before the rest
abbrev pub on_success : ErrorCode → Cmd ErrorCode → Cmd ErrorCode
on_success success rest = rest
on_success err rest = pure err

pub on_success_failed :
    (err : ErrorCode) (rest : Cmd ErrorCode) (w : World)
    → err ≢ success
    → on_success err rest w ≡ done err w
on_success_failed success rest w h = absurd (h refl)
on_success_failed _ rest w h = refl
