-- ===== src/Utils/Uci.antt =====
-- src/utils/uci/app_uci.c: the calls that change the configuration of the router. Each runs one
-- command and answers its output, with NULL for none.
pub mod Runs
use noc_demo.Common.{◌<◌, ◌≡◌, Option, none, some, [], ◌∷◌, ◌++◌, length, arith}
use noc_demo.Common.Texts.{Text, codes}
use noc_demo.Utils.Shell.{execl_timeout, collected, c_string}
use noc_demo.World.{World, done, ran, Cmd, pure, ◌>>=◌, sprintf, arg}

abbrev pub output_or_null : Text → Option Text
output_or_null [] = none
output_or_null (c ∷ s) = some (c ∷ s)

-- `char cmd[200]`, the command and its output
unfoldable pub run_uci : Text → Cmd (Option Text)
run_uci text = do cmd ← sprintf 200 text; out ← execl_timeout cmd; pure (output_or_null out)

unfoldable pub uci_set_command : Text → Option Text → Text
uci_set_command args value = codes "uci set " ++ args ++ codes "=" ++ arg value

unfoldable pub uci_commit_command : Text → Text
uci_commit_command args = codes "uci commit " ++ args

unfoldable pub app_uci_add : Text → Text → Cmd (Option Text)
app_uci_add args section = run_uci (codes "uci add " ++ args ++ codes " " ++ section)

unfoldable pub app_uci_set : Text → Option Text → Cmd (Option Text)
app_uci_set args value = run_uci (uci_set_command args value)

unfoldable pub app_uci_delete : Text → Cmd (Option Text)
app_uci_delete args = run_uci (codes "uci delete " ++ args)

unfoldable pub app_uci_add_list : Text → Option Text → Cmd (Option Text)
app_uci_add_list args list = run_uci (codes "uci add_list " ++ args ++ codes "=" ++ arg list)

unfoldable pub app_uci_del_list : Text → Option Text → Cmd (Option Text)
app_uci_del_list args none = run_uci (codes "uci del_list " ++ args)
app_uci_del_list args (some list) = run_uci (codes "uci del_list " ++ args ++ codes "=" ++ list)

unfoldable pub app_uci_commit : Text → Cmd (Option Text)
app_uci_commit args = run_uci (uci_commit_command args)

-- A command that fits the buffer is run.
pub run_uci_fits :
    (text : Text) (w : World)
    → length text < 200
    → run_uci text w
      ≡ done (output_or_null (c_string (collected (w.answer w.executed text)))) (ran (text ∷ []) w)
unfolding run_uci sprintf execl_timeout
run_uci_fits text w fit = ground arith
