-- ===== src/Utils/Uci/Runs.antt =====
-- Operations that end after running a known list of commands, whatever the shell answers.
use noc_demo.Common.{◌<◌, ◌≡◌, ◌∙◌, ap, sym, Option, List, [], ◌∷◌, ◌++◌, length, arith}
use noc_demo.Common.Texts.{Text, codes}
use noc_demo.Utils.Uci.{
  run_uci, run_uci_fits, app_uci_add, app_uci_set, app_uci_delete, app_uci_add_list,
  uci_set_command,
}
use noc_demo.World.{World, done, ran, ran-ran, ran_nothing, Cmd, pure, ◌>>=◌, ◌>>◌, sprintf, arg}

abbrev pub add_command : Text → Text → Text
add_command args section = codes "uci add " ++ args ++ codes " " ++ section

abbrev pub delete_command : Text → Text
delete_command args = codes "uci delete " ++ args

abbrev pub add_list_command : Text → Text → Text
add_list_command args s = codes "uci add_list " ++ args ++ codes "=" ++ s

-- A command fits `char cmd[200]`.
abbrev pub Fits : Text → Type 0
Fits cmd = length cmd < 200

module _ {A : Type 0} where
  -- The operation runs exactly these commands and ends.
  abbrev pub Runs : Cmd A → List Text → Type 0
  Runs m cmds = (w : World) → (a : A) × (m w ≡ done a (ran cmds w))

module _ {A B : Type 0} (m : Cmd A) (n : Cmd B) (before after : List Text) where
  -- One operation after another runs the commands of both.
  pub Runs-then : Runs m before → Runs n after → Runs (m >> n) (before ++ after)
  Runs-then hm hn w =
      let (a, p) = hm w in
      let (b, q) = hn (ran before w) in (b, rw p (q ∙ ap (done b) (ran-ran before after w)))

pub Runs-pure : {A : Type 0} (a : A) → Runs (pure a) []
Runs-pure a w = (a, ap (done a) (sym (ran_nothing w)))

pub Runs-uci : (text : Text) → Fits text → Runs (run_uci text) (text ∷ [])
Runs-uci text fit w = (_, run_uci_fits text w fit)

pub Runs-app_uci_add :
    (args section : Text)
    → Fits (add_command args section)
    → Runs (app_uci_add args section) (add_command args section ∷ [])
unfolding app_uci_add
Runs-app_uci_add args section fit = Runs-uci (add_command args section) fit

pub Runs-app_uci_set :
    (args : Text) (value : Option Text)
    → Fits (uci_set_command args value)
    → Runs (app_uci_set args value) (uci_set_command args value ∷ [])
unfolding app_uci_set
Runs-app_uci_set args value fit = Runs-uci (uci_set_command args value) fit

pub Runs-app_uci_delete :
    (args : Text)
    → Fits (delete_command args)
    → Runs (app_uci_delete args) (delete_command args ∷ [])
unfolding app_uci_delete
Runs-app_uci_delete args fit = Runs-uci (delete_command args) fit

pub Runs-app_uci_add_list :
    (args : Text) (value : Option Text)
    → Fits (add_list_command args (arg value))
    → Runs (app_uci_add_list args value) (add_list_command args (arg value) ∷ [])
unfolding app_uci_add_list
Runs-app_uci_add_list args value fit = Runs-uci (add_list_command args (arg value)) fit

module _ {B : Type 0} (s : Text) (k : Text → Cmd B) (cmds : List Text) where
  -- A text that fits is written into the buffer.
  pub Runs-sprintf : length s < 200 → Runs (k s) cmds → Runs (sprintf 200 s >>= k) cmds
  unfolding sprintf
  Runs-sprintf fit h w = let (b, p) = h w in (b, ground arith)
