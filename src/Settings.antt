-- ===== src/Settings.antt =====
-- A setting file: JSON text that is read with read_data and cJSON_Parse and written with
-- cJSON_Print and write_data(…, TRUNCATE), as each component does.
use noc_demo.Common.{◌≡◌, ◌∙◌, List, ap, true, false, Option, none, some, if◌then◌else◌}
use noc_demo.Common.Int.{ℤ, pos, negsuc}
use noc_demo.Common.Texts.{Text, text_eq, text_eq_refl}
use noc_demo.World.{World, ran, done, Cmd, pure, ◌>>=◌}
use noc_demo.ErrorCode.{ErrorCode, success, internal_server}
use noc_demo.Utils.File.{read_data, write_data, truncate}
use noc_demo.Utils.File.Lock.{written, read_data_found, write_data_truncates, write_data_refused}
use noc_demo.CJson.Base.{CJson}

-- `if (ret == -1) return ERR_INTERNAL_SERVER; return ERR_SUCCESS;`
abbrev pub save_result : ℤ → ErrorCode
save_result (negsuc n) = internal_server
save_result (pos n) = success

module _ ⦃cj : CJson⦄ where
  open cj use {Json, print, parse, parse-print}

  -- cJSON_Parse(NULL) is NULL.
  abbrev pub parse_text : Option Text → Option Json
  parse_text none = none
  parse_text (some s) = parse s

  unfoldable pub load_json_from_file : Text → Cmd (Option Json)
  load_json_from_file path = do text ← read_data path; pure (parse_text text)

  unfoldable pub save_json : Text → Json → Cmd ErrorCode
  save_json path json = do ret ← write_data (print json) truncate path; pure (save_result ret)

  -- `path` holds the printed `json`, and the lock is free.
  pub record HasSetting (path : Text) (json : Json) (w : World) : Type 0 where
    pub free : w.locked ≡ false
    pub text : w.files path ≡ some (print json)

  pub load_found :
      {path : Text} {json : Json} {w : World}
      → HasSetting path json w
      → load_json_from_file path w ≡ done (some json) w
  unfolding load_json_from_file
  load_found {path} {json} {w} h =
      rw (read_data_found path (print json) w h.free h.text, parse-print json)

  abbrev pub saved : Text → Json → World → World
  saved path json w = written (print json) path w

  pub save_json_writes :
      (path : Text) (json : Json) (w : World)
      → w.locked ≡ false
      → w.writable path ≡ true
      → save_json path json w ≡ done success (saved path json w)
  unfolding save_json
  save_json_writes path json w free ok = rw (write_data_truncates (print json) path w free ok)

  pub save_json_refused :
      (path : Text) (json : Json) (w : World)
      → w.locked ≡ false
      → w.writable path ≡ false
      → save_json path json w ≡ done internal_server (record w { locked = true })
  unfolding save_json
  save_json_refused path json w free ok = rw (write_data_refused (print json) path w free ok)

  pub HasSetting-saved :
      (path : Text) (json : Json) (w : World)
      → w.locked ≡ false
      → HasSetting path json (saved path json w)
  HasSetting-saved path json w free = record {
    free = free;
    text = ap (λ b. if b then some (print json) else w.files path) (text_eq_refl path);
  }

  -- The shell changes no setting file.
  pub HasSetting-ran :
      {path : Text} {json : Json} {w : World} (cmds : List Text)
      → HasSetting path json w
      → HasSetting path json (ran cmds w)
  HasSetting-ran cmds h = record { free = h.free; text = h.text }

  -- Writing one setting file leaves the others as they are.
  pub HasSetting-other :
      {path : Text} {json : Json} {w : World} (path' : Text) (json' : Json)
      → text_eq path' path ≡ false
      → HasSetting path json w
      → HasSetting path json (saved path' json' w)
  HasSetting-other {path} {json} {w} path' json' other h = record {
    free = h.free;
    text = ap (λ b. if b then some (print json') else w.files path) other ∙ h.text;
  }
