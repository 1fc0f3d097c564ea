-- ===== src/Api/Network/Answers.antt =====
-- Which answer a request for the networks is given.
use noc_demo.Common.{◌≡◌, refl, true, false, some, List, [], ◌∷◌, All, arith}
use noc_demo.Common.Int.{pos}
use noc_demo.Common.Texts.{Text, codes}
use noc_demo.Api.Errors.{Error, ErrorTables, error_table_lookup}
use noc_demo.Api.Handler.{mqtt_publish_message, put_error, put_data, data_member, restart_service}
use noc_demo.Api.Message.{
  empty, network_lan, Data, lan, Header, member_to_json, cvt_msg_request_to_msg_respond,
}
use noc_demo.Api.Network.{run_and_answer, set_and_answer, create_lan, request_lan}
use noc_demo.Api.Handler.Answer.{told, answer_text, Asks, begin_lem, error_lem, publish_lem}
use noc_demo.CJson.Base.{CJson}
use noc_demo.Config.{Config}
use noc_demo.ErrorCode.{ErrorCode, success, code}
use noc_demo.Network.Lan.{Lan, cvt_lan_to_json, lan_get, lan_get_from_lan_setting_file}
use noc_demo.Network.Lan.Stores.{
  CommandFits, lan_commands, commit_network, lan_set_stores, lan_round_trip,
}
use noc_demo.Settings.{saved, HasSetting, HasSetting-saved, HasSetting-ran, load_found}
use noc_demo.Utils.Shell.{execl_timeout}
use noc_demo.World.{World, done, ran, sprintf_fits}

abbrev pub restart_network : Text
restart_network = codes "/etc/init.d/network restart"

module _ ⦃cj : CJson⦄ where
  -- the world after lan_set
  abbrev pub lan_world : Config → Lan → World → World
  lan_world config l w =
      ran (commit_network ∷ [])
        (saved config.lan_setting_file (cvt_lan_to_json l) (ran (lan_commands l) w))

module _ ⦃cj : CJson⦄ (resumed : List Text) where
  open cj use {Json}

  module _ (topic : Text) (tables : ErrorTables) (config : Config) where
    restart_lem :
        (w : World) → restart_service (codes "network") w ≡ done tt (ran (restart_network ∷ []) w)
    unfolding restart_service execl_timeout
    restart_lem w = rw (sprintf_fits 200 restart_network w (omega arith)) refl

    -- If the lock of the files is free, the file can be written, every command fits its buffer and
    -- the tables have the code of success, a request that creates the setting of the local network
    -- sets it, is answered with it and restarts the network; the next request for the setting that
    -- has data is answered with exactly the setting that was created.
    pub lan_created_then_requested :
        (l : Lan) (e : Error) (create_json request_json : Json) (h h' : Header) (old : Data)
        (name name' : Text) (w : World)
        → Asks resumed create_json network_lan h (some (lan l)) name
        → Asks resumed request_json empty h' (some old) name'
        → error_table_lookup tables (pos 0) ≡ some e
        → w.locked ≡ false
        → w.writable config.lan_setting_file ≡ true
        → All CommandFits (lan_commands l)
        → let item = some (cvt_lan_to_json l) in
          let told_once = told topic (answer_text h name item e) (lan_world config l w) in
          let restarted = ran (restart_network ∷ []) told_once in
          (create_lan topic resumed tables config create_json w ≡ done tt restarted)
          × (request_lan topic resumed tables config request_json restarted
              ≡ done tt (told topic (answer_text h' name' item e) restarted))
    unfolding create_lan set_and_answer run_and_answer data_member request_lan put_data put_error
        cvt_msg_request_to_msg_respond mqtt_publish_message member_to_json lan_get
        lan_get_from_lan_setting_file code
    lan_created_then_requested l e create_json request_json h h' old name name' w asks asks' known
          free ok fits =
        let json = cvt_lan_to_json l in
        let w0 = ran (lan_commands l) w in
        let w1 = lan_world config l w in
        let stored =
          HasSetting-ran (commit_network ∷ [])
            (HasSetting-saved config.lan_setting_file json w0 free) in
        let w2 = told topic (answer_text h name (some json) e) w1 in
        let w3 = ran (restart_network ∷ []) w2 in
        let kept : HasSetting config.lan_setting_file json w3 = record {
          free = stored.free;
          text = stored.text;
        } in
        (
          rw (
            begin_lem resumed w asks,
            (lan_set_stores config l w free ok fits).0,
            error_lem resumed tables success e w1 known,
            publish_lem resumed topic network_lan h (lan l) name e (some json) w1 refl,
            restart_lem w2,
          ),
          rw
              (
                begin_lem resumed w3 asks',
                load_found kept,
                lan_round_trip l,
                error_lem resumed tables success e w3 known,
              )
              (publish_lem resumed topic network_lan h' (lan l) name' e (some json) w3 refl),
        )
