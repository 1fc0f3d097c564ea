-- ===== src/Network/Wan/Stores.antt =====
-- What setting the outer network leaves in its file and in the configuration of the router.
use noc_demo.Common.{◌≡◌, refl, true, false, some, List, [], ◌∷◌, All, append_assoc}
use noc_demo.Common.Texts.{Text, codes}
use noc_demo.CJson.Base.{CJson}
use noc_demo.CJson.Object.{read_string-member}
use noc_demo.Config.{Config}
use noc_demo.ErrorCode.{success}
use noc_demo.Network.Lan.Stores.{CommandFits, commit_network, commit_small}
use noc_demo.Settings.{
  saved, HasSetting, HasSetting-saved, HasSetting-ran, load_found, save_json_writes,
}
use noc_demo.Network.Wan.{
  Wan, wan_members, cvt_wan_to_json, cvt_json_to_wan, wan_save_to_setting_file, wan_set,
  wan_get_from_setting_file, wan_get, wan_reload_from_setting_file,
}
use noc_demo.Utils.Uci.{app_uci_set, app_uci_commit, run_uci_fits, uci_set_command}
use noc_demo.World.{World, done, ran}

abbrev pub wan_commands : Wan → List Text
wan_commands wan =
    uci_set_command (codes "network.wan.proto") wan.proto
    ∷ uci_set_command (codes "network.wan.ipaddr") wan.ipaddr
    ∷ []

module _ ⦃cj : CJson⦄ where
  pub wan_round_trip : (x : Wan) → cvt_json_to_wan (some (cvt_wan_to_json x)) ≡ x
  unfolding cvt_wan_to_json cvt_json_to_wan
  wan_round_trip x =
      let ms = wan_members x in
      λ i. record {
        proto = read_string-member ms (codes "proto") x.proto refl i;
        ipaddr = read_string-member ms (codes "ipaddr") x.ipaddr refl i;
      }

module _ ⦃cj : CJson⦄ (config : Config) where
  -- the world after wan_set
  abbrev pub wan_stored : Wan → World → World
  wan_stored wan w =
      ran (commit_network ∷ [])
        (saved config.wan_setting_file (cvt_wan_to_json wan) (ran (wan_commands wan) w))

  wan_set_lem :
      (wan : Wan) (w : World)
      → w.locked ≡ false
      → w.writable config.wan_setting_file ≡ true
      → All CommandFits (wan_commands wan)
      → wan_set config wan w ≡ done success (wan_stored wan w)
  unfolding wan_set app_uci_set wan_save_to_setting_file app_uci_commit
  wan_set_lem wan w free ok (fit_a, (fit_b, _)) =
      let a = uci_set_command (codes "network.wan.proto") wan.proto in
      let b = uci_set_command (codes "network.wan.ipaddr") wan.ipaddr in
      let json = cvt_wan_to_json wan in
      let w2 = ran (a ∷ b ∷ []) w in
      rw (
        run_uci_fits a w fit_a,
        run_uci_fits b (ran (a ∷ []) w) fit_b,
        append_assoc w.executed (a ∷ []) (b ∷ []),
        save_json_writes config.wan_setting_file json w2 free ok,
        run_uci_fits commit_network (saved config.wan_setting_file json w2) commit_small,
      )

  -- If the file of the setting holds it, the lock is free, the file can be written and every
  -- command fits its buffer, a reload succeeds: the configuration gets the stored protocol and
  -- address, then a commit, and the file holds the setting as before.
  pub wan_reload_applies :
      (wan : Wan) (w : World)
      → HasSetting config.wan_setting_file (cvt_wan_to_json wan) w
      → w.writable config.wan_setting_file ≡ true
      → All CommandFits (wan_commands wan)
      → (wan_reload_from_setting_file config w ≡ done success (wan_stored wan w))
        × HasSetting config.wan_setting_file (cvt_wan_to_json wan) (wan_stored wan w)
        × (wan_get config (wan_stored wan w) ≡ done (success, wan) (wan_stored wan w))
  unfolding wan_reload_from_setting_file wan_get_from_setting_file wan_get
  wan_reload_applies wan w h ok fits =
      let json = cvt_wan_to_json wan in
      let kept =
        HasSetting-ran (commit_network ∷ [])
          (HasSetting-saved config.wan_setting_file json (ran (wan_commands wan) w) h.free) in
      (
        rw (load_found h, wan_round_trip wan, wan_set_lem wan w h.free ok fits),
        kept,
        rw (load_found kept, wan_round_trip wan),
      )
