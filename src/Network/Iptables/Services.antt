-- ===== src/Network/Iptables/Services.antt =====
-- iptable_dnat_dmz_update of iptables_dnat_dmz.c and iptable_nova_service_set of
-- iptables_nova_port.c: new settings that are stored and then made into rules.
use noc_demo.Common.{
  zero, ◌≡◌, refl, if◌then◌else◌, true, false, Option, none, some, List, arith, Bool-cases, inl,
  inr,
}
use noc_demo.Common.Int.{ℤ, negsuc}
use noc_demo.CJson.Base.{CJson}
use noc_demo.Config.{Config}
use noc_demo.ErrorCode.{ErrorCode, success, internal_server, on_success}
use noc_demo.Network.Iptables.Defs.{Iptable, IptableNovaService}
use noc_demo.Network.Iptables.Codec.{cvt_iptable_to_json, cvt_iptable_nova_service_list_to_json}
use noc_demo.Network.Iptables.Reload.{
  iptables_refresh, iptable_dnat_dmz_reload_from_setting_file,
  iptable_dnat_dmz_request_from_setting_file,
}
use noc_demo.Network.Iptables.Refresh.{execl_each_lem}
use noc_demo.Network.Iptables.Rules.{iptables_default_setting, iptables_default_setting_list}
use noc_demo.Settings.{save_json, saved, load_json_from_file}
use noc_demo.Utils.File.{read_data, write_data, truncate}
use noc_demo.Utils.File.Lock.{write_data_truncates, write_data_refused}
use noc_demo.World.{World, ran, done, stopped, deadlock, null_read, Cmd, pure, stop, ◌>>=◌}

-- `if (ret != -1) return ERR_INTERNAL_SERVER; return ERR_SUCCESS;`, as the source has it
abbrev pub nova_save_result : ℤ → ErrorCode
nova_save_result (negsuc zero) = success
nova_save_result _ = internal_server

module _ ⦃cj : CJson⦄ (config : Config) where
  open cj use {Json, print}

  unfoldable pub iptable_dnat_dmz_update : Iptable → Cmd ErrorCode
  iptable_dnat_dmz_update dmz = do
    err ← save_json config.iptables_dnat_dmz_setting_file (cvt_iptable_to_json dmz)
    on_success err (iptables_refresh config)

  write_services : Option Json → Cmd ErrorCode
  write_services none = stop null_read
  write_services (some json) = do
    ret ← write_data (print json) truncate config.iptables_nova_setting_file
    pure (nova_save_result ret)

  unfoldable pub iptable_nova_service_save_to_setting_file : List IptableNovaService → Cmd ErrorCode
  unfolding write_services
  iptable_nova_service_save_to_setting_file services =
      write_services (cvt_iptable_nova_service_list_to_json services)

  unfoldable pub iptable_nova_service_set : List IptableNovaService → Cmd ErrorCode
  iptable_nova_service_set services = do
    err ← iptable_nova_service_save_to_setting_file services
    on_success err (iptables_refresh config)

  read_data_locked :
      (w : World)
      → w.locked ≡ true
      → iptable_dnat_dmz_request_from_setting_file config w ≡ stopped deadlock
  unfolding iptable_dnat_dmz_request_from_setting_file load_json_from_file read_data
  read_data_locked w taken = ground arith

  -- While the lock of the files is taken, iptables_refresh never returns: it waits for the lock at
  -- its first setting file.
  refresh_locked : (w : World) → w.locked ≡ true → iptables_refresh config w ≡ stopped deadlock
  unfolding iptables_refresh iptables_default_setting iptable_dnat_dmz_reload_from_setting_file
  refresh_locked w taken =
      let list = iptables_default_setting_list in
      rw (execl_each_lem list w, read_data_locked (ran list w) taken)

  set_result :
      (written_json : Option Json) (w : World)
      → w.locked ≡ false
      → (write_services written_json >>= λ err. on_success err (iptables_refresh config)) w
        ≡ elim written_json [
          | none ↦ stopped null_read
          | some json ↦
              if w.writable config.iptables_nova_setting_file
              then done internal_server (saved config.iptables_nova_setting_file json w)
              else stopped deadlock
        ]
  unfolding write_services
  set_result none w free = refl
  set_result (some json) w free =
      let file = config.iptables_nova_setting_file in
      elim (Bool-cases (w.writable file)) [
        | inl ok ↦ rw (write_data_truncates (print json) file w free ok, ok)
        | inr bad ↦ rw (
          write_data_refused (print json) file w free bad,
          refresh_locked (record w { locked = true }) refl,
          bad,
        )
      ]

  -- What iptable_nova_service_set does on every branch, if the lock of the files is free. A service
  -- without a list of profiles is a read through NULL. If the file can be written, the services are
  -- stored, the caller is told of an internal error and no rule is changed; if it cannot, the call
  -- never returns, since the lock stays taken when the file is not opened.
  pub nova_service_set_never_succeeds :
      (services : List IptableNovaService) (w : World)
      → w.locked ≡ false
      → iptable_nova_service_set services w
        ≡ elim (cvt_iptable_nova_service_list_to_json services) [
          | none ↦ stopped null_read
          | some json ↦
              if w.writable config.iptables_nova_setting_file
              then done internal_server (saved config.iptables_nova_setting_file json w)
              else stopped deadlock
        ]
  unfolding iptable_nova_service_set iptable_nova_service_save_to_setting_file write_services
  nova_service_set_never_succeeds services w free =
      set_result (cvt_iptable_nova_service_list_to_json services) w free
