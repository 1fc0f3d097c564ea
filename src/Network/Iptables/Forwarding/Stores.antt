-- ===== src/Network/Iptables/Forwarding/Stores.antt =====
-- What creating and updating forwarded ports leaves in the setting file and in the rules.
use noc_demo.Common.{
  ℕ, ◌+◌, ◌≤◌, ◌≡◌, refl, ◌||◌, if◌then◌else◌, Bool, true, false, some, List, [], ◌∷◌, ◌++◌, map,
  length, arith,
}
use noc_demo.Common.Texts.{codes, text_eq, strstr_found}
use noc_demo.CJson.Base.{CJson}
use noc_demo.Config.{Config}
use noc_demo.ErrorCode.{ErrorCode, success}
use noc_demo.Network.Iptables.Defs.{Iptable, IptableNovaService}
use noc_demo.Network.Iptables.Codec.{cvt_iptable_list_to_json}
use noc_demo.Network.Iptables.Refresh.{
  HasFirewall, FirewallFits, refresh_commands, iptables_refresh_runs, forwarding_request_found,
}
use noc_demo.Network.Iptables.Forwarding.{
  update_each, update_profiles, create_profiles, found_result, save_and_refresh,
  iptables_dnat_forwarding_save_to_setting_file, iptables_dnat_forwarding_create,
  iptables_dnat_forwarding_update,
}
use noc_demo.Settings.{saved, HasSetting-saved, HasSetting-other}
use noc_demo.Utils.File.Lock.{write_data_truncates}
use noc_demo.Utils.Uuid.{LibUuid, uuid_text, uuid_gen_fits}
use noc_demo.World.{World, done, ran}

-- The file of the forwarded ports is neither of the other two.
abbrev pub PathsDiffer : Config → Type 0
PathsDiffer config =
    (text_eq config.iptables_dnat_forwarding_setting_file config.iptables_dnat_dmz_setting_file
      ≡ false)
    × (text_eq config.iptables_dnat_forwarding_setting_file config.iptables_nova_setting_file
        ≡ false)

module _ ⦃lib : LibUuid⦄ where
  -- the profiles with the identifiers that the UUID library makes from its n-th on
  abbrev pub with_ids : ℕ → List Iptable → List Iptable
  with_ids n [] = []
  with_ids n (p ∷ ps) = record p { id = some (uuid_text (codes "iptable") n) } ∷ with_ids (n + 1) ps

  create_profiles_lem :
      (uuid_size : ℕ) (ps : List Iptable) (w : World)
      → 37 ≤ uuid_size
      → create_profiles uuid_size ps w
        ≡ done (with_ids w.uuids ps) (record w { uuids = w.uuids + length ps })
  unfolding create_profiles
  create_profiles_lem uuid_size [] w room = ground arith
  create_profiles_lem uuid_size (p ∷ ps) w room = ground (
    arith,
    uuid_gen_fits uuid_size (codes "iptable") w room,
    create_profiles_lem uuid_size ps (record w { uuids = w.uuids + 1 }) room,
  )

-- the stored profiles, each replaced by `u` if `u` names it
abbrev pub replaced : Iptable → List Iptable → List Iptable
replaced u stored = map (λ p. if strstr_found u.id p.id then u else p) stored

abbrev pub replaced_all : List Iptable → List Iptable → List Iptable
replaced_all [] stored = stored
replaced_all (u ∷ us) stored = replaced_all us (replaced u stored)

abbrev pub has_match : Iptable → List Iptable → Bool
has_match u [] = false
has_match u (p ∷ ps) = strstr_found u.id p.id || has_match u ps

-- Does some profile of the request name a stored one, at its turn?
abbrev pub requested : List Iptable → List Iptable → Bool
requested [] stored = false
requested (u ∷ us) stored = has_match u stored || requested us (replaced u stored)

update_each_lem :
    (u : Iptable) (stored : List Iptable)
    → update_each u stored ≡ (has_match u stored, replaced u stored)
unfolding update_each
update_each_lem u [] = refl
update_each_lem u (p ∷ ps) = ground (arith, update_each_lem u ps)

update_profiles_lem :
    (us stored : List Iptable)
    → update_profiles us stored ≡ (requested us stored, replaced_all us stored)
unfolding update_profiles
update_profiles_lem [] stored = refl
update_profiles_lem (u ∷ us) stored =
    rw (update_each_lem u stored, update_profiles_lem us (replaced u stored)) refl

module _ ⦃cj : CJson⦄ where
  -- the world after `ps` were stored and the rules made anew
  abbrev pub refreshed : Config → Iptable → List Iptable → List IptableNovaService → World → World
  refreshed config dmz ps services w =
      ran (refresh_commands dmz ps services)
        (saved config.iptables_dnat_forwarding_setting_file (cvt_iptable_list_to_json ps) w)

  HasFirewall-saved :
      (config : Config) (dmz : Iptable) (old new : List Iptable)
      (services : List IptableNovaService) (w : World)
      → PathsDiffer config
      → HasFirewall config dmz old services w
      → HasFirewall config dmz new services
          (saved config.iptables_dnat_forwarding_setting_file (cvt_iptable_list_to_json new) w)
  HasFirewall-saved config dmz old new services w (other, other') h =
      let file = config.iptables_dnat_forwarding_setting_file in
      let json = cvt_iptable_list_to_json new in
      record {
        dmz_file = HasSetting-other file json other h.dmz_file;
        profiles_file = HasSetting-saved file json w h.dmz_file.free;
        services_file = (
          h.services_file.0,
          h.services_file.1,
          HasSetting-other file json other' h.services_file.2,
        );
      }

  HasFirewall-uuids :
      {config : Config} {dmz : Iptable} {ps : List Iptable} {services : List IptableNovaService}
      {w : World} (n : ℕ)
      → HasFirewall config dmz ps services w
      → HasFirewall config dmz ps services (record w { uuids = n })
  HasFirewall-uuids n h =
      let s = h.services_file.2 in
      record {
        dmz_file = record { free = h.dmz_file.free; text = h.dmz_file.text };
        profiles_file = record { free = h.profiles_file.free; text = h.profiles_file.text };
        services_file =
            (h.services_file.0, h.services_file.1, record { free = s.free; text = s.text });
      }

  pub save_and_refresh_lem :
      (config : Config) (dmz : Iptable) (old new : List Iptable)
      (services : List IptableNovaService) (last : ErrorCode) (w : World)
      → PathsDiffer config
      → HasFirewall config dmz old services w
      → w.writable config.iptables_dnat_forwarding_setting_file ≡ true
      → FirewallFits dmz new services
      → save_and_refresh config new last w ≡ done (last, new) (refreshed config dmz new services w)
  unfolding save_and_refresh iptables_dnat_forwarding_save_to_setting_file
  save_and_refresh_lem config dmz old new services last w differ h ok fits =
      let file = config.iptables_dnat_forwarding_setting_file in
      let json = cvt_iptable_list_to_json new in
      rw (
        write_data_truncates (cj.print json) file w h.dmz_file.free ok,
        iptables_refresh_runs config dmz new services (saved file json w)
            (HasFirewall-saved config dmz old new services w differ h) fits,
      )

  -- If the setting files hold the settings, the file of the ports can be written and is not one of
  -- the others, the identifiers have room and every command fits its buffer, creating forwarded
  -- ports succeeds: the stored list is the old one followed by the new ones with identifiers of
  -- their own draws, and the rules are made anew from it.
  pub forwarding_create_stores :
      ⦃lib : LibUuid⦄ (config : Config) (dmz : Iptable) (old new : List Iptable)
      (services : List IptableNovaService) (w : World)
      → PathsDiffer config
      → HasFirewall config dmz old services w
      → w.writable config.iptables_dnat_forwarding_setting_file ≡ true
      → 37 ≤ config.uuid_size
      → let all = old ++ with_ids w.uuids new in
        FirewallFits dmz all services
        → iptables_dnat_forwarding_create config new w
          ≡ done
              (success, all)
              (refreshed config dmz all services (record w { uuids = w.uuids + length new }))
  unfolding iptables_dnat_forwarding_create
  forwarding_create_stores config dmz old new services w differ h ok room fits =
      let all = old ++ with_ids w.uuids new in
      let n = w.uuids + length new in
      rw (
        forwarding_request_found config old w h.profiles_file,
        create_profiles_lem config.uuid_size new w room,
        save_and_refresh_lem config dmz old all services success (record w { uuids = n }) differ
            (HasFirewall-uuids n h) ok fits,
      )

  -- If the setting files hold the settings, the file of the ports can be written and is not one of
  -- the others, and every command fits its buffer, updating forwarded ports returns: every stored
  -- profile that a profile of the request names is replaced by it in its place, the list is stored
  -- and the rules are made anew from it, and the code is success if any was replaced and the
  -- mismatch of identifiers otherwise.
  pub forwarding_update_stores :
      (config : Config) (dmz : Iptable) (us old : List Iptable) (services : List IptableNovaService)
      (w : World)
      → PathsDiffer config
      → HasFirewall config dmz old services w
      → w.writable config.iptables_dnat_forwarding_setting_file ≡ true
      → FirewallFits dmz (replaced_all us old) services
      → iptables_dnat_forwarding_update config us w
        ≡ done
            (found_result (requested us old), replaced_all us old)
            (refreshed config dmz (replaced_all us old) services w)
  unfolding iptables_dnat_forwarding_update
  forwarding_update_stores config dmz us old services w differ h ok fits = rw (
    forwarding_request_found config old w h.profiles_file,
    update_profiles_lem us old,
    save_and_refresh_lem config dmz old (replaced_all us old) services
        (found_result (requested us old)) w differ h ok fits,
  )
