-- ===== src/Network/Iptables/Forwarding.antt =====
-- src/core/network/iptables/iptables_dnat_pf.c: the forwarded ports.
pub mod Stores
pub mod Removes
use noc_demo.Common.{
  ℕ, zero, ◌||◌, if◌then◌else◌, Bool, true, false, Option, none, some, List, [], ◌∷◌, ◌++◌,
}
use noc_demo.Common.Int.{ℤ, pos, negsuc}
use noc_demo.Common.Texts.{codes, strstr_found}
use noc_demo.CJson.Base.{CJson}
use noc_demo.Config.{Config}
use noc_demo.ErrorCode.{ErrorCode, success, id_mismatched, internal_server}
use noc_demo.Network.Iptables.Defs.{Iptable}
use noc_demo.Network.Iptables.Codec.{cvt_iptable_list_to_json}
use noc_demo.Network.Iptables.Reload.{
  iptable_dnat_forwarding_request_from_setting_file, iptables_refresh,
}
use noc_demo.Utils.File.{write_data, truncate}
use noc_demo.Utils.Uuid.{LibUuid, uuid_gen}
use noc_demo.World.{Cmd, pure, ◌>>=◌, ◌>>◌}

-- the inner loop of iptables_dnat_forwarding_update, which goes on after a match
unfoldable pub update_each : Iptable → List Iptable → Bool × List Iptable
update_each u [] = (false, [])
update_each u (p ∷ ps) =
    let (found, rest) = update_each u ps in
    if strstr_found u.id p.id then (true, u ∷ rest) else (found, p ∷ rest)

unfoldable pub update_profiles : List Iptable → List Iptable → Bool × List Iptable
update_profiles [] stored = (false, stored)
update_profiles (u ∷ us) stored =
    let (now, stored') = update_each u stored in
    let (later, result) = update_profiles us stored' in (now || later, result)

-- the inner loop of iptables_dnat_forwarding_delete, up to its `break`: the items behind the match
-- move down by one, and the length is one less
unfoldable pub delete_first : Iptable → List Iptable → Bool × List Iptable
delete_first d [] = (false, [])
delete_first d (p ∷ ps) =
    let (found, rest) = delete_first d ps in
    if strstr_found d.id p.id then (true, ps) else (found, p ∷ rest)

unfoldable pub delete_profiles : List Iptable → List Iptable → Bool × List Iptable
delete_profiles [] stored = (false, stored)
delete_profiles (d ∷ ds) stored =
    let (now, stored') = delete_first d stored in
    let (later, result) = delete_profiles ds stored' in (now || later, result)

module _ ⦃lib : LibUuid⦄ where
  -- the loop of iptables_dnat_forwarding_create: the profiles behind the old ones
  unfoldable pub create_profiles : ℕ → List Iptable → Cmd (List Iptable)
  create_profiles uuid_size [] = pure []
  create_profiles uuid_size (p ∷ ps) = do
    id ← uuid_gen uuid_size (codes "iptable")
    added ← create_profiles uuid_size ps
    pure (record p { id = some id } ∷ added)

-- `if (ret != NULL) return ERR_INTERNAL_SERVER; return ERR_SUCCESS;`
abbrev pub nonzero_result : ℤ → ErrorCode
nonzero_result (pos zero) = success
nonzero_result _ = internal_server

-- `if (!found_id) return ERR_ID_MISMATCHED; return ERR_SUCCESS;`
abbrev pub found_result : Bool → ErrorCode
found_result true = success
found_result false = id_mismatched

-- `if (err != ERR_SUCCESS) return err;` before the last code
abbrev pub and_last : ErrorCode → ErrorCode → ErrorCode
and_last success last = last
and_last err last = err

-- the end of each operation: an error is returned with the list, else `next` gives the code
abbrev pub finish : List Iptable → ErrorCode → Cmd ErrorCode → Cmd (ErrorCode × List Iptable)
finish ps success next = next >>= λ err. pure (err, ps)
finish ps err next = pure (err, ps)

module _ ⦃cj : CJson⦄ (config : Config) where
  open cj use {print}

  unfoldable pub iptables_dnat_forwarding_save_to_setting_file : List Iptable → Cmd ErrorCode
  iptables_dnat_forwarding_save_to_setting_file profiles = do
    ret ←
        write_data (print (cvt_iptable_list_to_json profiles)) truncate
          config.iptables_dnat_forwarding_setting_file
    pure (nonzero_result ret)

  abbrev pub iptables_dnat_forwarding_request : Cmd (List Iptable)
  iptables_dnat_forwarding_request = iptable_dnat_forwarding_request_from_setting_file config

  -- the save and the refresh that close each operation, and `last` after them
  unfoldable pub save_and_refresh : List Iptable → ErrorCode → Cmd (ErrorCode × List Iptable)
  save_and_refresh profiles last = do
    err ← iptables_dnat_forwarding_save_to_setting_file profiles
    finish profiles err (do err ← iptables_refresh config; pure (and_last err last))

  unfoldable pub iptables_dnat_forwarding_create :
      ⦃lib : LibUuid⦄ → List Iptable → Cmd (ErrorCode × List Iptable)
  iptables_dnat_forwarding_create profiles = do
    setting ← iptables_dnat_forwarding_request
    added ← create_profiles config.uuid_size profiles
    save_and_refresh (setting ++ added) success

  unfoldable pub iptables_dnat_forwarding_update : List Iptable → Cmd (ErrorCode × List Iptable)
  iptables_dnat_forwarding_update profiles = do
    setting ← iptables_dnat_forwarding_request
    let (found, setting') = update_profiles profiles setting
    save_and_refresh setting' (found_result found)

  unfoldable pub iptables_dnat_forwarding_delete : List Iptable → Cmd (ErrorCode × List Iptable)
  iptables_dnat_forwarding_delete profiles = do
    setting ← iptables_dnat_forwarding_request
    let (found, setting') = delete_profiles profiles setting
    save_and_refresh setting' (found_result found)
