-- ===== src/Network/Iptables/Refresh.antt =====
-- The commands that iptables_refresh gives to the shell.
use noc_demo.Common.{
  ◌≡◌, refl, ◌∙◌, sym, ap, ◌<◌, ◌&&◌, ◌||◌, not, is_some, Bool, if◌then◌else◌, none, some, List, [],
  ◌∷◌, ◌++◌, length, append_assoc, All, arith,
}
use noc_demo.Common.Texts.{Text}
use noc_demo.CJson.Base.{CJson}
use noc_demo.Config.{Config}
use noc_demo.ErrorCode.{success}
use noc_demo.Network.Iptables.Defs.{Iptable, IptableNovaService}
use noc_demo.Network.Iptables.Codec.{
  cvt_iptable_to_json, cvt_iptable_list_to_json, cvt_iptable_nova_service_list_to_json,
}
use noc_demo.Network.Iptables.RoundTrip.{
  iptable_round_trip, iptable_list_round_trip, HasProfiles, nova_list_back,
}
use noc_demo.Network.Iptables.Rules.{
  execl_each, iptables_default_setting, iptables_default_setting_list, iptables_restrict_basic,
  iptable_restrict_basic, open_command, open_loop, iptables_open_port_profiles,
}
use noc_demo.Network.Iptables.Reload.{
  dmz_prefix, dmz_command, iptables_dnat_dmz_profiles_set, open_services,
  iptable_dnat_dmz_request_from_setting_file, iptable_dnat_dmz_reload_from_setting_file,
  iptable_dnat_forwarding_request_from_setting_file,
  iptable_dnat_forwarding_reload_from_setting_file, iptable_nova_service_request_from_setting_file,
  iptable_nova_service_reload_from_setting_file, iptables_refresh,
}
use noc_demo.Settings.{HasSetting, load_found, HasSetting-ran}
use noc_demo.Utils.Shell.{execl_non_timeout}
use noc_demo.World.{World, done, sprintf, ran, ran-ran, ran_nothing}

-- An enabled profile has a protocol and a port range.
abbrev pub complete : Iptable → Bool
complete p = not p.enable || (is_some p.protocol && is_some p.port_range)

-- the profiles before the first that is not complete
abbrev pub complete_prefix : List Iptable → List Iptable
complete_prefix [] = []
complete_prefix (p ∷ ps) = if complete p then p ∷ complete_prefix ps else []

abbrev pub enabled_commands : List Iptable → List Text
enabled_commands [] = []
enabled_commands (p ∷ ps) =
    if p.enable then open_command p ∷ enabled_commands ps else enabled_commands ps

-- the commands of the enabled profiles before the first incomplete one
abbrev pub open_commands : List Iptable → List Text
open_commands ps = enabled_commands (complete_prefix ps)

abbrev pub dmz_commands : Iptable → List Text
dmz_commands d = if d.enable then dmz_command d ∷ [] else []

abbrev pub profiles_of : IptableNovaService → List Iptable
profiles_of s = elim s.port_profiles [ none ↦ [] | some ps ↦ ps ]

abbrev pub service_commands : List IptableNovaService → List Text
service_commands [] = []
service_commands (s ∷ ss) = open_commands (profiles_of s) ++ service_commands ss

-- The command fits `char cmd[200]`.
abbrev pub OpenFits : Iptable → Type 0
OpenFits p = length (open_command p) < 200

-- The commands fit `char cmd[200]` and `char tmp[200]`.
abbrev pub DmzFits : Iptable → Type 0
DmzFits d = (length (dmz_prefix d) < 200) × (length (dmz_command d) < 200)

-- A service has a list of profiles whose commands fit.
abbrev pub ServiceFits : IptableNovaService → Type 0
ServiceFits s = (ps : List Iptable) × (s.port_profiles ≡ some ps) × All OpenFits ps

pub execl_each_lem : (cmds : List Text) (w : World) → execl_each cmds w ≡ done success (ran cmds w)
unfolding execl_each execl_non_timeout
execl_each_lem [] w = ap (done success) (sym (ran_nothing w))
execl_each_lem (c ∷ cmds) w =
    execl_each_lem cmds (ran (c ∷ []) w) ∙ ap (done success) (ran-ran (c ∷ []) cmds w)

open_loop_lem :
    (ps : List Iptable) (w : World)
    → All OpenFits ps
    → open_loop ps w ≡ done success (ran (open_commands ps) w)
unfolding open_loop sprintf execl_non_timeout
open_loop_lem [] w fits = ap (done success) (sym (ran_nothing w))
open_loop_lem (p ∷ ps) w (fit, fits) = ground (
  arith,
  open_loop_lem ps w fits,
  open_loop_lem ps (ran (open_command p ∷ []) w) fits,
  ran-ran (open_command p ∷ []) (open_commands ps) w,
  ran_nothing w,
)

dmz_lem :
    (d : Iptable) (w : World)
    → DmzFits d
    → iptables_dnat_dmz_profiles_set d w ≡ done success (ran (dmz_commands d) w)
unfolding iptables_dnat_dmz_profiles_set sprintf execl_non_timeout
dmz_lem d w (fit, fit') = ground (arith, ran_nothing w)

profiles_lem :
    (s : IptableNovaService) (w : World)
    → ServiceFits s
    → iptables_open_port_profiles s.port_profiles w
      ≡ done success (ran (open_commands (profiles_of s)) w)
unfolding iptables_open_port_profiles
profiles_lem s w (ps, has, fit) = rw has (open_loop_lem ps w fit)

ServiceFits-HasProfiles : (ss : List IptableNovaService) → All ServiceFits ss → All HasProfiles ss
ServiceFits-HasProfiles [] fits = tt
ServiceFits-HasProfiles (s ∷ ss) ((ps, has, fit), fits) =
    ((ps, has), ServiceFits-HasProfiles ss fits)

open_services_lem :
    (ss : List IptableNovaService) (w : World)
    → All ServiceFits ss
    → open_services ss w ≡ done success (ran (service_commands ss) w)
unfolding open_services
open_services_lem [] w fits = ap (done success) (sym (ran_nothing w))
open_services_lem (s ∷ ss) w (fit, fits) =
    let first = open_commands (profiles_of s) in
    rw (profiles_lem s w fit, open_services_lem ss (ran first w) fits)
      (ap (done success) (ran-ran first (service_commands ss) w))

ran_five :
    (a b c d e : List Text) (w : World)
    → ran e (ran d (ran c (ran b (ran a w)))) ≡ ran (a ++ b ++ c ++ d ++ e) w
ran_five a b c d e w =
    rw
      (
        append_assoc w.executed a b,
        append_assoc w.executed (a ++ b) c,
        append_assoc w.executed (a ++ b ++ c) d,
        append_assoc w.executed (a ++ b ++ c ++ d) e,
      )
      refl

-- all commands of a refresh, oldest first
abbrev pub refresh_commands : Iptable → List Iptable → List IptableNovaService → List Text
refresh_commands dmz profiles services =
    iptables_default_setting_list
    ++ dmz_commands dmz
    ++ open_commands profiles
    ++ service_commands services
    ++ iptable_restrict_basic

module _ ⦃cj : CJson⦄ where
  open cj use {Json}

  -- The three setting files hold the zone, the forwarded profiles and the services, and the lock
  -- of the files is free.
  pub record HasFirewall (config : Config) (dmz : Iptable) (profiles : List Iptable)
      (services : List IptableNovaService) (w : World) : Type 0 where
    pub dmz_file : HasSetting config.iptables_dnat_dmz_setting_file (cvt_iptable_to_json dmz) w
    pub profiles_file :
        HasSetting config.iptables_dnat_forwarding_setting_file
          (cvt_iptable_list_to_json profiles)
          w
    pub services_file :
        (json : Json) × (cvt_iptable_nova_service_list_to_json services ≡ some json)
        × HasSetting config.iptables_nova_setting_file json w

  -- Every command of the settings fits its buffer, and every service has a list of profiles.
  abbrev pub FirewallFits : Iptable → List Iptable → List IptableNovaService → Type 0
  FirewallFits dmz profiles services =
      DmzFits dmz × All OpenFits profiles × All ServiceFits services

  module _ (config : Config) where
    pub dmz_request_found :
        (dmz : Iptable) (w : World)
        → HasSetting config.iptables_dnat_dmz_setting_file (cvt_iptable_to_json dmz) w
        → iptable_dnat_dmz_request_from_setting_file config w ≡ done dmz w
    unfolding iptable_dnat_dmz_request_from_setting_file
    dmz_request_found dmz w h = rw (load_found h, iptable_round_trip dmz)

    pub forwarding_request_found :
        (profiles : List Iptable) (w : World)
        → HasSetting config.iptables_dnat_forwarding_setting_file
            (cvt_iptable_list_to_json profiles)
            w
        → iptable_dnat_forwarding_request_from_setting_file config w ≡ done profiles w
    unfolding iptable_dnat_forwarding_request_from_setting_file
    forwarding_request_found profiles w h = rw (load_found h, iptable_list_round_trip profiles)

    services_read :
        (services : List IptableNovaService) (json : Json) (w : World)
        → All ServiceFits services
        → cvt_iptable_nova_service_list_to_json services ≡ some json
        → HasSetting config.iptables_nova_setting_file json w
        → iptable_nova_service_request_from_setting_file config w ≡ done services w
    unfolding iptable_nova_service_request_from_setting_file
    services_read services json w fits written h =
        rw (
          load_found h,
          nova_list_back services json (ServiceFits-HasProfiles services fits) written,
        )

    -- If the setting files hold the settings and every command fits its buffer, iptables_refresh
    -- succeeds and changes nothing but the rules: the shell is given the default rules, the
    -- redirection of an enabled zone, one opening for each enabled profile before the first
    -- incomplete one of its list, and last the policy that drops all other input.
    pub iptables_refresh_runs :
        (dmz : Iptable) (profiles : List Iptable) (services : List IptableNovaService) (w : World)
        → HasFirewall config dmz profiles services w
        → FirewallFits dmz profiles services
        → iptables_refresh config w ≡ done success (ran (refresh_commands dmz profiles services) w)
    unfolding iptables_refresh iptables_default_setting iptables_restrict_basic
        iptables_open_port_profiles iptable_dnat_dmz_reload_from_setting_file
        iptable_dnat_forwarding_reload_from_setting_file
        iptable_nova_service_reload_from_setting_file
    iptables_refresh_runs dmz profiles services w h (dmz_fits, open_fits, service_fits) =
        let a = iptables_default_setting_list in
        let b = dmz_commands dmz in
        let c = open_commands profiles in
        let d = service_commands services in
        let w1 = ran a w in
        let w2 = ran b w1 in
        let w3 = ran c w2 in
        let (json, written, file) = h.services_file in
        rw
          (
            execl_each_lem a w,
            dmz_request_found dmz w1 (HasSetting-ran a h.dmz_file),
            dmz_lem dmz w1 dmz_fits,
            forwarding_request_found profiles w2
                (HasSetting-ran b (HasSetting-ran a h.profiles_file)),
            open_loop_lem profiles w2 open_fits,
            services_read services json w3 service_fits written
                (HasSetting-ran c (HasSetting-ran b (HasSetting-ran a file))),
            open_services_lem services w3 service_fits,
            execl_each_lem iptable_restrict_basic (ran d w3),
          )
          (ap (done success) (ran_five a b c d iptable_restrict_basic w))
