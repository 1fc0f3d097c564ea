-- ===== src/Network/Iptables/Forwarding/Removes.antt =====
-- What deleting forwarded ports leaves in the setting file and in the rules.
use noc_demo.Common.{
  ℕ, ◌+◌, ◌≤◌, ◌≡◌, refl, ◌||◌, if◌then◌else◌, Bool, true, false, List, [], ◌∷◌, All, arith,
}
use noc_demo.Common.Texts.{strstr_found}
use noc_demo.CJson.Base.{CJson}
use noc_demo.Config.{Config}
use noc_demo.Network.Iptables.Defs.{Iptable, IptableNovaService}
use noc_demo.Network.Iptables.Refresh.{HasFirewall, FirewallFits, forwarding_request_found}
use noc_demo.Network.Iptables.Forwarding.{
  delete_first, delete_profiles, found_result, iptables_dnat_forwarding_delete,
}
use noc_demo.Network.Iptables.Forwarding.Stores.{
  PathsDiffer, has_match, refreshed, save_and_refresh_lem,
}
use noc_demo.World.{World, done}

-- Does a profile of the request name this one?
abbrev pub named : List Iptable → Iptable → Bool
named [] p = false
named (d ∷ ds) p = strstr_found d.id p.id || named ds p

-- the stored profiles that no profile of the request names
abbrev pub unnamed : List Iptable → List Iptable → List Iptable
unnamed ds [] = []
unnamed ds (p ∷ ps) = if named ds p then unnamed ds ps else p ∷ unnamed ds ps

-- Does a profile of the request name any stored one?
abbrev pub any_named : List Iptable → List Iptable → Bool
any_named ds [] = false
any_named ds (p ∷ ps) = named ds p || any_named ds ps

-- how many stored profiles `d` names
abbrev pub matches : Iptable → List Iptable → ℕ
matches d [] = 0
matches d (p ∷ ps) = if strstr_found d.id p.id then 1 + matches d ps else matches d ps

-- The profile names at most one stored profile.
abbrev pub NamesOne : List Iptable → Iptable → Type 0
NamesOne stored d = matches d stored ≤ 1

keep : Iptable → List Iptable → List Iptable
keep d [] = []
keep d (p ∷ ps) = if strstr_found d.id p.id then keep d ps else p ∷ keep d ps

keep_all : (d : Iptable) (ps : List Iptable) → matches d ps ≡ 0 → keep d ps ≡ ps
unfolding keep
keep_all d [] none_named = refl
keep_all d (p ∷ ps) none_named = ground (arith, keep_all d ps)

delete_first_lem :
    (d : Iptable) (ps : List Iptable)
    → matches d ps ≤ 1
    → delete_first d ps ≡ (has_match d ps, keep d ps)
unfolding delete_first keep
delete_first_lem d [] one = refl
delete_first_lem d (p ∷ ps) one = ground (arith, delete_first_lem d ps, keep_all d ps)

matches-keep : (d e : Iptable) (ps : List Iptable) → matches e (keep d ps) ≤ matches e ps
unfolding keep
matches-keep d e [] = omega arith
matches-keep d e (p ∷ ps) = ground (arith, matches-keep d e ps)

NamesOne-keep :
    (d : Iptable) (ds ps : List Iptable) → All (NamesOne ps) ds → All (NamesOne (keep d ps)) ds
NamesOne-keep d [] ps ones = tt
NamesOne-keep d (e ∷ ds) ps (one, ones) =
    let fewer = matches-keep d e ps in (omega (arith, fewer, one), NamesOne-keep d ds ps ones)

unnamed-keep : (d : Iptable) (ds ps : List Iptable) → unnamed ds (keep d ps) ≡ unnamed (d ∷ ds) ps
unfolding keep
unnamed-keep d ds [] = refl
unnamed-keep d ds (p ∷ ps) = ground (arith, unnamed-keep d ds ps)

any_named-keep :
    (d : Iptable) (ds ps : List Iptable)
    → (has_match d ps || any_named ds (keep d ps)) ≡ any_named (d ∷ ds) ps
unfolding keep
any_named-keep d ds [] = refl
any_named-keep d ds (p ∷ ps) = ground (arith, any_named-keep d ds ps)

unnamed_none : (ps : List Iptable) → unnamed [] ps ≡ ps
unnamed_none [] = refl
unnamed_none (p ∷ ps) = ground (arith, unnamed_none ps)

any_named_none : (ps : List Iptable) → any_named [] ps ≡ false
any_named_none [] = refl
any_named_none (p ∷ ps) = any_named_none ps

-- If each profile of the request names at most one stored profile, the loops of the deletion keep
-- exactly the stored profiles that are not named.
delete_profiles_lem :
    (ds stored : List Iptable)
    → All (NamesOne stored) ds
    → delete_profiles ds stored ≡ (any_named ds stored, unnamed ds stored)
unfolding delete_profiles
delete_profiles_lem [] stored ones = rw (any_named_none stored, unnamed_none stored) refl
delete_profiles_lem (d ∷ ds) stored (one, ones) =
    rw
      (
        delete_first_lem d stored one,
        delete_profiles_lem ds (keep d stored) (NamesOne-keep d ds stored ones),
        any_named-keep d ds stored,
        unnamed-keep d ds stored,
      )
      refl

module _ ⦃cj : CJson⦄ where
  -- If the setting files hold the settings, the file of the ports can be written and is not one of
  -- the others, each profile of the request names at most one stored profile, and every command of
  -- what remains fits its buffer, deleting forwarded ports keeps exactly the profiles that the
  -- request does not name, in their order: this list is returned and stored, the rules are made anew
  -- from it, and the code is success if any was named and the mismatch of identifiers otherwise.
  pub forwarding_delete_removes :
      (config : Config) (dmz : Iptable) (ds old : List Iptable) (services : List IptableNovaService)
      (w : World)
      → PathsDiffer config
      → HasFirewall config dmz old services w
      → w.writable config.iptables_dnat_forwarding_setting_file ≡ true
      → All (NamesOne old) ds
      → FirewallFits dmz (unnamed ds old) services
      → iptables_dnat_forwarding_delete config ds w
        ≡ done
            (found_result (any_named ds old), unnamed ds old)
            (refreshed config dmz (unnamed ds old) services w)
  unfolding iptables_dnat_forwarding_delete
  forwarding_delete_removes config dmz ds old services w differ h ok ones fits = rw (
    forwarding_request_found config old w h.profiles_file,
    delete_profiles_lem ds old ones,
    save_and_refresh_lem config dmz old (unnamed ds old) services (found_result (any_named ds old))
        w differ h ok fits,
  )
