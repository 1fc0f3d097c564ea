-- ===== src/Network/Route/Delete/Single.antt =====
-- A request of route_delete for one route: the first stored route that it names goes.
use noc_demo.Common.{
  ℕ, zero, suc, ◌≡◌, refl, ap, true, false, List, [], ◌∷◌, ◌++◌, append_assoc, length, take,
  length-append, arith,
}
use noc_demo.Common.Texts.{strstr_found}
use noc_demo.CJson.Base.{CJson}
use noc_demo.Config.{Config}
use noc_demo.ErrorCode.{success}
use noc_demo.Network.Route.Defs.{Route}
use noc_demo.Network.Route.Codec.{cvt_route_list_to_json}
use noc_demo.Network.Route.Create.{HasRoutes}
use noc_demo.Network.Route.Delete.{
  DelFits, has_match, removed, buffer_after, remained, delete_commands, route_delete_lem, requested,
  answer,
}
use noc_demo.Network.Route.Ops.{del_command, shift_down, route_delete}
use noc_demo.Settings.{saved}
use noc_demo.World.{ran, World, done}

removed_first :
    (d r : Route) (before after : List Route)
    → has_match d before ≡ false
    → strstr_found d.id r.id ≡ true
    → removed d (before ++ r ∷ after) ≡ before ++ shift_down (r ∷ after)
unfolding removed
removed_first d r [] after miss hit = ground arith
removed_first d r (b ∷ before) after miss hit = ground (arith, removed_first d r before after)

abbrev last_of : Route → List Route → Route
last_of r [] = r
last_of r (s ∷ rest) = last_of s rest

shift_down-cons :
    (r : Route) (after : List Route) → shift_down (r ∷ after) ≡ after ++ last_of r after ∷ []
unfolding shift_down
shift_down-cons r [] = refl
shift_down-cons r (s ∷ after) = ap (λ l. s ∷ l) (shift_down-cons s after)

take-append : (xs ys : List Route) (n : ℕ) → n ≡ length xs → take n (xs ++ ys) ≡ xs
take-append [] ys zero h = refl
take-append [] ys (suc n) h = absurd (omega arith)
take-append (x ∷ xs) ys zero h = absurd (omega arith)
take-append (x ∷ xs) ys (suc n) h = ap (λ l. x ∷ l) (take-append xs ys n (omega arith))

has_match-append :
    (d r : Route) (before after : List Route)
    → strstr_found d.id r.id ≡ true
    → has_match d (before ++ r ∷ after) ≡ true
has_match-append d r [] after hit = ground arith
has_match-append d r (b ∷ before) after hit = ground (arith, has_match-append d r before after)

remained_one :
    (d r : Route) (before after : List Route)
    → has_match d before ≡ false
    → strstr_found d.id r.id ≡ true
    → remained (d ∷ []) (before ++ r ∷ after) ≡ before ++ after
unfolding remained buffer_after
remained_one d r before after miss hit =
    rw
      (
        has_match-append d r before after hit,
        removed_first d r before after miss hit,
        shift_down-cons r after,
        ← append_assoc before after (last_of r after ∷ []),
      )
      (take-append (before ++ after) (last_of r after ∷ []) _
        (omega (arith, length-append before (r ∷ after), length-append before after)))

delete_commands_one :
    (d r : Route) (before after : List Route)
    → strstr_found d.id r.id ≡ true
    → delete_commands (d ∷ []) (before ++ r ∷ after) ≡ del_command d ∷ []
unfolding delete_commands
delete_commands_one d r before after hit = rw (has_match-append d r before after hit)

requested_one :
    (d r : Route) (before after : List Route)
    → strstr_found d.id r.id ≡ true
    → requested (d ∷ []) (before ++ r ∷ after) ≡ true
requested_one d r before after hit = rw (has_match-append d r before after hit)

module _ ⦃cj : CJson⦄ (config : Config) where
  -- A request for one route, whose identifier contains that of the stored route `r` and of none
  -- before it, succeeds if the setting file can be read and written and the command fits its buffer:
  -- `r` alone leaves the list, the others keep their order, and one `ip route del` runs, with the
  -- fields of the request.
  pub route_delete_single :
      (d r : Route) (before after : List Route) (w : World)
      → HasRoutes config (before ++ r ∷ after) w
      → w.writable config.route_setting_file ≡ true
      → DelFits d
      → has_match d before ≡ false
      → strstr_found d.id r.id ≡ true
      → route_delete config (d ∷ []) w
        ≡ done
            (success, before ++ after)
            (saved config.route_setting_file
              (cvt_route_list_to_json (before ++ after))
              (ran (del_command d ∷ []) w))
  route_delete_single d r before after w h ok fit miss hit =
      rw
        (
          ← remained_one d r before after miss hit,
          ← delete_commands_one d r before after hit,
          ← ap answer (requested_one d r before after hit),
        )
        (route_delete_lem config (d ∷ []) (before ++ r ∷ after) w h ok (fit, tt))
