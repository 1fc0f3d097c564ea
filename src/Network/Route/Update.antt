-- ===== src/Network/Route/Update.antt =====
-- What route_update leaves in the setting file and in the kernel.
use noc_demo.Common.{
  ◌≡◌, refl, true, false, Bool, ◌||◌, if◌then◌else◌, Bool-cases, inl, inr, List, [], ◌∷◌, ◌++◌,
  append_assoc, append-nil, All, arith,
}
use noc_demo.Common.Texts.{Text, strstr_found}
use noc_demo.CJson.Base.{CJson}
use noc_demo.Config.{Config}
use noc_demo.ErrorCode.{success, id_mismatched}
use noc_demo.Network.Route.Defs.{Route}
use noc_demo.Network.Route.Codec.{cvt_route_list_to_json}
use noc_demo.Network.Route.Create.{AddFits, HasRoutes, request_found, save_routes}
use noc_demo.Network.Route.Delete.{DelFits, has_match, requested}
use noc_demo.Network.Route.Ops.{
  add_command, del_command, update_here, update_one, update_all, finish_update, route_update,
}
use noc_demo.Settings.{saved}
use noc_demo.Utils.Shell.{execl_non_timeout, execl_timeout}
use noc_demo.World.{ran, World, done, sprintf}

-- the first stored route that `u` names, replaced by `u`
abbrev pub replaced : Route → List Route → List Route
replaced u [] = []
replaced u (r ∷ rest) = if strstr_found u.id r.id then u ∷ rest else r ∷ replaced u rest

abbrev pub replaced_all : List Route → List Route → List Route
replaced_all [] stored = stored
replaced_all (u ∷ us) stored = replaced_all us (replaced u stored)

abbrev pub commands_of : Route → List Route → List Text
commands_of u [] = []
commands_of u (r ∷ rest) =
    if strstr_found u.id r.id then del_command r ∷ add_command u ∷ [] else commands_of u rest

abbrev pub update_commands : List Route → List Route → List Text
update_commands [] stored = []
update_commands (u ∷ us) stored = commands_of u stored ++ update_commands us (replaced u stored)

-- Both commands of a route fit `char cmd[200]`.
abbrev pub Fits : Route → Type 0
Fits r = DelFits r × AddFits r

update_one_lem :
    (u : Route) (stored : List Route) (w : World)
    → Fits u
    → All DelFits stored
    → update_one u stored w
      ≡ done (has_match u stored, replaced u stored) (ran (commands_of u stored) w)
unfolding update_one update_here sprintf execl_non_timeout execl_timeout
update_one_lem u [] w fit fits = ground (arith, append-nil w.executed)
update_one_lem u (r ∷ rest) w fit (fit_r, fits) = ground (
  arith,
  update_one_lem u rest w fit fits,
  append_assoc w.executed (del_command r ∷ []) (add_command u ∷ []),
)

replaced-All :
    (u : Route) (stored : List Route)
    → Fits u
    → All DelFits stored
    → All DelFits (replaced u stored)
replaced-All u [] fit fits = tt
replaced-All u (r ∷ rest) fit (fit_r, fits) = elim (Bool-cases (strstr_found u.id r.id)) [
  | inl hit ↦ rw hit (fit.0, fits)
  | inr miss ↦ rw miss (fit_r, replaced-All u rest fit fits)
]

replaced_miss :
    (u : Route) (stored : List Route) → has_match u stored ≡ false → replaced u stored ≡ stored
replaced_miss u [] h = refl
replaced_miss u (r ∷ rest) h = ground (arith, replaced_miss u rest)

found_any : List Route → List Route → Bool
found_any [] stored = false
found_any (u ∷ us) stored = has_match u stored || found_any us (replaced u stored)

found_any-requested : (us stored : List Route) → found_any us stored ≡ requested us stored
unfolding found_any
found_any-requested [] stored = refl
found_any-requested (u ∷ us) stored =
    ground (arith, replaced_miss u stored, found_any-requested us stored)

or_assoc : (a b c : Bool) → ((a || b) || c) ≡ (a || (b || c))
or_assoc a b c = ground arith

update_all_lem :
    (us : List Route) (found : Bool) (stored : List Route) (w : World)
    → All Fits us
    → All DelFits stored
    → update_all us found stored w
      ≡ done
          (found || found_any us stored, replaced_all us stored)
          (ran (update_commands us stored) w)
unfolding update_all found_any
update_all_lem [] found stored w fits h = ground (arith, append-nil w.executed)
update_all_lem (u ∷ us) found stored w (fit, fits) h = rw (
  update_one_lem u stored w fit h,
  update_all_lem us (found || has_match u stored) (replaced u stored) (ran (commands_of u stored) w)
      fits (replaced-All u stored fit h),
  or_assoc,
  append_assoc,
)

module _ ⦃cj : CJson⦄ (config : Config) where
  -- If some stored route is named and the setting file can be read and written and every command
  -- fits its buffer, route_update succeeds: each named route is replaced in its place, the new list
  -- is stored, and the kernel got one removal by the stored fields and one addition for each.
  pub route_update_stores :
      (us old : List Route) (w : World)
      → HasRoutes config old w
      → w.writable config.route_setting_file ≡ true
      → All Fits us
      → All DelFits old
      → requested us old ≡ true
      → route_update config us w
        ≡ done
            (success, replaced_all us old)
            (saved config.route_setting_file
              (cvt_route_list_to_json (replaced_all us old))
              (ran (update_commands us old) w))
  unfolding route_update finish_update
  route_update_stores us old w h ok fits old_fits hit = rw (
    request_found config old w h,
    update_all_lem us false old w fits old_fits,
    found_any-requested us old,
    hit,
    save_routes config (replaced_all us old) (ran (update_commands us old) w) h.free ok,
  )

  update_one_miss :
      (u : Route) (stored : List Route) (w : World)
      → has_match u stored ≡ false
      → update_one u stored w ≡ done (false, stored) w
  unfolding update_one
  update_one_miss u [] w miss = refl
  update_one_miss u (r ∷ rest) w miss = ground (arith, update_one_miss u rest w)

  update_all_miss :
      (us stored : List Route) (w : World)
      → requested us stored ≡ false
      → update_all us false stored w ≡ done (false, stored) w
  unfolding update_all
  update_all_miss [] stored w miss = refl
  update_all_miss (u ∷ us) stored w miss =
      ground (arith, update_one_miss u stored w, update_all_miss us stored w)

  -- If the setting file can be read and no stored route is named, route_update reports the mismatch,
  -- returns the stored list, runs no command and writes nothing.
  pub route_update_mismatch :
      (us old : List Route) (w : World)
      → HasRoutes config old w
      → requested us old ≡ false
      → route_update config us w ≡ done (id_mismatched, old) w
  unfolding route_update finish_update
  route_update_mismatch us old w h miss =
      rw (request_found config old w h, update_all_miss us old w miss)
