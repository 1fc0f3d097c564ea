-- ===== src/Network/Route/Delete.antt =====
-- What route_delete leaves in the setting file.
pub mod Single
use noc_demo.Common.{
  ℕ, zero, suc, ◌≤◌, ◌-◌, ◌+◌, ◌<◌, ◌≡◌, refl, ◌∙◌, ap, true, false, Bool, ◌||◌, if◌then◌else◌, inl,
  inr, Bool-cases, List, [], ◌∷◌, ◌++◌, append_assoc, append-nil, length, take, length-append, All,
  arith,
}
use noc_demo.Common.Texts.{Text, codes, strstr_found}
use noc_demo.CJson.Base.{CJson}
use noc_demo.Config.{Config}
use noc_demo.ErrorCode.{ErrorCode, success, id_mismatched}
use noc_demo.Network.Route.Defs.{Route}
use noc_demo.Network.Route.Codec.{cvt_route_list_to_json}
use noc_demo.Network.Route.Create.{HasRoutes, request_found, save_routes}
use noc_demo.Network.Route.Ops.{
  del_command, shift_down, delete_here, delete_one, delete_all, route_delete,
}
use noc_demo.Settings.{saved, HasSetting-saved}
use noc_demo.Utils.Shell.{execl_non_timeout}
use noc_demo.World.{World, done, sprintf, ran}

abbrev pub DelFits : Route → Type 0
DelFits route = length (del_command route) < 200

abbrev pub has_match : Route → List Route → Bool
has_match d [] = false
has_match d (r ∷ rest) = strstr_found d.id r.id || has_match d rest

-- Does some route of the request name a stored one?
abbrev pub requested : List Route → List Route → Bool
requested [] stored = false
requested (d ∷ ds) stored = has_match d stored || requested ds stored

-- the buffer after one route of the request
removed : Route → List Route → List Route
removed d [] = []
removed d (r ∷ rest) =
    let kept = r ∷ removed d rest in if strstr_found d.id r.id then shift_down (r ∷ rest) else kept

abbrev commands_of : Route → List Route → List Text
commands_of d buffer = if has_match d buffer then del_command d ∷ [] else []

delete_one_lem :
    (d : Route) (buffer : List Route) (w : World)
    → DelFits d
    → delete_one d buffer w
      ≡ done (has_match d buffer, removed d buffer) (ran (commands_of d buffer) w)
unfolding delete_one delete_here removed sprintf execl_non_timeout
delete_one_lem d [] w fit = ground (arith, append-nil w.executed)
delete_one_lem d (r ∷ rest) w fit = ground (arith, delete_one_lem d rest w fit)

found_any : List Route → List Route → Bool
found_any [] buffer = false
found_any (d ∷ ds) buffer = has_match d buffer || found_any ds (removed d buffer)

buffer_after : List Route → List Route → List Route
buffer_after [] buffer = buffer
buffer_after (d ∷ ds) buffer = buffer_after ds (removed d buffer)

pub delete_commands : List Route → List Route → List Text
delete_commands [] buffer = []
delete_commands (d ∷ ds) buffer = commands_of d buffer ++ delete_commands ds (removed d buffer)

or_assoc : (a b c : Bool) → ((a || b) || c) ≡ (a || (b || c))
or_assoc a b c = ground arith

delete_all_lem :
    (ds : List Route) (found : Bool) (buffer : List Route) (w : World)
    → All DelFits ds
    → delete_all ds found buffer w
      ≡ done
          (found || found_any ds buffer, buffer_after ds buffer)
          (ran (delete_commands ds buffer) w)
unfolding delete_all found_any buffer_after delete_commands
delete_all_lem [] found buffer w fits = ground (arith, append-nil w.executed)
delete_all_lem (d ∷ ds) found buffer w (fit, fits) = rw (
  delete_one_lem d buffer w fit,
  delete_all_lem ds (found || has_match d buffer) (removed d buffer) (ran (commands_of d buffer) w)
      fits,
  or_assoc,
  append_assoc,
)

removed_miss :
    (d : Route) (buffer : List Route) → has_match d buffer ≡ false → removed d buffer ≡ buffer
unfolding removed
removed_miss d [] h = refl
removed_miss d (r ∷ rest) h = ground (arith, removed_miss d rest)

found_any-requested : (ds buffer : List Route) → found_any ds buffer ≡ requested ds buffer
unfolding found_any
found_any-requested [] buffer = refl
found_any-requested (d ∷ ds) buffer =
    ground (arith, removed_miss d buffer, found_any-requested ds buffer)

length-shift_down : (buffer : List Route) → length (shift_down buffer) ≡ length buffer
unfolding shift_down
length-shift_down [] = refl
length-shift_down (r ∷ []) = refl
length-shift_down (r ∷ s ∷ rest) = ap suc (length-shift_down (s ∷ rest))

length-removed : (d : Route) (buffer : List Route) → length (removed d buffer) ≡ length buffer
unfolding removed
length-removed d [] = refl
length-removed d (r ∷ rest) = ground (arith, length-removed d rest, length-shift_down (r ∷ rest))

length-buffer_after : (ds buffer : List Route) → length (buffer_after ds buffer) ≡ length buffer
unfolding buffer_after
length-buffer_after [] buffer = refl
length-buffer_after (d ∷ ds) buffer =
    length-buffer_after ds (removed d buffer) ∙ length-removed d buffer

-- what route_delete returns and stores
pub remained : List Route → List Route → List Route
remained ds old =
    take (if requested ds old then length old - 1 else length old) (buffer_after ds old)

abbrev pub answer : Bool → ErrorCode
answer true = success
answer false = id_mismatched

module _ ⦃cj : CJson⦄ (config : Config) where
  route_delete_lem :
      (ds old : List Route) (w : World)
      → HasRoutes config old w
      → w.writable config.route_setting_file ≡ true
      → All DelFits ds
      → route_delete config ds w
        ≡ done
            (answer (requested ds old), remained ds old)
            (saved config.route_setting_file
              (cvt_route_list_to_json (remained ds old))
              (ran (delete_commands ds old) w))
  unfolding route_delete remained
  route_delete_lem ds old w h ok fits = rw (
    request_found config old w h,
    delete_all_lem ds false old w fits,
    found_any-requested ds old,
    save_routes config (remained ds old) (ran (delete_commands ds old) w) h.free ok,
  )

  length-take_le : (n : ℕ) (xs : List Route) → n ≤ length xs → length (take n xs) ≡ n
  length-take_le zero xs h = refl
  length-take_le (suc n) [] h = absurd (omega arith)
  length-take_le (suc n) (x ∷ xs) h = ap suc (length-take_le n xs (omega arith))

  length-remained :
      (ds old : List Route)
      → length (remained ds old) ≡ (if requested ds old then length old - 1 else length old)
  unfolding remained
  length-remained ds old =
      length-take_le (if requested ds old then length old - 1 else length old) (buffer_after ds old)
        (ground (arith, length-buffer_after ds old))

  -- If the setting file can be read and written and every command fits its buffer, route_delete
  -- returns, and however many stored routes the request names, the list that it returns and stores
  -- is one shorter when it names any, and as long as before when it names none; the code is
  -- success in the first case and the mismatch of identifiers in the second.
  pub route_delete_counts :
      (ds old : List Route) (w : World)
      → HasRoutes config old w
      → w.writable config.route_setting_file ≡ true
      → All DelFits ds
      → (rest : List Route) × (w' : World) × (route_delete config ds w
          ≡ done (answer (requested ds old), rest) w')
        × HasRoutes config rest w'
        × (length rest ≡ (if requested ds old then length old - 1 else length old))
  route_delete_counts ds old w h ok fits =
      let later = ran (delete_commands ds old) w in
      (
        remained ds old,
        saved config.route_setting_file (cvt_route_list_to_json (remained ds old)) later,
        route_delete_lem ds old w h ok fits,
        HasSetting-saved config.route_setting_file _ later h.free,
        length-remained ds old,
      )
