-- ===== src/MqttBridge/Refined.antt =====
-- The bridge to the controller as a switch: what the operations answer in any order.
use noc_demo.Common.{
  ℕ, ◌≡◌, refl, ap, if◌then◌else◌, Bool, true, false, Option, none, some, List, [], ◌∷◌, ◌++◌, All,
  arith,
}
use noc_demo.Common.Texts.{Text, codes, text_eq_refl}
use noc_demo.MqttBridge.{
  MqttBridgeRet, mosquitto_success, mosquitto_client_bridge_existed,
  mosquitto_client_bridge_not_found, keep_before, client_lines, client_conf, ip_controller,
  mosquitto_file, request_mqtt_bridge_client, delete_mqtt_bridge_client, create_mqtt_bridge_client,
  add_client,
}
use noc_demo.MqttBridge.Client.{
  Lacks, split-bridged, connection_skips, connection_found, connection_absent, keep_before_skips,
  keep_before_found, added_lem, bridged, bridged_file, rewritten, rewrite_lem, request_lem,
  delete_lem,
}
use noc_demo.Utils.Split.{IsPiece, unlines, split-unlines}
use noc_demo.World.{World, done, Cmd, pure, ◌>>=◌, sprintf_fits}

pub data Op : Type 0 where
  create delete request : Op

pub data Reply : Type 0 where
  code : MqttBridgeRet → Reply
  address : Option Text → Reply

-- the operations of the program, one after the other
unfoldable pub perform : ℕ → Op → Cmd Reply
perform unset create = do ret ← create_mqtt_bridge_client unset; pure (code ret)
perform unset delete = do ret ← delete_mqtt_bridge_client unset; pure (code ret)
perform unset request = do ip ← request_mqtt_bridge_client unset; pure (address ip)

unfoldable pub perform_all : ℕ → List Op → Cmd (List Reply)
perform_all unset [] = pure []
perform_all unset (op ∷ ops) = do
  reply ← perform unset op
  replies ← perform_all unset ops
  pure (reply ∷ replies)

-- the operations of a switch: the reply, and whether the bridge is there afterwards
unfoldable pub switch : Op → Bool → Reply × Bool
switch create true = (code mosquitto_client_bridge_existed, true)
switch create false = (code mosquitto_success, true)
switch delete true = (code mosquitto_success, false)
switch delete false = (code mosquitto_client_bridge_not_found, false)
switch request true = (address (some ip_controller), true)
switch request false = (address none, false)

unfoldable pub switch_all : List Op → Bool → List Reply × Bool
switch_all [] up = ([], up)
switch_all (op ∷ ops) up =
    let rest = switch_all ops (switch op up).1 in ((switch op up).0 ∷ rest.0, rest.1)

abbrev pub text_of : List Text → Bool → Text
text_of ls true = unlines ls ++ client_conf
text_of ls false = unlines ls

-- The configuration is that of a switch behind the lines `ls`.
pub record Represents (ls : List Text) (up : Bool) (w : World) : Type 0 where
  pub free : w.locked ≡ false
  pub writable : w.writable mosquitto_file ≡ true
  pub text : w.files mosquitto_file ≡ some (text_of ls up)

-- lines that no operation takes for a part of the bridge
pub record Plain (ls : List Text) : Type 0 where
  pub lines : All (IsPiece 0x0a) ls
  pub no_address : Lacks (codes "address") ls
  pub no_connection : Lacks (codes "connection") ls

Stepped : ℕ → Op → List Text → Bool → World → Type 0
Stepped unset op ls up w =
    (w' : World) × (perform unset op w ≡ done (switch op up).0 w')
    × Represents ls (switch op up).1 w'

keep_before_absent :
    (before ls : List Text) (w : World)
    → Lacks (codes "connection") ls
    → keep_before (codes "connection") before ls w ≡ done mosquitto_client_bridge_not_found w
unfolding keep_before
keep_before_absent before [] w h = refl
keep_before_absent before (l ∷ ls) w (absent, h) =
    rw absent (keep_before_absent (before ++ l ∷ []) ls w h)

module _ (unset : ℕ) (l : Text) (ls : List Text) (plain : Plain (l ∷ ls)) where
  request_up :
      (w : World)
      → Represents (l ∷ ls) true w
      → request_mqtt_bridge_client unset w ≡ done (some ip_controller) w
  request_up w r = rw (
    request_lem unset (unlines (l ∷ ls) ++ client_conf) l (ls ++ client_lines) w r.free r.text
        (split-bridged (l ∷ ls) plain.lines),
    connection_skips (l ∷ ls) client_lines plain.no_address,
    connection_found,
  )

  request_down :
      (w : World) → Represents (l ∷ ls) false w → request_mqtt_bridge_client unset w ≡ done none w
  request_down w r = rw (
    request_lem unset (unlines (l ∷ ls)) l ls w r.free r.text (split-unlines (l ∷ ls) plain.lines),
    connection_absent (l ∷ ls) w plain.no_address,
  )

  delete_up :
      (w : World)
      → Represents (l ∷ ls) true w
      → delete_mqtt_bridge_client unset w ≡ done mosquitto_success (rewritten (l ∷ ls) w)
  delete_up w r =
      rw
        (
          delete_lem unset (unlines (l ∷ ls) ++ client_conf) l (ls ++ client_lines) w r.free r.text
              (split-bridged (l ∷ ls) plain.lines),
          keep_before_skips [] (l ∷ ls) client_lines plain.no_connection,
          keep_before_found (l ∷ ls),
        )
        (rewrite_lem (l ∷ ls) w r.writable)

  delete_down :
      (w : World)
      → Represents (l ∷ ls) false w
      → delete_mqtt_bridge_client unset w ≡ done mosquitto_client_bridge_not_found w
  delete_down w r = rw (
    delete_lem unset (unlines (l ∷ ls)) l ls w r.free r.text (split-unlines (l ∷ ls) plain.lines),
    keep_before_absent [] (l ∷ ls) w plain.no_connection,
  )

  step_lem :
      (op : Op) (up : Bool) (w : World) → Represents (l ∷ ls) up w → Stepped unset op (l ∷ ls) up w
  unfolding Stepped perform switch create_mqtt_bridge_client add_client
  step_lem create true w r = (w, rw (request_up w r), r)
  step_lem create false w r = (
    bridged (l ∷ ls) w,
    rw (
      request_down w r,
      sprintf_fits 1024 client_conf w (omega arith),
      added_lem (l ∷ ls) w r.free r.writable r.text,
    ),
    record { free = r.free; writable = r.writable; text = bridged_file (l ∷ ls) w },
  )
  step_lem delete true w r = (
    rewritten (l ∷ ls) w,
    rw (delete_up w r),
    record {
      free = r.free;
      writable = r.writable;
      text = ap (λ b. if b then some (unlines (l ∷ ls)) else none) (text_eq_refl mosquitto_file);
    },
  )
  step_lem delete false w r = (w, rw (delete_down w r), r)
  step_lem request true w r = (w, rw (request_up w r), r)
  step_lem request false w r = (w, rw (request_down w r), r)

  -- If the configuration of the broker has at least one line, none that is empty and, but in
  -- comments, none with the words `address` and `connection`, with the bridge to the controller
  -- behind them or not, the lock is free and the file can be written, any sequence of creations,
  -- deletions and requests answers what a switch answers, and leaves the configuration of the
  -- switch: the same lines, and behind them the bridge where the switch is on.
  pub client_is_switch :
      (ops : List Op) (up : Bool) (w : World)
      → Represents (l ∷ ls) up w
      → (w' : World) × (perform_all unset ops w ≡ done (switch_all ops up).0 w')
        × Represents (l ∷ ls) (switch_all ops up).1 w'
  unfolding perform_all switch_all Stepped
  client_is_switch [] up w r = (w, refl, r)
  client_is_switch (op ∷ ops) up w r =
      let (w1, performed, r1) = step_lem op up w r in
      let (w2, rest, r2) = client_is_switch ops (switch op up).1 w1 r1 in
      (w2, rw (performed, rest), r2)
