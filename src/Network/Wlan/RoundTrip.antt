-- ===== src/Network/Wlan/RoundTrip.antt =====
-- A wireless setting is read back from the JSON that it is written as.
use noc_demo.Common.{◌≡◌, refl, some}
use noc_demo.Common.Int.{IsInt}
use noc_demo.Common.Texts.{codes}
use noc_demo.CJson.Base.{CJson}
use noc_demo.CJson.Nested.{read_object-member}
use noc_demo.CJson.Object.{read_string-member, read_int-member, kind-object_of}
use noc_demo.Network.Wlan.{
  WifiIface, WifiSetting, Wireless, wifi_iface_members, cvt_wifi_iface_to_json,
  cvt_json_to_wifi_iface, wifi_setting_members, cvt_wifi_setting_to_json, cvt_json_to_wifi_setting,
  wireless_members, cvt_wireless_to_json, cvt_json_to_wireless,
}

module _ ⦃cj : CJson⦄ where
  wifi_iface_round_trip :
      (w : WifiIface) → cvt_json_to_wifi_iface (some (cvt_wifi_iface_to_json w)) ≡ w
  unfolding cvt_wifi_iface_to_json cvt_json_to_wifi_iface
  wifi_iface_round_trip w =
      let ms = wifi_iface_members w in
      λ i. record {
        ssid = read_string-member ms (codes "ssid") w.ssid refl i;
        key = read_string-member ms (codes "key") w.key refl i;
      }

  -- A wireless setting is read back from its JSON object, a NULL interface included.
  pub wireless_round_trip :
      (w : Wireless) → cvt_json_to_wireless (some (cvt_wireless_to_json w)) ≡ w
  unfolding cvt_wireless_to_json cvt_json_to_wireless cvt_wifi_iface_to_json
  wireless_round_trip w =
      let ms = wireless_members w in
      λ i. record {
        wifi_iface =
            read_object-member cvt_json_to_wifi_iface cvt_wifi_iface_to_json ms (codes "wifi_iface")
              w.wifi_iface (λ a. kind-object_of (wifi_iface_members a))
              (λ a _. wifi_iface_round_trip a) refl i;
      }

  -- A radio setting whose numbers are machine integers is read back from its JSON object.
  pub wifi_setting_round_trip :
      (w : WifiSetting)
      → IsInt w.channel
      → IsInt w.txpower
      → cvt_json_to_wifi_setting (some (cvt_wifi_setting_to_json w)) ≡ w
  unfolding cvt_wifi_setting_to_json cvt_json_to_wifi_setting
  wifi_setting_round_trip w channel_fits txpower_fits =
      let ms = wifi_setting_members w in
      λ i. record {
        country = read_string-member ms (codes "country") w.country refl i;
        channel = read_int-member ms (codes "channel") w.channel channel_fits refl i;
        txpower = read_int-member ms (codes "txpower") w.txpower txpower_fits refl i;
      }
