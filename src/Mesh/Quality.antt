-- ===== src/Mesh/Quality.antt =====
-- src/core/mesh/quality/quality.c: the quality of the links of the mesh and its JSON.
use noc_demo.Common.{◌≡◌, refl, ap, Bool, Option, none, some, List, [], ◌∷◌, map, All}
use noc_demo.Common.Int.{ℤ, IsInt}
use noc_demo.Common.Texts.{Text, codes}
use noc_demo.CJson.Base.{CJson}
use noc_demo.CJson.Array.{array_of, read_array, read_array-map_if}
use noc_demo.CJson.Nested.{read_list, read_list-member, array_or_null}
use noc_demo.CJson.Object.{
  Members, object_of, string_item, number_item, bool_item, read_string, read_int, read_bool,
  read_string-member, read_int-member, read_bool-member, get_item-object_of, is_array,
}

pub record Quality : Type 0 where
  pub dest_link : Option Text
  pub channel : ℤ
  pub up_link : Bool
  pub down_link : Bool
  pub tx_link : ℤ
  pub snr : ℤ
  pub noise_floor : ℤ
  pub tx_total : ℤ
  pub rx_total : ℤ

pub record QualityProfile : Type 0 where
  pub src_link : Option Text
  pub quality_list : List Quality

-- All numbers are machine integers.
abbrev pub QualityFits : Quality → Type 0
QualityFits q =
    IsInt q.channel
    × IsInt q.tx_link
    × IsInt q.snr
    × IsInt q.noise_floor
    × IsInt q.tx_total
    × IsInt q.rx_total

abbrev pub ProfileFits : QualityProfile → Type 0
ProfileFits p = All QualityFits p.quality_list

-- `calloc` leaves an empty list where there is none to read.
abbrev list_or_empty : Option (List Quality) → List Quality
list_or_empty none = []
list_or_empty (some qs) = qs

module _ ⦃cj : CJson⦄ where
  open cj use {Json}

  abbrev pub quality_members : Quality → Members
  quality_members q =
      (codes "dest_link", string_item q.dest_link)
      ∷ (codes "channel", number_item q.channel)
      ∷ (codes "up_link", bool_item q.up_link)
      ∷ (codes "down_link", bool_item q.down_link)
      ∷ (codes "tx_link", number_item q.tx_link)
      ∷ (codes "snr", number_item q.snr)
      ∷ (codes "noise_floor", number_item q.noise_floor)
      ∷ (codes "tx_total", number_item q.tx_total)
      ∷ (codes "rx_total", number_item q.rx_total)
      ∷ []

  unfoldable pub cvt_quality_to_json : Quality → Json
  cvt_quality_to_json q = object_of (quality_members q)

  unfoldable pub cvt_json_to_quality : Option Json → Quality
  cvt_json_to_quality json = record {
    dest_link = read_string json (codes "dest_link");
    channel = read_int json (codes "channel");
    up_link = read_bool json (codes "up_link");
    down_link = read_bool json (codes "down_link");
    tx_link = read_int json (codes "tx_link");
    snr = read_int json (codes "snr");
    noise_floor = read_int json (codes "noise_floor");
    tx_total = read_int json (codes "tx_total");
    rx_total = read_int json (codes "rx_total");
  }

  -- Without a link no array is written.
  abbrev pub links_item : List Quality → Option Json
  links_item [] = none
  links_item (q ∷ qs) = some (array_of (map cvt_quality_to_json (q ∷ qs)))

  abbrev pub profile_members : QualityProfile → Members
  profile_members p =
      (codes "src_link", string_item p.src_link) ∷ (codes "quality", links_item p.quality_list) ∷ []

  unfoldable pub cvt_quality_profile_to_json : QualityProfile → Json
  cvt_quality_profile_to_json p = object_of (profile_members p)

  unfoldable pub cvt_json_to_quality_profile : Option Json → QualityProfile
  cvt_json_to_quality_profile json = record {
    src_link = read_string json (codes "src_link");
    quality_list = list_or_empty (read_list cvt_json_to_quality json (codes "quality"));
  }

  unfoldable pub cvt_quality_profile_list_to_json : List QualityProfile → Json
  cvt_quality_profile_list_to_json ps = array_of (map cvt_quality_profile_to_json ps)

  unfoldable pub cvt_json_to_quality_profile_list : Option Json → List QualityProfile
  cvt_json_to_quality_profile_list json = read_array cvt_json_to_quality_profile json

  quality_round_trip :
      (q : Quality) → QualityFits q → cvt_json_to_quality (some (cvt_quality_to_json q)) ≡ q
  unfolding cvt_quality_to_json cvt_json_to_quality
  quality_round_trip q (channel_fits, link_fits, snr_fits, noise_fits, sent_fits, received_fits) =
      let ms = quality_members q in
      λ i. record {
        dest_link = read_string-member ms (codes "dest_link") q.dest_link refl i;
        channel = read_int-member ms (codes "channel") q.channel channel_fits refl i;
        up_link = read_bool-member ms (codes "up_link") q.up_link refl i;
        down_link = read_bool-member ms (codes "down_link") q.down_link refl i;
        tx_link = read_int-member ms (codes "tx_link") q.tx_link link_fits refl i;
        snr = read_int-member ms (codes "snr") q.snr snr_fits refl i;
        noise_floor = read_int-member ms (codes "noise_floor") q.noise_floor noise_fits refl i;
        tx_total = read_int-member ms (codes "tx_total") q.tx_total sent_fits refl i;
        rx_total = read_int-member ms (codes "rx_total") q.rx_total received_fits refl i;
      }

  links_back :
      (src : Option Text) (qs : List Quality)
      → All QualityFits qs
      → list_or_empty (
          read_list cvt_json_to_quality
            (some (object_of (profile_members (record { src_link = src; quality_list = qs }))))
            (codes "quality"))
        ≡ qs
  unfolding read_list array_or_null is_array
  links_back src [] fits =
      ap (λ j. list_or_empty (array_or_null cvt_json_to_quality j))
        (get_item-object_of (profile_members (record { src_link = src; quality_list = [] }))
          (codes "quality"))
  links_back src (q ∷ qs) fits = ap list_or_empty (
      read_list-member cvt_json_to_quality _ (codes "quality") (map cvt_quality_to_json (q ∷ qs))
        (q ∷ qs) refl
        (read_array-map_if {P = QualityFits} cvt_json_to_quality cvt_quality_to_json (q ∷ qs)
          quality_round_trip fits))

  profile_round_trip :
      (p : QualityProfile)
      → ProfileFits p
      → cvt_json_to_quality_profile (some (cvt_quality_profile_to_json p)) ≡ p
  unfolding cvt_quality_profile_to_json cvt_json_to_quality_profile
  profile_round_trip p fits = λ i. record {
    src_link = read_string-member (profile_members p) (codes "src_link") p.src_link refl i;
    quality_list = links_back p.src_link p.quality_list fits i;
  }

  -- A list of profiles whose numbers are machine integers is read back from its JSON array, a
  -- profile without links included, for which no array is written.
  pub quality_profile_list_round_trip :
      (ps : List QualityProfile)
      → All ProfileFits ps
      → cvt_json_to_quality_profile_list (some (cvt_quality_profile_list_to_json ps)) ≡ ps
  unfolding cvt_quality_profile_list_to_json cvt_json_to_quality_profile_list
  quality_profile_list_round_trip ps fits =
      read_array-map_if {P = ProfileFits} cvt_json_to_quality_profile cvt_quality_profile_to_json ps
        profile_round_trip fits
