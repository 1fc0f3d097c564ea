-- ===== src/Mesh/Setting/WorkMode.antt =====
-- The work mode that the setting file gives.
use noc_demo.Common.{ℕ, ◌≡◌, refl, false, Option, none, some}
use noc_demo.Common.Texts.{Text, codes, text_eq}
use noc_demo.Common.Int.{pos, negsuc}
use noc_demo.CJson.Base.{CJson}
use noc_demo.Config.{Config}
use noc_demo.Mesh.Setting.{
  MeshSetting, cvt_mesh_setting_to_json, mode_of, compare_mode, get_work_mode, get_work_mode_str,
}
use noc_demo.Mesh.Setting.RoundTrip.{SettingFits, mesh_setting_round_trip}
use noc_demo.Settings.{HasSetting, load_found}
use noc_demo.World.{World, done, stopped, null_read}

-- the work modes, with the words and the numbers that stand for them
pub data WorkMode : Type 0 where
  standalone agent controller : WorkMode

abbrev pub word_of : WorkMode → Text
word_of standalone = codes "standalone"
word_of agent = codes "agent"
word_of controller = codes "controller"

abbrev pub number_of : WorkMode → ℕ
number_of standalone = 0
number_of agent = 1
number_of controller = 2

-- a word that stands for no mode
abbrev pub Unknown : Text → Type 0
Unknown word = (d : WorkMode) → text_eq word (word_of d) ≡ false

mode_of-word_of : (d : WorkMode) → mode_of (word_of d) ≡ pos (number_of d)
mode_of-word_of standalone = refl
mode_of-word_of agent = refl
mode_of-word_of controller = refl

mode_of-Unknown : (word : Text) → Unknown word → mode_of word ≡ negsuc 0
mode_of-Unknown word h = rw (h standalone, h agent, h controller)

module _ ⦃cj : CJson⦄ (config : Config) where
  mode_cases :
      (word : Option Text) (w : World)
      → compare_mode config word w
        ≡ elim word [ none ↦ stopped null_read | some s ↦ done (mode_of s) w ]
  unfolding compare_mode
  mode_cases none w = refl
  mode_cases (some s) w = refl

  -- The two readers of a stored setting: the branches of the comparison, and the word itself.
  pub work_mode_lem :
      (m : MeshSetting) (w : World)
      → HasSetting config.mesh_setting_file (cvt_mesh_setting_to_json m) w
      → SettingFits m
      → (get_work_mode config w
          ≡ elim m.work_mode [ none ↦ stopped null_read | some word ↦ done (mode_of word) w ])
        × (get_work_mode_str config w ≡ done m.work_mode w)
  unfolding get_work_mode get_work_mode_str
  work_mode_lem m w h fits = (
    rw (load_found h, mesh_setting_round_trip m fits) (mode_cases m.work_mode w),
    rw (load_found h, mesh_setting_round_trip m fits),
  )

  -- For files that hold settings whose numbers are machine integers, and the lock free: where the
  -- word is that of a mode, get_work_mode answers the number of the mode, 0 for standalone, 1 for
  -- agent and 2 for controller, and get_work_mode_str the word; another word is answered with -1; a
  -- setting without a word is a read through NULL, though get_work_mode_str answers NULL for it.
  pub work_mode_read :
      (d : WorkMode) (m strange missing : MeshSetting) (word : Text) (w v u : World)
      → HasSetting config.mesh_setting_file (cvt_mesh_setting_to_json m) w
      → HasSetting config.mesh_setting_file (cvt_mesh_setting_to_json strange) v
      → HasSetting config.mesh_setting_file (cvt_mesh_setting_to_json missing) u
      → SettingFits m
      → SettingFits strange
      → SettingFits missing
      → m.work_mode ≡ some (word_of d)
      → strange.work_mode ≡ some word
      → Unknown word
      → missing.work_mode ≡ none
      → (get_work_mode config w ≡ done (pos (number_of d)) w)
        × (get_work_mode_str config w ≡ done (some (word_of d)) w)
        × (get_work_mode config v ≡ done (negsuc 0) v)
        × (get_work_mode config u ≡ stopped null_read)
        × (get_work_mode_str config u ≡ done none u)
  work_mode_read d m strange missing word w v u hw hv hu fm fs fn known other unknown no_word =
      let (found, word_found) = work_mode_lem m w hw fm in
      let (missed, nothing) = work_mode_lem missing u hu fn in
      (
        rw (found, known, mode_of-word_of d),
        rw (word_found, known),
        rw ((work_mode_lem strange v hv fs).0, other, mode_of-Unknown word unknown),
        rw (missed, no_word),
        rw (nothing, no_word),
      )
