-- ===== src/Tests/Api.antt =====
-- The properties of the messages at concrete inputs.
use noc_demo.Common.{◌≡◌, ◌<◌, refl, [], ◌∷◌, length, arith}
use noc_demo.Common.Texts.{Text, codes, contains}
use noc_demo.Api.Name.{answer_word, cvt_req_name_to_res_name, dotted, answer_name_words}
use noc_demo.Tests.Base.{empty_world}
use noc_demo.World.{done, stopped, out_of_bounds}

abbrev answer : Text
answer =
    dotted (codes "ezm" ∷ codes "mesh" ∷ (codes "setting" ∷ answer_word (codes "requested") ∷ []))

answer_fits : length answer < 200
unfolding answer_word contains
answer_fits = omega arith

answer_name_words_example :
    (cvt_req_name_to_res_name
        (dotted (codes "mesh" ∷ codes "ezm" ∷ (codes "setting" ∷ codes "requested" ∷ [])))
        empty_world
      ≡ done answer empty_world)
    × (cvt_req_name_to_res_name (codes "mesh") empty_world ≡ stopped out_of_bounds)
answer_name_words_example =
    answer_name_words (codes "mesh") (codes "ezm") (codes "requested") (codes "setting" ∷ [])
      empty_world ((refl, refl), (refl, refl), (refl, refl), ((refl, refl), tt)) answer_fits
