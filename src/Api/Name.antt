-- ===== src/Api/Name.antt =====
-- cvt_req_name_to_res_name of src/api/message/message_struct.c: the name of the answer to a request.
use noc_demo.Common.{
  ◌<◌, ◌≡◌, refl, ◌∙◌, ap, if◌then◌else◌, List, [], ◌∷◌, ◌++◌, length, All, arith,
}
use noc_demo.Common.Texts.{Text, codes, contains}
use noc_demo.Utils.Split.{split, join, IsPiece, split-join}
use noc_demo.World.{World, done, stopped, Cmd, pure, stop, out_of_bounds, sprintf}

-- the last word, with "responded" for one that contains "requested"
unfoldable pub answer_word : Text → Text
answer_word w = if contains w (codes "requested") then codes "responded" else w

-- what follows the first two words of the answer: the words from the third on but the last, and the
-- last one, which is the second if there are only two
unfoldable pub answer_tail : Text → List Text → Text
answer_tail second [] = codes "." ++ answer_word second
answer_tail second (w ∷ []) = codes "." ++ answer_word w
answer_tail second (w ∷ v ∷ ws) = codes "." ++ w ++ answer_tail second (v ∷ ws)

-- No word leaves the empty name; the second of a single word is behind the end of the array.
unfoldable pub answer_name : List Text → Cmd Text
answer_name [] = pure []
answer_name (a ∷ []) = stop out_of_bounds
answer_name (a ∷ b ∷ ws) = sprintf 200 (b ++ (codes "." ++ (a ++ answer_tail b ws)))

unfoldable pub cvt_req_name_to_res_name : Text → Cmd Text
cvt_req_name_to_res_name name = answer_name (split name 0x2e)

-- A word of a name: not empty and without a dot.
abbrev pub IsWord : Text → Type 0
IsWord w = IsPiece 0x2e w

abbrev pub dotted : List Text → Text
dotted ws = join 0x2e ws

answer_tail_lem :
    (b a last : Text) (middle : List Text)
    → a ++ answer_tail b (middle ++ last ∷ []) ≡ dotted (a ∷ (middle ++ answer_word last ∷ []))
unfolding answer_tail
answer_tail_lem b a last [] = refl
answer_tail_lem b a last (m ∷ middle) =
    ap (λ t. a ++ t) (tail_step middle) ∙ ap (λ t. a ++ 0x2e ∷ t) (answer_tail_lem b m last middle)
  where
    tail_step :
        (rest : List Text)
        → answer_tail b (m ∷ (rest ++ last ∷ [])) ≡ 0x2e ∷ (m ++ answer_tail b (rest ++ last ∷ []))
    tail_step [] = refl
    tail_step (n ∷ rest) = refl

words_of :
    (a b last : Text) (middle : List Text)
    → (IsWord a) × (IsWord b) × (IsWord last) × All IsWord middle
    → All IsWord (a ∷ b ∷ (middle ++ last ∷ []))
words_of a b last middle (wa, wb, wl, wm) = (wa, (wb, at_end middle wm))
  where
    at_end : (ms : List Text) → All IsWord ms → All IsWord (ms ++ last ∷ [])
    at_end [] h = (wl, tt)
    at_end (m ∷ ms) (wm', h) = (wm', at_end ms h)

-- For a request whose name has at least three words, and whose answer's name has fewer than 200
-- bytes, the name of the answer has the first two words exchanged, the middle ones as they were, and
-- "responded" in place of a last word that contains "requested"; a name of one word is read behind
-- the end of the array of words.
pub answer_name_words :
    (a b last : Text) (middle : List Text) (w : World)
    → (IsWord a) × (IsWord b) × (IsWord last) × All IsWord middle
    → let answer = dotted (b ∷ a ∷ (middle ++ answer_word last ∷ [])) in
      length answer < 200
      → (cvt_req_name_to_res_name (dotted (a ∷ b ∷ (middle ++ last ∷ []))) w ≡ done answer w)
        × (cvt_req_name_to_res_name a w ≡ stopped out_of_bounds)
unfolding cvt_req_name_to_res_name answer_name sprintf
answer_name_words a b last middle w (wa, wb, wl, wm) fit = (
  rw
      (
        split-join 0x2e (a ∷ b ∷ (middle ++ last ∷ [])) (words_of a b last middle (wa, wb, wl, wm)),
        answer_tail_lem b a last middle,
      )
      (ground arith),
  rw (split-join 0x2e (a ∷ []) (wa, tt)),
)
