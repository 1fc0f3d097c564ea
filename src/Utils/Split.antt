-- ===== src/Utils/Split.antt =====
-- src/utils/split/split.c: the pieces that strtok finds between one delimiter and the next.
use noc_demo.Common.{
  ℕ, ◌≡◌, refl, ◌∙◌, ◌&&◌, not, ◌==◌, if◌then◌else◌, Bool, true, List, [], ◌∷◌, ◌++◌, append_assoc,
  append-nil, All, arith,
}
use noc_demo.Common.Texts.{Text}

-- strtok skips empty pieces.
abbrev pub flush : Text → List Text
flush [] = []
flush (c ∷ s) = (c ∷ s) ∷ []

-- the pieces of `s` behind the part `cur` of a piece
unfoldable pub pieces : ℕ → Text → Text → List Text
pieces d cur [] = flush cur
pieces d cur (c ∷ s) =
    let in_piece = pieces d (cur ++ c ∷ []) s in
    let next = pieces d [] s in if c == d then flush cur ++ next else in_piece

-- `split` for a pattern of one character
unfoldable pub split : Text → ℕ → List Text
split s d = pieces d [] s

-- the string that the first call of strtok leaves in the buffer: it ends behind the first piece
abbrev pub first_token : ℕ → Text → Text
first_token d [] = []
first_token d (c ∷ s) = let rest = first_token d s in if c == d then [] else c ∷ rest

unfoldable pub strtok_left : ℕ → Text → Text
strtok_left d [] = []
strtok_left d (c ∷ s) =
    let skipped = strtok_left d s in if c == d then c ∷ skipped else c ∷ first_token d s

-- no character is the delimiter
abbrev pub plain : ℕ → Text → Bool
plain d [] = true
plain d (c ∷ s) = not (c == d) && plain d s

-- A piece has a character, and none of its characters is the delimiter.
abbrev pub IsPiece : ℕ → Text → Type 0
IsPiece d w = (flush w ≡ w ∷ []) × (plain d w ≡ true)

abbrev pub join : ℕ → List Text → Text
join d [] = []
join d (w ∷ []) = w
join d (w ∷ v ∷ ws) = w ++ d ∷ join d (v ∷ ws)

pieces_end : (d : ℕ) (cur w : Text) → plain d w ≡ true → pieces d cur w ≡ flush (cur ++ w)
unfolding pieces
pieces_end d cur [] h = rw (append-nil cur)
pieces_end d cur (c ∷ w) h =
    ground (arith, pieces_end d (cur ++ c ∷ []) w, append_assoc cur (c ∷ []) w)

pieces_next :
    (d : ℕ) (cur w rest : Text)
    → plain d w ≡ true
    → pieces d cur (w ++ d ∷ rest) ≡ flush (cur ++ w) ++ pieces d [] rest
unfolding pieces
pieces_next d cur [] rest h = ground (arith, append-nil cur)
pieces_next d cur (c ∷ w) rest h =
    ground (arith, pieces_next d (cur ++ c ∷ []) w rest, append_assoc cur (c ∷ []) w)

pub split-join : (d : ℕ) (ws : List Text) → All (IsPiece d) ws → split (join d ws) d ≡ ws
unfolding split pieces
split-join d [] h = refl
split-join d (w ∷ []) ((some_char, plain_w), h) = pieces_end d [] w plain_w ∙ some_char
split-join d (w ∷ v ∷ ws) ((some_char, plain_w), h) =
    rw (pieces_next d [] w (join d (v ∷ ws)) plain_w, some_char, split-join d (v ∷ ws) h)

-- each line with its end
abbrev pub unlines : List Text → Text
unlines [] = []
unlines (line ∷ lines) = line ++ 0x0a ∷ unlines lines

pub split-unlines : (ws : List Text) → All (IsPiece 0x0a) ws → split (unlines ws) 0x0a ≡ ws
unfolding split pieces
split-unlines [] h = refl
split-unlines (w ∷ ws) ((some_char, plain_w), h) =
    rw (pieces_next 0x0a [] w (unlines ws) plain_w, some_char, split-unlines ws h)
