-- ===== src/Emt/Command/Decode.antt =====
-- A reader of the daemon's command lines, and the tables' words as it needs them.
use noc_demo.Common.{
  ℕ, zero, suc, ◌<◌, ◌==◌, leb, if◌then◌else◌, ◌≡◌, refl, Bool, true, false, ◌&&◌, ◌||◌, Option,
  none, some, List, [], ◌∷◌, ◌++◌, length, get_elem?, arith,
}
use noc_demo.Common.Texts.{Text, codes, text_eq}
use noc_demo.Emt.Actions.{Section, section_int}
use noc_demo.Emt.Command.{sections, action_table}
use noc_demo.Emt.Tables.{section_mapping_cmd}

abbrev pub is_sep : ℕ → Bool
is_sep c = c == 0x20 || c == 0x0a

-- the bytes up to the first space or newline, and what stands behind it
abbrev push : ℕ → Text × Text → Text × Text
push c (w, r) = (c ∷ w, r)

abbrev pub take_word : Text → Text × Text
take_word [] = ([], [])
take_word (c ∷ s) = let later = push c (take_word s) in if is_sep c then ([], s) else later

abbrev pub bump : Option ℕ → Option ℕ
bump none = none
bump (some n) = some (suc n)

abbrev pub index_of : Text → List (ℕ × Text) → Option ℕ
index_of w [] = none
index_of w ((k, v) ∷ table) =
    let later = bump (index_of w table) in if text_eq v w then some 0 else later

abbrev pub decode_action : Text → ℕ → Option Section → Option (ℕ × ℕ)
decode_action w i none = none
decode_action w i (some section) = elim (index_of w (action_table section)) [
  | none ↦ none
  | some n ↦ some (i, n)
]

abbrev pub decode_section : Text → Option ℕ → Option (ℕ × ℕ)
decode_section w none = none
decode_section w (some i) = decode_action w i (get_elem? sections i)

-- the numbers of the section and of the action whose words begin a line
unfoldable pub decode : Text → Option (ℕ × ℕ)
unfolding section_mapping_cmd
decode line =
    let after = take_word (take_word line).1 in
    decode_section after.0 (index_of (take_word line).0 section_mapping_cmd)

abbrev pub no_sep : Text → Bool
no_sep [] = true
no_sep (c ∷ s) = if is_sep c then false else no_sep s

pub take_word-append :
    (w : Text) (c : ℕ) (r : Text)
    → no_sep w ≡ true
    → is_sep c ≡ true
    → take_word (w ++ c ∷ r) ≡ (w, r)
take_word-append [] c r h sep = rw sep
take_word-append (a ∷ w) c r h sep = ground (arith, take_word-append w c r)

abbrev finds : Option ℕ → ℕ → Bool
finds none n = false
finds (some m) n = m == n

-- An entry's word is short, has no separator, and is found at the entry's index.
abbrev entry_ok : List (ℕ × Text) → ℕ → Option (ℕ × Text) → Bool
entry_ok table n none = false
entry_ok table n (some (k, w)) = no_sep w && (leb (length w) 17 && finds (index_of w table) n)

-- the entries in front of a position, the last one first
entries_ok : List (ℕ × Text) → ℕ → Bool
entries_ok table zero = true
entries_ok table (suc last) = entry_ok table last (get_elem? table last) && entries_ok table last

nth_ok :
    (table : List (ℕ × Text)) (size n : ℕ)
    → n < size
    → entries_ok table size ≡ true
    → entry_ok table n (get_elem? table n) ≡ true
unfolding entries_ok
nth_ok table zero n before every = absurd (omega arith)
nth_ok table (suc last) n before every = ground (arith, nth_ok table last n)

tables_ok : (s : Section) → entries_ok (action_table s) (length (action_table s)) ≡ true
unfolding entries_ok action_table
tables_ok Section.debug = refl
tables_ok _ = refl

pub record IsEntry (table : List (ℕ × Text)) (n : ℕ) : Type 0 where
  pub number : ℕ
  pub word : Text
  pub entry : get_elem? table n ≡ some (number, word)
  pub plain : no_sep word ≡ true
  pub short : leb (length word) 17 ≡ true
  pub index : index_of word table ≡ some n

IsEntry-of :
    (table : List (ℕ × Text)) (n : ℕ) (o : Option (ℕ × Text))
    → get_elem? table n ≡ o
    → entry_ok table n o ≡ true
    → IsEntry table n
IsEntry-of table n none e ok = cc
IsEntry-of table n (some (k, w)) e ok = record {
  number = k;
  word = w;
  entry = e;
  plain = ground arith;
  short = ground arith;
  index = ground arith;
}

pub action-IsEntry :
    (s : Section) (n : ℕ) → n < length (action_table s) → IsEntry (action_table s) n
action-IsEntry s n h =
    IsEntry-of (action_table s) n (get_elem? (action_table s) n) refl
      (nth_ok (action_table s) (length (action_table s)) n h (tables_ok s))

pub record IsSection (s : Section) : Type 0 where
  pub word : Text
  pub entry : get_elem? section_mapping_cmd (section_int s) ≡ some (section_int s, word)
  pub plain : no_sep word ≡ true
  pub short : leb (length word) 17 ≡ true
  pub index : index_of word section_mapping_cmd ≡ some (section_int s)
  pub switch : get_elem? sections (section_int s) ≡ some s

unfoldable pub section_entry : (s : Section) → IsSection s
unfolding section_mapping_cmd section_int
section_entry Section.debug = record {
  word = codes "dbg";
  entry = refl;
  plain = refl;
  short = refl;
  index = refl;
  switch = refl;
}
section_entry Section.md = record {
  word = codes "md";
  entry = refl;
  plain = refl;
  short = refl;
  index = refl;
  switch = refl;
}
section_entry Section.ev_loop = record {
  word = codes "evloop";
  entry = refl;
  plain = refl;
  short = refl;
  index = refl;
  switch = refl;
}
section_entry Section.ieee1905 = record {
  word = codes "ieee1905";
  entry = refl;
  plain = refl;
  short = refl;
  index = refl;
  switch = refl;
}
section_entry Section.hy_manager = record {
  word = codes "hy";
  entry = refl;
  plain = refl;
  short = refl;
  index = refl;
  switch = refl;
}
section_entry Section.wlan_manager = record {
  word = codes "wlan";
  entry = refl;
  plain = refl;
  short = refl;
  index = refl;
  switch = refl;
}
section_entry Section.mc_manager = record {
  word = codes "mc";
  entry = refl;
  plain = refl;
  short = refl;
  index = refl;
  switch = refl;
}
section_entry Section.multi_ap = record {
  word = codes "map";
  entry = refl;
  plain = refl;
  short = refl;
  index = refl;
  switch = refl;
}
section_entry Section.service_priority = record {
  word = codes "sp";
  entry = refl;
  plain = refl;
  short = refl;
  index = refl;
  switch = refl;
}
section_entry Section.topology = record {
  word = codes "td";
  entry = refl;
  plain = refl;
  short = refl;
  index = refl;
  switch = refl;
}
section_entry Section.dispatch_service = record {
  word = codes "dispatchService";
  entry = refl;
  plain = refl;
  short = refl;
  index = refl;
  switch = refl;
}
section_entry Section.dbg_service = record {
  word = codes "dbgService";
  entry = refl;
  plain = refl;
  short = refl;
  index = refl;
  switch = refl;
}
section_entry Section.stadb = record {
  word = codes "stadb";
  entry = refl;
  plain = refl;
  short = refl;
  index = refl;
  switch = refl;
}
section_entry Section.map_ctrl = record {
  word = codes "mapctrl";
  entry = refl;
  plain = refl;
  short = refl;
  index = refl;
  switch = refl;
}
section_entry Section.pc_service = record {
  word = codes "pc";
  entry = refl;
  plain = refl;
  short = refl;
  index = refl;
  switch = refl;
}
section_entry Section.steer_exec = record {
  word = codes "steerexec";
  entry = refl;
  plain = refl;
  short = refl;
  index = refl;
  switch = refl;
}
section_entry Section.band_mon = record {
  word = codes "bandmon";
  entry = refl;
  plain = refl;
  short = refl;
  index = refl;
  switch = refl;
}
section_entry Section.estimator = record {
  word = codes "estimator";
  entry = refl;
  plain = refl;
  short = refl;
  index = refl;
  switch = refl;
}
section_entry Section.steer_alg = record {
  word = codes "steeralg";
  entry = refl;
  plain = refl;
  short = refl;
  index = refl;
  switch = refl;
}
