-- ===== src/Emt/Command/Total.antt =====
-- What create_cmd returns, for every section and action.
use noc_demo.Common.{
  ℕ, ◌≤◌, ◌<◌, leb, ◌≡◌, refl, ◌∙◌, ap, true, Option, none, some, [], ◌++◌, length, length-append,
  get_elem?, arith,
}
use noc_demo.Common.Int.{ℤ, pos}
use noc_demo.Common.Texts.{Text, codes}
use noc_demo.Emt.Actions.{Section, section_int}
use noc_demo.Emt.Command.{
  command, fault, action_limit, action_table, with_args, write_cmd, check_action, create_cmd,
}
use noc_demo.Emt.Command.Decode.{
  take_word, take_word-append, decode, decode_action, no_sep, action-IsEntry, section_entry,
}
use noc_demo.World.{out_of_bounds}

-- The arguments leave room in the 200 bytes for the two words, the separators and the NUL.
abbrev pub ArgsFit : Option Text → Type 0
ArgsFit none = Unit
ArgsFit (some args) = length args ≤ 150

create_cmd_section :
    (s : Section) (action : ℤ) (args : Option Text)
    → create_cmd (section_int s) action args ≡ check_action (section_entry s).word args s action
unfolding create_cmd section_entry section_int
create_cmd_section Section.debug action args = refl
create_cmd_section _ action args = refl

length-action_table : (s : Section) → length (action_table s) ≤ action_limit s
unfolding action_table action_limit
length-action_table Section.debug = omega arith
length-action_table _ = omega arith

abbrev line : Text → Text → Option Text → Text
line section_cmd action_cmd args =
    section_cmd ++ (codes " " ++ (action_cmd ++ (with_args args ++ codes "\n")))

length-line :
    (v w : Text) (args : Option Text)
    → length v ≤ 17
    → length w ≤ 17
    → ArgsFit args
    → length (line v w args) < 200
length-line v w none hv hw fit =
    omega (arith, length-append v (codes " " ++ (w ++ codes "\n")), length-append w (codes "\n"))
length-line v w (some args) hv hw fit = omega (
  arith,
  length-append v (codes " " ++ (w ++ ((codes " " ++ args) ++ codes "\n"))),
  length-append w ((codes " " ++ args) ++ codes "\n"),
  length-append args (codes "\n"),
)

write_cmd-line :
    (v : Text) (args : Option Text) (k : ℕ) (w : Text)
    → length v ≤ 17
    → length w ≤ 17
    → ArgsFit args
    → write_cmd v args (some (k, w)) ≡ command (line v w args)
unfolding write_cmd
write_cmd-line v args k w hv hw fit = ground (arith, length-line v w args hv hw fit)

short_le : (v : Text) → leb (length v) 17 ≡ true → length v ≤ 17
short_le v h = ground arith

module _ (s : Section) (n : ℕ) (args : Option Text) where
  abbrev cmd_of : n < length (action_table s) → Text
  cmd_of h = line (section_entry s).word (action-IsEntry s n h).word args

  create_cmd_line :
      (h : n < length (action_table s))
      → ArgsFit args
      → create_cmd (section_int s) (pos n) args ≡ command (cmd_of h)
  create_cmd_line h fit =
      create_cmd_section s (pos n) args
      ∙ pass (section_entry s).word
      ∙ ap (write_cmd (section_entry s).word args) (action-IsEntry s n h).entry
      ∙ write_cmd-line (section_entry s).word args (action-IsEntry s n h).number
          (action-IsEntry s n h).word (short_le _ (section_entry s).short)
          (short_le _ (action-IsEntry s n h).short) fit
    where
      pass :
          (v : Text)
          → check_action v args s (pos n) ≡ write_cmd v args (get_elem? (action_table s) n)
      pass v = unfold check_action in ground (arith, length-action_table s)

  take_word-args :
      (w : Text) → no_sep w ≡ true → (take_word (w ++ (with_args args ++ codes "\n"))).0 ≡ w
  take_word-args w plain = go args
    where
      go : (a : Option Text) → (take_word (w ++ (with_args a ++ codes "\n"))).0 ≡ w
      go none = rw (take_word-append w 0x0a [] plain refl)
      go (some a) = rw (take_word-append w 0x20 (a ++ codes "\n") plain refl)

  decode-cmd_of : (h : n < length (action_table s)) → decode (cmd_of h) ≡ some (section_int s, n)
  unfolding decode
  decode-cmd_of h =
      let v = section_entry s in
      let a = action-IsEntry s n h in
      rw (
        take_word-append v.word 0x20 (a.word ++ (with_args args ++ codes "\n")) v.plain refl,
        take_word-args a.word a.plain,
        v.index,
        v.switch,
        a.index,
        decode_action,
      )

  -- For an action that the section's table holds, and arguments of at most 150 bytes, create_cmd
  -- returns a command, without a fault, whose two words name that section and that action.
  pub create_cmd_decodes :
      n < length (action_table s)
      → ArgsFit args
      → (cmd : Text) × (create_cmd (section_int s) (pos n) args ≡ command cmd)
        × (decode cmd ≡ some (section_int s, n))
  create_cmd_decodes h fit = (cmd_of h, create_cmd_line h fit, decode-cmd_of h)

-- The case of the service priorities tests the action against the number of sections: the actions
-- from 6 to 18 pass and are read behind the end of its table of 6 words.
pub create_cmd_service_priority :
    (n : ℕ) (args : Option Text)
    → 6 ≤ n
    → n < 19
    → create_cmd (section_int Section.service_priority) (pos n) args ≡ fault out_of_bounds
create_cmd_service_priority n args low high =
    create_cmd_section Section.service_priority (pos n) args
    ∙ read (section_entry Section.service_priority).word
  where
    beyond : (m : ℕ) → 6 ≤ m → get_elem? (action_table Section.service_priority) m ≡ none
    beyond m h = unfold action_table in ground arith

    read : (v : Text) → check_action v args Section.service_priority (pos n) ≡ fault out_of_bounds
    read v = unfold check_action write_cmd action_limit in ground (arith, beyond n low)
