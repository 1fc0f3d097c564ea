-- ===== src/Api/Dispatch/Chosen.antt =====
-- The handler that a request is given, and what becomes of a request that none takes.
use noc_demo.Common.{
  ℕ, zero, suc, ◌<◌, ◌≡◌, refl, ◌∙◌, false, length, none, some, List, [], ◌∷◌, ◌++◌, All, arith,
  get_elem?,
}
use mathlib.Core.Path.{subst}
use noc_demo.Common.Texts.{Text, codes, contains}
use noc_demo.Api.Dispatch.{
  Handler, message_handler_entry, first_handler, start_or_refuse, on_name, refuse, convert_held,
  read_held, mqtt_on_message_cb_handler,
}
use noc_demo.Api.Errors.{ErrorTables}
use noc_demo.Api.Name.{IsWord, dotted, answer_word, answer_name_words}
use noc_demo.CJson.Base.{CJson}
use noc_demo.CJson.Object.{read_string}
use noc_demo.World.{World, done, stopped, freed_read, out_of_bounds}

-- No text of the entries is found in the name.
abbrev pub NoneFound : Text → List (Text × Handler) → Type 0
NoneFound name entries = All (λ e. contains name e.0 ≡ false) entries

none_found :
    (name : Text) (entries : List (Text × Handler))
    → NoneFound name entries
    → first_handler name entries ≡ none
unfolding first_handler
none_found name [] h = refl
none_found name ((text, handler) ∷ entries) (no_text, h) = rw no_text (none_found name entries h)

-- One of the entries, at an index, has what all have.
at_index :
    (P : Text × Handler → Type 0) (entries : List (Text × Handler)) (i : ℕ) (e : Text × Handler)
    → All P entries
    → get_elem? entries i ≡ some e
    → P e
at_index P [] i e h there = cc
at_index P (x ∷ entries) zero e (here, h) there = subst P (cc) here
at_index P (x ∷ entries) (suc i) e (here, h) there = at_index P entries i e h there

ChosenFrom : Text → Text × Handler → Type 0
ChosenFrom sender e = first_handler (sender ++ e.0) message_handler_entry ≡ some e.1

all_chosen : All (ChosenFrom (codes "hub.ezm.")) message_handler_entry
unfolding ChosenFrom first_handler contains
all_chosen = ground arith

all_chosen' : All (ChosenFrom (codes "ezm.ezm.")) message_handler_entry
unfolding ChosenFrom first_handler contains
all_chosen' = ground arith

-- A request of the hub or of another node whose name is that of an entry behind the two words of
-- its sender and its receiver is given to the handler of that entry, although the entries are tried
-- in order and each is only looked for inside the name.
pub first_handler_own :
    (i : ℕ) (text : Text) (handler : Handler)
    → get_elem? message_handler_entry i ≡ some (text, handler)
    → (first_handler (codes "hub.ezm." ++ text) message_handler_entry ≡ some handler)
      × (first_handler (codes "ezm.ezm." ++ text) message_handler_entry ≡ some handler)
unfolding ChosenFrom
first_handler_own i text handler there = (
  at_index (ChosenFrom (codes "hub.ezm.")) message_handler_entry i (text, handler) all_chosen there,
  at_index (ChosenFrom (codes "ezm.ezm.")) message_handler_entry i (text, handler) all_chosen'
      there,
)

module _ ⦃cj : CJson⦄ (pub_topic : Text) (tables : ErrorTables) where
  unknown_lem :
      (message name : Text) (w : World)
      → read_string (cj.parse message) (codes "name") ≡ some name
      → NoneFound name message_handler_entry
      → mqtt_on_message_cb_handler pub_topic tables message w
        ≡ start_or_refuse pub_topic tables (cj.parse message) name none w
  unfolding mqtt_on_message_cb_handler on_name
  unknown_lem message name w there no_text =
      rw (there, none_found name message_handler_entry no_text)

  -- A message with a name of at least three words, the name of whose answer has fewer than 200 bytes,
  -- and in which no entry is found, is never answered: the conversion of the name gives back the
  -- string of the message, and the request is read from it after that. If the name is a single word,
  -- the conversion reads behind the array of words. A message without a name is dropped, and nothing
  -- is changed.
  pub mqtt_on_message_unknown :
      (message short nameless : Text) (a b last : Text) (middle : List Text) (w : World)
      → (IsWord a) × (IsWord b) × (IsWord last) × All IsWord middle
      → length (dotted (b ∷ a ∷ (middle ++ answer_word last ∷ []))) < 200
      → read_string (cj.parse message) (codes "name")
        ≡ some (dotted (a ∷ b ∷ (middle ++ last ∷ [])))
      → NoneFound (dotted (a ∷ b ∷ (middle ++ last ∷ []))) message_handler_entry
      → read_string (cj.parse short) (codes "name") ≡ some a
      → NoneFound a message_handler_entry
      → read_string (cj.parse nameless) (codes "name") ≡ none
      → (mqtt_on_message_cb_handler pub_topic tables message w ≡ stopped freed_read)
        × (mqtt_on_message_cb_handler pub_topic tables short w ≡ stopped out_of_bounds)
        × (mqtt_on_message_cb_handler pub_topic tables nameless w ≡ done none w)
  unfolding mqtt_on_message_cb_handler on_name start_or_refuse refuse convert_held read_held
  mqtt_on_message_unknown message short nameless a b last middle w words fits there no_text there'
        no_text' absent =
      let name = dotted (a ∷ b ∷ (middle ++ last ∷ [])) in
      let (long, one) = answer_name_words a b last middle w words fits in
      (
        unknown_lem message name w there no_text ∙ rw long refl,
        unknown_lem short a w there' no_text' ∙ rw one refl,
        rw absent refl,
      )
