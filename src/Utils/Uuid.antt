-- ===== src/Utils/Uuid.antt =====
-- src/utils/uuid/uuid.c over libuuid, which is not part of the repository.
use noc_demo.Common.{
  ℕ, ◌+◌, ltb, if◌then◌else◌, ◌||◌, ◌≡◌, ◌∷◌, ◌++◌, length, length-append, arith, ◌≤◌,
}
use noc_demo.Common.Texts.{Text}
use noc_demo.World.{World, done, stopped, overflow, Cmd}

-- uuid_generate_random and uuid_unparse_lower: the text of the n-th identifier that is drawn.
pub record LibUuid : Type 0 where
  pub unparse : ℕ → Text
  pub length-unparse : (n : ℕ) → length (unparse n) ≡ 36

module _ ⦃lib : LibUuid⦄ where
  abbrev pub uuid_text : Text → ℕ → Text
  uuid_text prefix n = prefix ++ 0x5f ∷ lib.unparse n

  -- `malloc(uuid_size)` receives the text and its NUL, `malloc(uuid_size + strlen(prefix) + 1)`
  -- the prefix, an underscore, the text and its NUL.
  unfoldable pub uuid_gen : ℕ → Text → Cmd Text
  uuid_gen uuid_size prefix w =
      let uuid = lib.unparse w.uuids in
      let ret_str = uuid_text prefix w.uuids in
      if ltb uuid_size (length uuid + 1) || ltb (uuid_size + length prefix + 1) (length ret_str + 1)
      then stopped overflow
      else done ret_str (record w { uuids = w.uuids + 1 })

  -- A size of at least 37 suffices for both buffers.
  pub uuid_gen_fits :
      (uuid_size : ℕ) (prefix : Text) (w : World)
      → 37 ≤ uuid_size
      → uuid_gen uuid_size prefix w
        ≡ done (uuid_text prefix w.uuids) (record w { uuids = w.uuids + 1 })
  unfolding uuid_gen
  uuid_gen_fits uuid_size prefix w h =
      ground (arith, lib.length-unparse w.uuids, length-append prefix (0x5f ∷ lib.unparse w.uuids))
