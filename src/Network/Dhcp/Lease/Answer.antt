-- ===== src/Network/Dhcp/Lease/Answer.antt =====
-- Which clients dhcp_lease_get answers for a file of leases.
use noc_demo.Common.{
  ℕ, ◌+◌, ◌-◌, ◌≡◌, refl, ◌∙◌, ap, sym, false, some, List, [], ◌∷◌, ◌++◌, map, length, take,
  length-append, length-map, append_assoc, append-nil, All, arith,
}
use noc_demo.Common.Int.{ℤ}
use noc_demo.Common.Texts.{Text, codes, text_eq}
use noc_demo.ErrorCode.{success}
use noc_demo.Network.Dhcp.Lease.{
  lease_file, blanks, info_of, add_lease, leases, clients, dhcp_lease_get,
}
use noc_demo.Network.Dhcp.Codec.{DhcpInfo}
use noc_demo.Utils.File.{read_line, lines_or_null}
use noc_demo.Utils.File.Lock.{read_data_found}
use noc_demo.Utils.Split.{join, IsPiece, split-join, unlines, split-unlines}
use noc_demo.World.{World, done}

-- A line of a lease: its fields, with what may follow them.
pub record Entry : Type 0 where
  pub stamp : Text
  pub mac : Text
  pub ip : Text
  pub host : Text
  pub more : List Text

abbrev pub fields : Entry → List Text
fields e = e.stamp ∷ e.mac ∷ e.ip ∷ e.host ∷ e.more

abbrev pub line : Entry → Text
line e = join 0x20 (fields e)

-- Its fields are words, and the first is not that of the line of the server's identifier.
pub record IsEntry (e : Entry) : Type 0 where
  pub words : All (IsPiece 0x20) (fields e)
  pub stamped : text_eq e.stamp (codes "duid") ≡ false
  pub one_line : IsPiece 0x0a (line e)

-- the line of the server's identifier
abbrev pub duid_line : List Text → Text
duid_line ws = join 0x20 (codes "duid" ∷ ws)

pub record IsDuid (ws : List Text) : Type 0 where
  pub words : All (IsPiece 0x20) ws
  pub one_line : IsPiece 0x0a (duid_line ws)

take-all : {A : Type 0} (n : ℕ) (xs ys : List A) → n ≡ length xs → take n (xs ++ ys) ≡ xs
take-all n xs ys e = ap (λ m. take m (xs ++ ys)) e ∙ go xs
  where
    go : (zs : List _) → take (length zs) (zs ++ ys) ≡ zs
    go [] = refl
    go (z ∷ zs) = ap (λ l. z ∷ l) (go zs)

All-append : (P : Text → Type 0) (xs ys : List Text) → All P xs → All P ys → All P (xs ++ ys)
All-append P [] ys h k = k
All-append P (x ∷ xs) ys (p, h) k = (p, All-append P xs ys h k)

lines-IsPiece : (es : List Entry) → All IsEntry es → All (IsPiece 0x0a) (map line es)
lines-IsPiece [] h = tt
lines-IsPiece (e ∷ es) (is, h) = (is.one_line, lines-IsPiece es h)

module _ (atoi : Text → ℤ) where
  abbrev pub info : Entry → DhcpInfo
  info e = info_of atoi e.stamp e.mac e.ip e.host

  leases-entries :
      (es : List Entry) (rest : List Text)
      → All IsEntry es
      → leases atoi (map line es ++ rest) ≡ map info es ++ leases atoi rest
  unfolding leases add_lease
  leases-entries [] rest h = refl
  leases-entries (e ∷ es) rest (is, h) =
      rw (split-join 0x20 (fields e) is.words, is.stamped)
        (ap (λ l. info e ∷ l) (leases-entries es rest h))

  leases-duid :
      (ws lines : List Text) → IsDuid ws → leases atoi (duid_line ws ∷ lines) ≡ leases atoi lines
  unfolding leases add_lease
  leases-duid ws lines is =
      rw (split-join 0x20 (codes "duid" ∷ ws) ((refl, refl), is.words)) (skipped ws)
    where
      skipped :
          (vs : List Text)
          → add_lease atoi (codes "duid" ∷ vs) (leases atoi lines) ≡ leases atoi lines
      skipped [] = refl
      skipped (a ∷ []) = refl
      skipped (a ∷ b ∷ []) = refl
      skipped (a ∷ b ∷ c ∷ vs) = refl

  clients_lem :
      (lines : List Text) (found : List DhcpInfo) (rest : List DhcpInfo)
      → leases atoi lines ≡ found ++ rest
      → length lines ≡ length found + 1
      → clients atoi (some lines) ≡ found
  unfolding clients
  clients_lem lines found rest e n = rw e (
      ap (take (length lines - 1))
        (append_assoc found rest (blanks (length lines - length (found ++ rest))))
      ∙ take-all (length lines - 1) found _ (omega arith))

  get_lem :
      (xs ys : List Text) (y : Text) (w : World)
      → w.locked ≡ false
      → w.files lease_file ≡ some (unlines (xs ++ y ∷ ys))
      → All (IsPiece 0x0a) (xs ++ y ∷ ys)
      → dhcp_lease_get atoi w ≡ done (success, clients atoi (some (xs ++ y ∷ ys))) w
  unfolding dhcp_lease_get read_line
  get_lem xs ys y w free there pieces =
      rw
        (
          read_data_found lease_file (unlines (xs ++ y ∷ ys)) w free there,
          split-unlines (xs ++ y ∷ ys) pieces,
        )
        (ap (λ ls. done (success, clients atoi ls) w) (some_line xs))
    where
      some_line : (zs : List Text) → lines_or_null (zs ++ y ∷ ys) ≡ some (zs ++ y ∷ ys)
      some_line [] = refl
      some_line (z ∷ zs) = refl

  leases-lines : (es : List Entry) → All IsEntry es → leases atoi (map line es) ≡ map info es
  unfolding leases
  leases-lines es h =
      ap (leases atoi) (sym (append-nil (map line es)))
      ∙ leases-entries es [] h
      ∙ append-nil (map info es)

  with_duid :
      (before after : List Entry) (ws : List Text)
      → All IsEntry before
      → All IsEntry after
      → IsDuid ws
      → leases atoi (map line before ++ duid_line ws ∷ map line after)
        ≡ (map info before ++ map info after) ++ []
  with_duid before after ws hb ha hd =
      leases-entries before (duid_line ws ∷ map line after) hb
      ∙ ap (λ l. map info before ++ l) (leases-duid ws (map line after) hd ∙ leases-lines after ha)
      ∙ sym (append-nil (map info before ++ map info after))

  one_more :
      (es fs : List Entry) (y : Text)
      → length (map line es ++ y ∷ map line fs) ≡ length (map info es ++ map info fs) + 1
  one_more es fs y = omega (
    arith,
    length-append (map line es) (y ∷ map line fs),
    length-append (map info es) (map info fs),
    length-map line es,
    length-map info es,
    length-map line fs,
    length-map info fs,
  )

  -- If the lock of the files is free and /tmp/dhcp.leases has a line, with its end, for each lease, of
  -- at least four words of which the first is not `duid`, and one line of the server's identifier,
  -- `duid` and any words, anywhere between them, dhcp_lease_get answers all leases in the order of
  -- the file; in a world where the file has lines of leases alone, it leaves the last one out.
  pub dhcp_lease_get_answers :
      (before after : List Entry) (ws : List Text) (last : Entry) (w v : World)
      → All IsEntry before
      → All IsEntry after
      → IsEntry last
      → IsDuid ws
      → w.locked ≡ false
      → v.locked ≡ false
      → w.files lease_file ≡ some (unlines (map line before ++ duid_line ws ∷ map line after))
      → v.files lease_file ≡ some (unlines (map line before ++ line last ∷ []))
      → (dhcp_lease_get atoi w ≡ done (success, map info before ++ map info after) w)
        × (dhcp_lease_get atoi v ≡ done (success, map info before) v)
  unfolding leases
  dhcp_lease_get_answers before after ws last w v hb ha hl hd free free' there there' = (
    get_lem (map line before) (map line after) (duid_line ws) w free there (
          All-append (IsPiece 0x0a) (map line before) (duid_line ws ∷ map line after)
            (lines-IsPiece before hb) (hd.one_line, lines-IsPiece after ha))
        ∙ ap (λ found. done (success, found) w)
            (clients_lem (map line before ++ duid_line ws ∷ map line after)
              (map info before ++ map info after) [] (with_duid before after ws hb ha hd)
              (one_more before after (duid_line ws))),
    get_lem (map line before) [] (line last) v free' there' (
          All-append (IsPiece 0x0a) (map line before) (line last ∷ []) (lines-IsPiece before hb)
            (hl.one_line, tt))
        ∙ ap (λ found. done (success, found) v)
            (clients_lem (map line before ++ line last ∷ []) (map info before) (info last ∷ [])
              (leases-entries before (line last ∷ []) hb
                ∙ ap (λ l. map info before ++ l) (leases-entries (last ∷ []) [] (hl, tt)))
              (one_more before [] (line last)
                ∙ ap (λ l. length l + 1) (append-nil (map info before)))),
  )
