-- ===== src/Accounts/Meta/RoundTrip.antt =====
-- What `write_oracle_meta` sends is what the decoder reads back from the account.
use kassandra.Base.{
  ℕ, zero, suc, ◌+◌, ◌%◌, ◌^◌, ◌<◌, ◌≤◌, ◌≡◌, refl, sym, ap, ◌∙◌, arith, List, [], ◌∷◌, ◌++◌,
  length, take, drop, length-drop, length-append, take-append, take_all, drop-append, get_elem?, ok,
  le→leb, All, true,
}
use kassandra.Platform.{Platform}
use kassandra.Bytes.{le, u8, u16_le}
use kassandra.Bytes.RoundTrip.{length-le, of_le-le}
use kassandra.Accounts.Common.{AccountType, slice, get_uint, read_u16_le, read_pubkey}
use kassandra.Accounts.Meta.{
  OracleMeta, next_u16, next_text, next_texts, count_at, decode_oracle_meta,
}

-- The data from `off` on.
abbrev pub At : List ℕ → ℕ → List ℕ → Type 0
At raw off rest = drop off raw ≡ rest

drop-nil {ℓ} : {A : Type ℓ} (n : ℕ) → drop {A = A} n [] ≡ []
drop-nil zero = refl
drop-nil (suc n) = refl

drop-drop {ℓ} : {A : Type ℓ} (a b n : ℕ) (xs : List A) → a + b ≡ n → drop n xs ≡ drop b (drop a xs)
drop-drop zero b n xs h = ap (λ k. drop k xs) (sym (omega arith))
drop-drop (suc a) b zero xs h = absurd (omega arith)
drop-drop (suc a) b (suc n) [] h = sym (drop-nil b)
drop-drop (suc a) b (suc n) (x ∷ xs) h = drop-drop a b n xs (omega arith)

-- Reading a chunk at the cursor, and moving behind it.
slice-At :
    (raw chunk rest : List ℕ) (off n : ℕ)
    → At raw off (chunk ++ rest)
    → length chunk ≡ n
    → slice raw off n ≡ chunk
unfolding slice
slice-At raw chunk rest off n at l = ap (take n) at ∙ take-append chunk rest l

At-skip :
    (raw chunk rest : List ℕ) (off n : ℕ)
    → At raw off (chunk ++ rest)
    → length chunk ≡ n
    → At raw (off + n) rest
At-skip raw chunk rest off n at l =
    drop-drop off n _ raw refl ∙ ap (drop n) at ∙ drop-append chunk rest l

next_u16-At :
    (raw rest : List ℕ) (off v : ℕ)
    → At raw off (u16_le v ++ rest)
    → v < 2 ^ 16
    → next_u16 raw off ≡ ok (v, off + 2)
unfolding next_u16 read_u16_le get_uint u16_le
next_u16-At raw rest off v at lt =
    let fits : off + 2 ≤ length raw =
      omega
        (arith, length-drop off raw, ap length at, length-append (le 2 v) rest, length-le 2 v) in
    rw (le→leb _ _ fits, slice-At raw (le 2 v) rest off 2 at (length-le 2 v), of_le-le 2 v lt)

-- A length and that many bytes, as the builder writes them.
abbrev pub prefixed : List ℕ → List ℕ → List ℕ
prefixed b rest = u16_le (length b) ++ (b ++ rest)

module _ (p : Platform) where
  next_text-At :
      (raw rest : List ℕ) (off : ℕ) (t : p.Text)
      → At raw off (prefixed (p.text_encode t) rest)
      → p.is_plain t ≡ true
      → length (p.text_encode t) < 2 ^ 16
      → next_text p raw off ≡ ok (t, off + 2 + length (p.text_encode t))
  unfolding next_text u16_le
  next_text-At raw rest off t at plain lt =
      let b = p.text_encode t in
      let behind = At-skip raw (u16_le (length b)) (b ++ rest) off 2 at (length-le 2 _) in
      rw (
        next_u16-At raw (b ++ rest) off (length b) at lt,
        slice-At raw b rest (off + 2) (length b) behind refl,
        p.decode-encode t plain,
      )

  At-skip_text :
      (raw rest b : List ℕ) (off : ℕ)
      → At raw off (prefixed b rest)
      → At raw (off + 2 + length b) rest
  unfolding u16_le
  At-skip_text raw rest b off at =
      At-skip raw b rest (off + 2) (length b)
        (At-skip raw (u16_le (length b)) (b ++ rest) off 2 at (length-le 2 _)) refl

  -- The options one after the other, and where they end.
  abbrev pub texts : List p.Text → List ℕ → List ℕ
  texts [] rest = rest
  texts (o ∷ os) rest = prefixed (p.text_encode o) (texts os rest)

  abbrev pub texts_end : List p.Text → ℕ → ℕ
  texts_end [] off = off
  texts_end (o ∷ os) off = texts_end os (off + 2 + length (p.text_encode o))

  -- A text that the codec takes back, and whose length two bytes hold.
  abbrev pub IsSendable : p.Text → Type 0
  IsSendable t = (p.is_plain t ≡ true) × (length (p.text_encode t) < 2 ^ 16)

  next_texts-At :
      (os : List p.Text) (raw rest : List ℕ) (off : ℕ)
      → At raw off (texts os rest)
      → All IsSendable os
      → (next_texts p (length os) raw off ≡ ok (os, texts_end os off))
        × At raw (texts_end os off) rest
  unfolding next_texts
  next_texts-At [] raw rest off at short = (refl, at)
  next_texts-At (o ∷ os) raw rest off at ((plain, s), short) =
      let off' = off + 2 + length (p.text_encode o) in
      let (read, end) =
        next_texts-At os raw rest off' (At-skip_text raw (texts os rest) (p.text_encode o) off at)
          short in
      (rw (next_text-At raw (texts os rest) off o at plain s, read), end)

  -- The account's body: subject, options, uri and hash.
  abbrev pub meta_body : p.Text → List p.Text → p.Text → List ℕ → List ℕ
  meta_body subject options uri uri_hash =
      prefixed (p.text_encode subject)
        (u8 (length options) ++ texts options (prefixed (p.text_encode uri) uri_hash))

  count_at_lem : (raw rest : List ℕ) (off n : ℕ) → At raw off (n ∷ rest) → count_at raw off ≡ n
  count_at_lem [] rest zero n at = cc
  count_at_lem [] rest (suc off) n at = cc
  count_at_lem (x ∷ raw) rest zero n at = cc
  count_at_lem (x ∷ raw) rest (suc off) n at = count_at_lem raw rest off n at

  read_pubkey-At :
      (raw rest : List ℕ) (off : ℕ) (a : p.Address)
      → At raw off (p.to_bytes a ++ rest)
      → read_pubkey p raw off ≡ ok a
  unfolding read_pubkey
  read_pubkey-At raw rest off a at =
      ap p.address_of_bytes (slice-At raw (p.to_bytes a) rest off 32 at (p.length-to_bytes a))
      ∙ p.of_bytes-to_bytes a

  read_hash :
      (raw hash : List ℕ) (off : ℕ) → At raw off hash → length hash ≡ 32 → slice raw off 32 ≡ hash
  unfolding slice
  read_hash raw hash off at l = ap (take 32) at ∙ take_all hash l

  -- The account as `write_oracle_meta` of the program lays it out is read back whole.
  pub decode_oracle_meta-body :
      (a : OracleMeta p.Address p.Text) (bump : ℕ) (raw : List ℕ)
      → raw ≡ 8 ∷ bump ∷ (p.to_bytes a.oracle ++ meta_body a.subject a.options a.uri a.uri_hash)
      → a.account_type ≡ AccountType.oracle_meta
      → IsSendable a.subject
      → All IsSendable a.options
      → length a.options < 256
      → IsSendable a.uri
      → length a.uri_hash ≡ 32
      → decode_oracle_meta p raw ≡ ok a
  unfolding decode_oracle_meta u8
  decode_oracle_meta-body a bump raw laid tagged s os few u hash =
      let rest = texts a.options (prefixed (p.text_encode a.uri) a.uri_hash) in
      let body = meta_body a.subject a.options a.uri a.uri_hash in
      let off = 36 + length (p.text_encode a.subject) in
      let at_key : At raw 2 (p.to_bytes a.oracle ++ body) = ap (drop 2) laid in
      let key = read_pubkey-At raw body 2 a.oracle at_key in
      let at_subject : At raw 34 body =
        At-skip raw (p.to_bytes a.oracle) body 2 32 at_key (p.length-to_bytes a.oracle) in
      let at_count : At raw off ((length a.options % 256) ∷ rest) =
        At-skip_text raw _ (p.text_encode a.subject) 34 at_subject in
      let count : count_at raw off ≡ length a.options =
        count_at_lem raw rest off _ at_count ∙ omega arith in
      let at_options : At raw (off + 1) rest = At-skip raw (_ ∷ []) rest off 1 at_count refl in
      let (options, at_uri) = next_texts-At a.options raw _ (off + 1) at_options os in
      let at_hash = At-skip_text raw a.uri_hash (p.text_encode a.uri) _ at_uri in
      rw
        (
          ap (λ r. get_elem? r 0) laid,
          key,
          next_text-At raw _ 34 a.subject at_subject s.0 s.1,
          count,
          options,
          next_text-At raw _ _ a.uri at_uri u.0 u.1,
          read_hash raw a.uri_hash _ at_hash hash,
        )
        (ap (λ t. ok (record a { account_type = t })) (sym tagged))
