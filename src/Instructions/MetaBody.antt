-- ===== src/Instructions/MetaBody.antt =====
-- The metadata that `write_oracle_meta` sends, and its way back through the account's decoder.
use kassandra.Base.{
  ℕ, ◌<◌, ◌≡◌, refl, ap, ◌∙◌, arith, List, [], ◌∷◌, ◌++◌, length, drop, concat, All, append-nil, ok,
}
use kassandra.Platform.{Platform}
use kassandra.Bytes.{u8, u16_le}
use kassandra.Accounts.Common.{AccountType}
use kassandra.Accounts.Meta.{decode_oracle_meta}
use kassandra.Accounts.Meta.RoundTrip.{texts, meta_body, IsSendable, decode_oracle_meta-body}
use kassandra.Instructions.Payload.{Ix, Instruction, ProgramIds, with_disc, fixed_bytes}
use kassandra.Instructions.Lifecycle.{WriteOracleMetaArgs, write_oracle_meta, option_parts}
use kassandra.Instructions.Promises.{with_disc_lem}

concat-option_parts :
    (p : Platform) (os : List p.Text) (cs : List (List ℕ))
    → concat (option_parts p os ++ cs) ≡ texts p os (concat cs)
unfolding u16_le
concat-option_parts p [] cs = refl
concat-option_parts p (o ∷ os) cs =
    ap (λ r. u16_le (length (p.text_encode o)) ++ (p.text_encode o ++ r))
      (concat-option_parts p os cs)

module _ (p : Platform) (ids : ProgramIds p) (args : WriteOracleMetaArgs p.Address p.Text) where
  abbrev meta_parts : List (List ℕ)
  meta_parts =
      u16_le (length (p.text_encode args.subject))
        ∷ p.text_encode args.subject
        ∷ u8 (length args.options)
        ∷ option_parts p args.options
      ++ (u16_le (length (p.text_encode args.uri)) ∷ p.text_encode args.uri ∷ args.uri_hash ∷ [])

  write_parts :
      (i : Instruction p.Address)
      → write_oracle_meta p ids args ≡ ok i
      → (length args.uri_hash ≡ 32) × (i.payload ≡ with_disc Ix.write_oracle_meta meta_parts)
  unfolding write_oracle_meta fixed_bytes
  write_parts i h = ground arith

  concat-meta_parts :
      concat meta_parts ≡ meta_body p args.subject args.options args.uri args.uri_hash
  concat-meta_parts = rw (concat-option_parts p args.options, append-nil args.uri_hash)

  -- The program stores the data behind the discriminant under a header of tag, bump and oracle.
  -- The decoder reads that account back to the arguments' texts and hash, whatever the bump, if each
  -- text has no lone surrogate and no byte order mark in front and is shorter than 2 ^ 16 bytes, and
  -- there are fewer than 256 options.
  pub decode_oracle_meta-write_oracle_meta :
      (i : Instruction p.Address) (oracle : p.Address) (bump : ℕ)
      → write_oracle_meta p ids args ≡ ok i
      → IsSendable p args.subject
      → All (IsSendable p) args.options
      → length args.options < 256
      → IsSendable p args.uri
      → decode_oracle_meta p (8 ∷ bump ∷ (p.to_bytes oracle ++ drop 1 i.payload))
        ≡ ok (record {
          account_type = AccountType.oracle_meta;
          oracle = oracle;
          subject = args.subject;
          options = args.options;
          uri = args.uri;
          uri_hash = args.uri_hash;
        })
  decode_oracle_meta-write_oracle_meta i oracle bump built s os few u =
      let (hash, payload) = write_parts i built in
      let sent = payload ∙ with_disc_lem Ix.write_oracle_meta meta_parts in
      decode_oracle_meta-body p _ bump _
        (ap (λ d. 8 ∷ bump ∷ (p.to_bytes oracle ++ drop 1 d)) sent
          ∙ ap (λ d. 8 ∷ bump ∷ (p.to_bytes oracle ++ d)) concat-meta_parts)
        refl s os few u hash
