-- ===== src/Wire/RoundTrip.antt =====
-- What the SDK's builders send, the program parses to the arguments that the caller gave.
use kassandra.Base.{
  ℕ, ◌+◌, ◌^◌, ◌<◌, ◌≤◌, ◌≡◌, refl, ap, ◌∙◌, ◌⊎◌, arith, List, [], ◌∷◌, concat, true, ok, length,
  drop, ◌==◌, le→leb, ==_iff, ◌||◌,
}
use kassandra.Base.Int.{IsI64}
use kassandra.Platform.{Platform}
use kassandra.Bytes.{le, u8, u16_le, u64_le, i64_le}
use kassandra.Accounts.Layout.{
  slice-field, read_u8-field, read_u16_le-field, read_u64_le-field, read_i64_le-field,
  length-concat,
}
use kassandra.Instructions.Payload.{Ix, Instruction, ProgramIds, with_disc, fixed_bytes}
use kassandra.Instructions.Lifecycle.{ProposeArgs, propose, CreateOracleArgs, create_oracle}
use kassandra.Instructions.Dispute.{
  SubmitFactArgs, submit_fact, uri_bytes, VoteFactArgs, vote_fact, SubmitAiClaimArgs,
  submit_ai_claim,
}
use kassandra.Instructions.Promises.{with_disc_lem}
use kassandra.Wire.{
  parse_submit_fact, parse_vote_fact, parse_propose, parse_create_oracle, parse_submit_ai_claim,
}

-- The data behind the discriminant is the chunks.
behind : (ix : Ix) (cs : List (List ℕ)) {d : List ℕ} → d ≡ with_disc ix cs → drop 1 d ≡ concat cs
behind ix cs e = ap (drop 1) (e ∙ with_disc_lem ix cs)

length_laid :
    (cs : List (List ℕ)) {raw : List ℕ} {n : ℕ}
    → raw ≡ concat cs
    → length (concat cs) ≡ n
    → (length raw == n) ≡ true
length_laid cs laid h = ground (arith, ap length laid)

module _ (p : Platform) (ids : ProgramIds p) where
  -- `propose`: the option and the bond arrive, each in the range of its type.
  pub parse-propose :
      (args : ProposeArgs p.Address p.Text) (i : Instruction p.Address)
      → propose p ids args ≡ ok i
      → args.option < 256
      → args.bond < 2 ^ 64
      → parse_propose (drop 1 i.payload) ≡ ok (args.option, args.bond)
  unfolding propose parse_propose u8 u64_le le
  parse-propose args i built o b =
      let cs : List (List ℕ) = u8 args.option ∷ u64_le args.bond ∷ [] in
      let laid = behind Ix.propose cs {d = i.payload} (ground arith) in
      rw (
        length_laid cs {n = 9} laid refl,
        read_u8-field cs laid 0 {off = 0} args.option refl refl o,
        read_u64_le-field cs laid 1 {off = 1} args.bond refl refl b,
      )

  -- `vote_fact`: a vote of one of the two kinds arrives with its stake.
  pub parse-vote_fact :
      (args : VoteFactArgs p.Address p.Text) (i : Instruction p.Address)
      → vote_fact p ids args ≡ ok i
      → (args.kind ≡ 0) ⊎ (args.kind ≡ 1)
      → args.stake < 2 ^ 64
      → parse_vote_fact (drop 1 i.payload) ≡ ok (args.kind, args.stake)
  unfolding vote_fact parse_vote_fact u8 u64_le le
  parse-vote_fact args i built k s =
      let cs : List (List ℕ) = u8 args.kind ∷ u64_le args.stake ∷ [] in
      let laid = behind Ix.vote_fact cs {d = i.payload} (ground arith) in
      let known : (args.kind == 0 || args.kind == 1) ≡ true = ground arith in
      rw (
        length_laid cs {n = 9} laid refl,
        read_u8-field cs laid 0 {off = 0} args.kind refl refl (ground arith),
        known,
        read_u64_le-field cs laid 1 {off = 1} args.stake refl refl s,
      )

  -- `create_oracle`: the nonce, the number of options, the deadline and the window arrive.
  pub parse-create_oracle :
      (args : CreateOracleArgs p.Address p.Text) (i : Instruction p.Address)
      → create_oracle p ids args ≡ ok i
      → args.nonce < 2 ^ 64
      → args.options_count < 256
      → IsI64 args.deadline
      → IsI64 args.twap_window
      → parse_create_oracle (drop 1 i.payload)
        ≡ ok (args.nonce, args.options_count, args.deadline, args.twap_window)
  unfolding create_oracle parse_create_oracle u8 u64_le i64_le le
  parse-create_oracle args i built n o d t =
      let cs : List (List ℕ) =
        u64_le args.nonce
        ∷ u8 args.options_count
        ∷ i64_le args.deadline
        ∷ i64_le args.twap_window
        ∷ [] in
      let laid = behind Ix.create_oracle cs {d = i.payload} (ground arith) in
      rw (
        length_laid cs {n = 25} laid refl,
        read_u64_le-field cs laid 0 {off = 0} args.nonce refl refl n,
        read_u8-field cs laid 1 {off = 8} args.options_count refl refl o,
        read_i64_le-field cs laid 2 {off = 9} args.deadline refl refl d,
        read_i64_le-field cs laid 3 {off = 17} args.twap_window refl refl t,
      )

  -- `submit_ai_claim`: the three hashes and the option arrive. That the hashes have 32 bytes is no
  -- hypothesis, since the builder throws otherwise.
  pub parse-submit_ai_claim :
      (args : SubmitAiClaimArgs p.Address p.Text) (i : Instruction p.Address)
      → submit_ai_claim p ids args ≡ ok i
      → args.option < 256
      → parse_submit_ai_claim (drop 1 i.payload)
        ≡ ok (args.model_id, args.params_hash, args.io_hash, args.option)
  unfolding submit_ai_claim parse_submit_ai_claim fixed_bytes u8 le
  parse-submit_ai_claim args i built o =
      let cs : List (List ℕ) =
        args.model_id ∷ args.params_hash ∷ args.io_hash ∷ u8 args.option ∷ [] in
      let laid = behind Ix.submit_ai_claim cs {d = i.payload} (ground arith) in
      let lm : length args.model_id ≡ 32 = ground arith in
      let lp : length args.params_hash ≡ 32 = ground arith in
      let li : length args.io_hash ≡ 32 = ground arith in
      rw (
        length_laid cs {n = 97} laid (length-concat cs ∙ omega arith),
        read_u8-field cs laid 3 {off = 96} args.option refl (omega arith) o,
        laid,
        slice-field cs 0 {off = 0} {n = 32} refl refl lm,
        slice-field cs 1 {off = 32} {n = 32} refl (omega arith) lp,
        slice-field cs 2 {off = 64} {n = 32} refl (omega arith) li,
      )

  -- `submit_fact`: the content hash, the stake and the bytes of the uri arrive, if the uri has at
  -- most 200 bytes.
  pub parse-submit_fact :
      (args : SubmitFactArgs p.Address p.Text) (i : Instruction p.Address)
      → submit_fact p ids args ≡ ok i
      → args.stake < 2 ^ 64
      → length (uri_bytes p args.uri) ≤ 200
      → parse_submit_fact (drop 1 i.payload)
        ≡ ok (args.content_hash, args.stake, uri_bytes p args.uri)
  unfolding submit_fact parse_submit_fact fixed_bytes u16_le u64_le le
  parse-submit_fact args i built s u =
      let uri = uri_bytes p args.uri in
      let cs : List (List ℕ) =
        args.content_hash ∷ u64_le args.stake ∷ u16_le (length uri) ∷ uri ∷ [] in
      let laid = behind Ix.submit_fact cs {d = i.payload} (ground arith) in
      let lh : length args.content_hash ≡ 32 = ground arith in
      let size : length (drop 1 i.payload) ≡ 42 + length uri =
        ap length laid ∙ length-concat cs ∙ omega arith in
      rw (
        le→leb 42 (length (drop 1 i.payload)) (omega arith),
        read_u64_le-field cs laid 1 {off = 32} args.stake refl (omega arith) s,
        read_u16_le-field cs laid 2 {off = 40} (length uri) refl (omega arith) (omega arith),
        le→leb (length uri) 200 u,
        le→leb (42 + length uri) (length (drop 1 i.payload)) (omega arith),
        (==_iff (length (drop 1 i.payload)) (42 + length uri)).1 size,
        laid,
        slice-field cs 0 {off = 0} {n = 32} refl refl lh,
        slice-field cs 3 {off = 42} {n = length uri} refl (omega arith) refl,
      )
