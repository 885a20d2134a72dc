-- ===== src/Wire/Requests.antt =====
-- The five requests whose parameters the program parses one by one, side by side.
use kassandra.Base.{ℕ, ◌^◌, ◌<◌, ◌≤◌, ◌≡◌, ◌⊎◌, List, ok, Result, length, drop}
use kassandra.Base.Int.{ℤ, IsI64}
use kassandra.Platform.{Platform}
use kassandra.Instructions.Payload.{Instruction, ProgramIds}
use kassandra.Instructions.Lifecycle.{ProposeArgs, propose, CreateOracleArgs, create_oracle}
use kassandra.Instructions.Dispute.{
  SubmitFactArgs, submit_fact, uri_bytes, VoteFactArgs, vote_fact, SubmitAiClaimArgs,
  submit_ai_claim,
}
use kassandra.Wire.{
  parse_submit_fact, parse_vote_fact, parse_propose, parse_create_oracle, parse_submit_ai_claim,
}
use kassandra.Wire.RoundTrip.{
  parse-propose, parse-vote_fact, parse-create_oracle, parse-submit_ai_claim, parse-submit_fact,
}

pub data Request : Type 0 where
  proposal vote oracle claim fact : Request

-- What the parser of a kind returns.
abbrev pub Parameters : Request → Type 0
Parameters proposal = ℕ × ℕ
Parameters vote = ℕ × ℕ
Parameters oracle = ℕ × ℕ × ℤ × ℤ
Parameters claim = List ℕ × List ℕ × List ℕ × ℕ
Parameters fact = List ℕ × ℕ × List ℕ

abbrev pub parse : (k : Request) → List ℕ → Result (Parameters k)
parse proposal d = parse_propose d
parse vote d = parse_vote_fact d
parse oracle d = parse_create_oracle d
parse claim d = parse_submit_ai_claim d
parse fact d = parse_submit_fact d

module _ (p : Platform) where
  abbrev pub Args : Request → Type 0
  Args proposal = ProposeArgs p.Address p.Text
  Args vote = VoteFactArgs p.Address p.Text
  Args oracle = CreateOracleArgs p.Address p.Text
  Args claim = SubmitAiClaimArgs p.Address p.Text
  Args fact = SubmitFactArgs p.Address p.Text

  -- The parameters among a caller's arguments, and the ranges that the caller's types leave open.
  abbrev pub parameters : (k : Request) → Args k → Parameters k
  parameters proposal args = (args.option, args.bond)
  parameters vote args = (args.kind, args.stake)
  parameters oracle args = (args.nonce, args.options_count, args.deadline, args.twap_window)
  parameters claim args = (args.model_id, args.params_hash, args.io_hash, args.option)
  parameters fact args = (args.content_hash, args.stake, uri_bytes p args.uri)

  abbrev pub InRange : (k : Request) → Args k → Type 0
  InRange proposal args = (args.option < 256) × (args.bond < 2 ^ 64)
  InRange vote args = ((args.kind ≡ 0) ⊎ (args.kind ≡ 1)) × (args.stake < 2 ^ 64)
  InRange oracle args =
      (args.nonce < 2 ^ 64)
      × (args.options_count < 256)
      × IsI64 args.deadline
      × IsI64 args.twap_window
  InRange claim args = args.option < 256
  InRange fact args = (args.stake < 2 ^ 64) × (length (uri_bytes p args.uri) ≤ 200)

  module _ (ids : ProgramIds p) where
    abbrev pub request : (k : Request) → Args k → Result (Instruction p.Address)
    request proposal args = propose p ids args
    request vote args = vote_fact p ids args
    request oracle args = create_oracle p ids args
    request claim args = submit_ai_claim p ids args
    request fact args = submit_fact p ids args

    -- Behind the discriminant of the instruction that a builder returns, the program's parser of
    -- the same request finds the parameters that the caller gave, for propose, vote_fact,
    -- create_oracle, submit_ai_claim and submit_fact, where the numbers are in the range of their
    -- types and the uri has at most 200 bytes.
    pub parse-request :
        (k : Request) (args : Args k) (i : Instruction p.Address)
        → request k args ≡ ok i
        → InRange k args
        → parse k (drop 1 i.payload) ≡ ok (parameters k args)
    parse-request proposal args i built fits = parse-propose p ids args i built fits.0 fits.1
    parse-request vote args i built fits = parse-vote_fact p ids args i built fits.0 fits.1
    parse-request oracle args i built (n, o, d, t) = parse-create_oracle p ids args i built n o d t
    parse-request claim args i built fits = parse-submit_ai_claim p ids args i built fits
    parse-request fact args i built fits = parse-submit_fact p ids args i built fits.0 fits.1
