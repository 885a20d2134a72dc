-- ===== src/Accounts/Layouts.antt =====
-- The seven accounts of a fixed size side by side: what lies in memory is what the decoders read.
use kassandra.Base.{ℕ, ◌≡◌, List, ◌∷◌, concat, Result, ok}
use kassandra.Platform.{Platform}
use kassandra.Accounts.Layout.{header}
use kassandra.Accounts.Kinds.{Kind, type_of}
use kassandra.Accounts.Protocol.{Protocol, decode_protocol}
use kassandra.Accounts.Protocol.Layout.{protocol_fields, FitsProtocol, decode_protocol-layout}
use kassandra.Accounts.Oracle.{Oracle, decode_oracle}
use kassandra.Accounts.Oracle.Layout.{oracle_fields, FitsOracle, decode_oracle-layout}
use kassandra.Accounts.Proposer.{Proposer, decode_proposer}
use kassandra.Accounts.Proposer.Layout.{proposer_fields, FitsProposer, decode_proposer-layout}
use kassandra.Accounts.Fact.{Fact, decode_fact}
use kassandra.Accounts.Fact.Layout.{fact_fields, FitsFact, decode_fact-layout}
use kassandra.Accounts.FactVote.{FactVote, decode_fact_vote}
use kassandra.Accounts.FactVote.Layout.{fact_vote_fields, FitsFactVote, decode_fact_vote-layout}
use kassandra.Accounts.AiClaim.{AiClaim, decode_ai_claim}
use kassandra.Accounts.AiClaim.Layout.{ai_claim_fields, FitsAiClaim, decode_ai_claim-layout}
use kassandra.Accounts.Market.{Market, decode_market}
use kassandra.Accounts.Market.Layout.{market_fields, FitsMarket, decode_market-layout}

module _ (p : Platform) where
  -- What the decoder of a kind returns, the decoder, and the fields and ranges of the Rust struct.
  abbrev pub Account : Kind → Type 0
  Account Kind.protocol = Protocol p.Address
  Account Kind.oracle = Oracle p.Address
  Account Kind.proposer = Proposer p.Address
  Account Kind.fact = Fact p.Address p.Text
  Account Kind.fact_vote = FactVote p.Address
  Account Kind.ai_claim = AiClaim p.Address
  Account Kind.market = Market p.Address

  abbrev pub decode : (k : Kind) → List ℕ → Result (Account k)
  decode Kind.protocol raw = decode_protocol p raw
  decode Kind.oracle raw = decode_oracle p raw
  decode Kind.proposer raw = decode_proposer p raw
  decode Kind.fact raw = decode_fact p raw
  decode Kind.fact_vote raw = decode_fact_vote p raw
  decode Kind.ai_claim raw = decode_ai_claim p raw
  decode Kind.market raw = decode_market p raw

  abbrev pub fields : (k : Kind) → Account k → List (List ℕ)
  fields Kind.protocol a = protocol_fields p a
  fields Kind.oracle a = oracle_fields p a
  fields Kind.proposer a = proposer_fields p a
  fields Kind.fact a = fact_fields p a
  fields Kind.fact_vote a = fact_vote_fields p a
  fields Kind.ai_claim a = ai_claim_fields p a
  fields Kind.market a = market_fields p a

  abbrev pub Fits : (k : Kind) → Account k → Type 0
  Fits Kind.protocol a = FitsProtocol p a
  Fits Kind.oracle a = FitsOracle p a
  Fits Kind.proposer a = FitsProposer p a
  Fits Kind.fact a = FitsFact p a
  Fits Kind.fact_vote a = FitsFactVote p a
  Fits Kind.ai_claim a = FitsAiClaim p a
  Fits Kind.market a = FitsMarket p a

  -- Each of the seven decoders reads back every field of an account that lies in memory as the Rust
  -- struct of its kind does, its numbers within their types.
  pub decode_account-layout :
      (k : Kind) (a : Account k) (raw : List ℕ)
      → raw ≡ concat (header (type_of k) ∷ fields k a)
      → Fits k a
      → decode k raw ≡ ok a
  decode_account-layout Kind.protocol a raw laid fits = decode_protocol-layout p a raw laid fits
  decode_account-layout Kind.oracle a raw laid fits = decode_oracle-layout p a raw laid fits
  decode_account-layout Kind.proposer a raw laid fits = decode_proposer-layout p a raw laid fits
  decode_account-layout Kind.fact a raw laid fits = decode_fact-layout p a raw laid fits
  decode_account-layout Kind.fact_vote a raw laid fits = decode_fact_vote-layout p a raw laid fits
  decode_account-layout Kind.ai_claim a raw laid fits = decode_ai_claim-layout p a raw laid fits
  decode_account-layout Kind.market a raw laid fits = decode_market-layout p a raw laid fits
