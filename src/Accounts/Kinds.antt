-- ===== src/Accounts/Kinds.antt =====
-- The seven decoders of fixed-size accounts side by side: which data each of them accepts.
use kassandra.Base.{ℕ, ◌≡◌, ◌↔◌, some, List, length, get_elem?, arith}
use kassandra.Platform.{Platform}
use kassandra.Accounts.Common.{
  AccountType, tag_of, protocol_size, oracle_size, proposer_size, fact_size, fact_vote_size,
  ai_claim_size, market_size,
}
use kassandra.Accounts.Total.{Succeeds}
use kassandra.Accounts.Proposer.{decode_proposer}
use kassandra.Accounts.Protocol.{decode_protocol}
use kassandra.Accounts.Oracle.{decode_oracle}
use kassandra.Accounts.Fact.{decode_fact}
use kassandra.Accounts.FactVote.{decode_fact_vote}
use kassandra.Accounts.AiClaim.{decode_ai_claim}
use kassandra.Accounts.Market.{decode_market}
use kassandra.Accounts.Proposer.Accepts.{decode_proposer_accepts}
use kassandra.Accounts.Protocol.Accepts.{decode_protocol_accepts}
use kassandra.Accounts.Oracle.Accepts.{decode_oracle_accepts}
use kassandra.Accounts.Fact.Accepts.{decode_fact_accepts}
use kassandra.Accounts.FactVote.Accepts.{decode_fact_vote_accepts}
use kassandra.Accounts.AiClaim.Accepts.{decode_ai_claim_accepts}
use kassandra.Accounts.Market.Accepts.{decode_market_accepts}

-- The accounts of a fixed size.
pub data Kind : Type 0 where
  protocol oracle proposer fact fact_vote ai_claim market : Kind

abbrev pub type_of : Kind → AccountType
type_of protocol = AccountType.protocol
type_of oracle = AccountType.oracle
type_of proposer = AccountType.proposer
type_of fact = AccountType.fact
type_of fact_vote = AccountType.fact_vote
type_of ai_claim = AccountType.ai_claim
type_of market = AccountType.market

abbrev pub size_of : Kind → ℕ
size_of protocol = protocol_size
size_of oracle = oracle_size
size_of proposer = proposer_size
size_of fact = fact_size
size_of fact_vote = fact_vote_size
size_of ai_claim = ai_claim_size
size_of market = market_size

module _ (p : Platform) where
  -- The decoder of that kind does not throw.
  abbrev pub Accepts : Kind → List ℕ → Type 0
  Accepts protocol raw = Succeeds (decode_protocol p raw)
  Accepts oracle raw = Succeeds (decode_oracle p raw)
  Accepts proposer raw = Succeeds (decode_proposer p raw)
  Accepts fact raw = Succeeds (decode_fact p raw)
  Accepts fact_vote raw = Succeeds (decode_fact_vote p raw)
  Accepts ai_claim raw = Succeeds (decode_ai_claim p raw)
  Accepts market raw = Succeeds (decode_market p raw)

  -- Each of the seven decoders accepts exactly the data of its pinned size whose first byte is its
  -- tag, and on any other data it throws.
  pub decoders_accept :
      (k : Kind) (raw : List ℕ)
      → Accepts k raw ↔ ((length raw ≡ size_of k) × (get_elem? raw 0 ≡ some (tag_of (type_of k))))
  decoders_accept protocol raw = decode_protocol_accepts p raw
  decoders_accept oracle raw = decode_oracle_accepts p raw
  decoders_accept proposer raw = decode_proposer_accepts p raw
  decoders_accept fact raw = decode_fact_accepts p raw
  decoders_accept fact_vote raw = decode_fact_vote_accepts p raw
  decoders_accept ai_claim raw = decode_ai_claim_accepts p raw
  decoders_accept market raw = decode_market_accepts p raw

  tags_distinct : (j k : Kind) → tag_of (type_of j) ≡ tag_of (type_of k) → j ≡ k
  tags_distinct j k h = ground arith

  -- No data is accepted by two of the seven decoders.
  pub decoders_disjoint : (j k : Kind) (raw : List ℕ) → Accepts j raw → Accepts k raw → j ≡ k
  decoders_disjoint j k raw aj ak =
      let tj = ((decoders_accept j raw).0 aj).1 in
      let tk = ((decoders_accept k raw).0 ak).1 in tags_distinct j k (cc)
