-- ===== src/Markets/Promises.antt =====
-- The twelve builders for the market program side by side, and what they promise.
use kassandra.Base.{
  ℕ, ◌∙◌, ◌%◌, ◌≡◌, refl, ap, List, [], ◌∷◌, Option, none, some, Result, ok, arith, get_elem?,
  concat,
}
use kassandra.Platform.{Platform}
use kassandra.Bytes.{u8, u64_le}
use kassandra.Bytes.RoundTrip.{concat_bytes-concat}
use kassandra.Instructions.Payload.{Instruction, Input}
use kassandra.Instructions.Calls.{signing, SignedBy}
use kassandra.Markets.Payload.{Ix, disc_of, MarketIds, program_or_default, with_disc}
use kassandra.Markets.Config
use kassandra.Markets.Config.{InitConfigArgs, UpdateConfigArgs}
use kassandra.Markets.Funding
use kassandra.Markets.Funding.{CreateMarketArgs, ContributeArgs, CancelArgs, RefundArgs}
use kassandra.Markets.Lifecycle
use kassandra.Markets.Lifecycle.{ActivateArgs, ClaimLpArgs, ResolveMarketArgs, CloseMarketArgs}
use kassandra.Markets.Liquidity
use kassandra.Markets.Liquidity.{CollectFeeArgs, AddLiquidityArgs}

-- A call of one of the builders.
pub data MarketCall (Address Text : Type 0) : Type 0 where
  init_config : InitConfigArgs Address Text → MarketCall Address Text
  update_config : UpdateConfigArgs Address Text → MarketCall Address Text
  create_market : CreateMarketArgs Address Text → MarketCall Address Text
  contribute : ContributeArgs Address Text → MarketCall Address Text
  cancel : CancelArgs Address Text → MarketCall Address Text
  refund : RefundArgs Address Text → MarketCall Address Text
  activate : ActivateArgs Address Text → MarketCall Address Text
  claim_lp : ClaimLpArgs Address Text → MarketCall Address Text
  resolve_market : ResolveMarketArgs Address Text → MarketCall Address Text
  collect_fee : CollectFeeArgs Address Text → MarketCall Address Text
  close_market : CloseMarketArgs Address Text → MarketCall Address Text
  add_liquidity : AddLiquidityArgs Address Text → MarketCall Address Text

abbrev pub ix_of : {Address Text : Type 0} → MarketCall Address Text → Ix
ix_of (MarketCall.init_config args) = Ix.init_config
ix_of (MarketCall.update_config args) = Ix.update_config
ix_of (MarketCall.create_market args) = Ix.create_market
ix_of (MarketCall.contribute args) = Ix.contribute
ix_of (MarketCall.cancel args) = Ix.cancel
ix_of (MarketCall.refund args) = Ix.refund
ix_of (MarketCall.activate args) = Ix.activate
ix_of (MarketCall.claim_lp args) = Ix.claim_lp
ix_of (MarketCall.resolve_market args) = Ix.resolve_market
ix_of (MarketCall.collect_fee args) = Ix.collect_fee
ix_of (MarketCall.close_market args) = Ix.close_market
ix_of (MarketCall.add_liquidity args) = Ix.add_liquidity

module _ (p : Platform) where
  abbrev pub program_of : MarketCall p.Address p.Text → Option p.Address
  program_of (MarketCall.init_config args) = args.program_id
  program_of (MarketCall.update_config args) = args.program_id
  program_of (MarketCall.create_market args) = args.program_id
  program_of (MarketCall.contribute args) = args.program_id
  program_of (MarketCall.cancel args) = args.program_id
  program_of (MarketCall.refund args) = args.program_id
  program_of (MarketCall.activate args) = args.program_id
  program_of (MarketCall.claim_lp args) = args.program_id
  program_of (MarketCall.resolve_market args) = args.program_id
  program_of (MarketCall.collect_fee args) = args.program_id
  program_of (MarketCall.close_market args) = args.program_id
  program_of (MarketCall.add_liquidity args) = args.program_id

  -- The argument that names the signer; a call without one may be sent by anybody.
  abbrev pub authority_of : MarketCall p.Address p.Text → Option (Input p)
  authority_of (MarketCall.init_config args) = some args.payer
  authority_of (MarketCall.update_config args) = some args.authority
  authority_of (MarketCall.create_market args) = some args.creator
  authority_of (MarketCall.contribute args) = some args.contributor
  authority_of (MarketCall.cancel args) = none
  authority_of (MarketCall.refund args) = none
  authority_of (MarketCall.activate args) = some args.payer
  authority_of (MarketCall.claim_lp args) = none
  authority_of (MarketCall.resolve_market args) = none
  authority_of (MarketCall.collect_fee args) = none
  authority_of (MarketCall.close_market args) = none
  authority_of (MarketCall.add_liquidity args) = some args.depositor

  abbrev pub build : MarketIds p → MarketCall p.Address p.Text → Result (Instruction p.Address)
  build ids (MarketCall.init_config args) = Config.init_config p ids args
  build ids (MarketCall.update_config args) = Config.update_config p ids args
  build ids (MarketCall.create_market args) = Funding.create_market p ids args
  build ids (MarketCall.contribute args) = Funding.contribute p ids args
  build ids (MarketCall.cancel args) = Funding.cancel p ids args
  build ids (MarketCall.refund args) = Funding.refund p ids args
  build ids (MarketCall.activate args) = Lifecycle.activate p ids args
  build ids (MarketCall.claim_lp args) = Lifecycle.claim_lp p ids args
  build ids (MarketCall.resolve_market args) = Lifecycle.resolve_market p ids args
  build ids (MarketCall.collect_fee args) = Liquidity.collect_fee p ids args
  build ids (MarketCall.close_market args) = Lifecycle.close_market p ids args
  build ids (MarketCall.add_liquidity args) = Liquidity.add_liquidity p ids args

tag_byte : (ix : Ix) → disc_of ix % 256 ≡ disc_of ix
tag_byte Ix.init_config = refl
tag_byte _ = refl

pub with_disc_lem : (ix : Ix) (cs : List (List ℕ)) → with_disc ix cs ≡ disc_of ix ∷ concat cs
unfolding with_disc
with_disc_lem ix cs =
    concat_bytes-concat (u8 (disc_of ix) ∷ cs) ∙ ap (λ b. b ∷ concat cs) (tag_byte ix)

with_disc-head : (ix : Ix) (cs : List (List ℕ)) → get_elem? (with_disc ix cs) 0 ≡ some (disc_of ix)
with_disc-head ix cs = ap (λ l. get_elem? l 0) (with_disc_lem ix cs)

module _ (p : Platform) (ids : MarketIds p) where
  -- Whatever a builder for the market program returns is for the program that was named, or the default
  -- one; its data begins with the discriminant of its instruction; and the one account that must sign is
  -- the authority that the arguments name, or none where the instruction is a crank.
  pub build_market_lem :
      (c : MarketCall p.Address p.Text) (i : Instruction p.Address)
      → build p ids c ≡ ok i
      → (i.program_id ≡ program_or_default p ids (program_of p c))
        × (get_elem? i.payload 0 ≡ some (disc_of (ix_of c)))
        × SignedBy p (authority_of p c) (signing i.keys)
  unfolding Config.init_config Config.update_config Funding.create_market Funding.contribute
      Funding.cancel Funding.refund Lifecycle.activate Lifecycle.claim_lp Lifecycle.resolve_market
      Liquidity.collect_fee Lifecycle.close_market Liquidity.add_liquidity
  build_market_lem (MarketCall.init_config args) i h = grind (arith, with_disc-head)
  build_market_lem (MarketCall.update_config args) i h = grind (arith, with_disc-head)
  build_market_lem (MarketCall.create_market args) i h = grind (arith, with_disc-head)
  build_market_lem (MarketCall.contribute args) i h = grind (arith, with_disc-head)
  build_market_lem (MarketCall.cancel args) i h = grind (arith, with_disc-head)
  build_market_lem (MarketCall.refund args) i h = grind (arith, with_disc-head)
  build_market_lem (MarketCall.activate args) i h = ground (arith, with_disc-head Ix.activate [])
  build_market_lem (MarketCall.claim_lp args) i h = grind (arith, with_disc-head)
  build_market_lem (MarketCall.resolve_market args) i h = grind (arith, with_disc-head)
  build_market_lem (MarketCall.collect_fee args) i h =
      ground (arith, with_disc-head Ix.collect_fee [])
  build_market_lem (MarketCall.close_market args) i h = grind (arith, with_disc-head)
  build_market_lem (MarketCall.add_liquidity args) i h = ground (
    arith,
    with_disc-head Ix.add_liquidity (
        u64_le args.amount
        ∷ u64_le args.quote_amount
        ∷ u64_le args.max_base_amount
        ∷ u64_le args.min_lp_tokens
        ∷ []),
  )
