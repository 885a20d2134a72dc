-- ===== src/Markets/Flows/CreateAll/Steps.antt =====
-- Every outcome gets its market.
use kassandra.Base.{
  ℕ, zero, suc, ◌≡◌, refl, arith, List, [], ◌∷◌, some, ok, ok-inj, leb→le, ap, ◌≤◌, length,
  >>=-eq-ok, guard-eq-ok, leb,
}
use kassandra.Platform.{Platform}
use kassandra.Bytes.{u8, u64_le}
use kassandra.Markets.Payload.{Ix, MarketIds, with_disc}
use kassandra.Markets.Keys.{account_at}
use kassandra.Markets.Funding.{create_market}
use kassandra.Markets.Flows.CreateAll.{
  CreateAllParams, CreateAllStep, create_step, create_steps, create_all_outcome_markets,
}

module _ (p : Platform) (ids : MarketIds p) (params : CreateAllParams p.Address p.Text) where
  -- The step creates the market of outcome `i`: it returns that market's address, which is the account
  -- that its instruction makes, and the data say the outcome and the seed.
  pub record Creates (i : ℕ) (s : CreateAllStep p.Address) : Type 0 where
    pub index : s.outcome_index ≡ i
    pub makes : account_at (s.instruction ∷ []) 0 2 ≡ some s.market
    pub says :
        s.instruction.payload ≡ with_disc Ix.create_market (u64_le params.seed_amount ∷ u8 i ∷ [])

  create_step-Creates :
      (i : ℕ) (s : CreateAllStep p.Address) → create_step p ids params i ≡ ok s → Creates i s
  unfolding create_step create_market
  create_step-Creates i s h = record {
    index = ground arith;
    makes = ground arith;
    says = ground arith;
  }

  -- The steps for the outcomes from `i` on.
  abbrev pub CreatesFrom : ℕ → List (CreateAllStep p.Address) → Type 0
  CreatesFrom i [] = Unit {0}
  CreatesFrom i (s ∷ ss) = Creates i s × CreatesFrom (suc i) ss

  create_steps-CreatesFrom :
      (i left : ℕ) (ss : List (CreateAllStep p.Address))
      → create_steps p ids params i left ≡ ok ss
      → (length ss ≡ left) × CreatesFrom i ss
  unfolding create_steps
  create_steps-CreatesFrom i zero ss h = rw (← ok-inj h) (refl, tt)
  create_steps-CreatesFrom i (suc left) ss h =
      let (s, es, h1) = >>=-eq-ok (create_step p ids params i) _ h in
      let (rest, er, h2) = >>=-eq-ok (create_steps p ids params (suc i) left) _ h1 in
      let (n, more) = create_steps-CreatesFrom (suc i) left rest er in
      rw (← ok-inj h2) (ap suc n, (create_step-Creates i s es, more))

-- Where the flow returns, there is at least one option, and there is one step for each option, the
-- first for outcome 0 and so on. A step returns the address of the market that its instruction makes,
-- and the instruction's data say the seed and that outcome.
pub create_all_CreatesFrom :
    (p : Platform) (ids : MarketIds p) (params : CreateAllParams p.Address p.Text)
    (ss : List (CreateAllStep p.Address))
    → create_all_outcome_markets p ids params ≡ ok ss
    → (1 ≤ params.options_count)
      × (length ss ≡ params.options_count)
      × CreatesFrom p ids params 0 ss
unfolding create_all_outcome_markets
create_all_CreatesFrom p ids params ss h =
    let (some_option, h1) = guard-eq-ok (leb 1 params.options_count) _ _ h in
    let (n, each) = create_steps-CreatesFrom p ids params 0 params.options_count ss h1 in
    (leb→le 1 params.options_count some_option, n, each)
