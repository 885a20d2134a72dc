-- ===== src/Markets/Flows/Trade.antt =====
-- sdks/markets/ts/src/flows/trade.ts.
pub mod Legs
use Prim.Native.String.{String}
use text.Mathlib.Text.{◌==◌}
use kassandra.Base.{
  ℕ, List, [], ◌∷◌, Bool, ◌||◌, Option, some, Result, ok, err, bad_outcome, if◌then◌else◌, ◌>>=◌,
}
use kassandra.Platform.{Platform}
use kassandra.Instructions.Payload.{Instruction, AddressInput, address, Input}
use kassandra.Markets.Payload.{MarketIds}
use kassandra.Markets.Metadao.Vault.{InteractWithVaultArgs, split_tokens, merge_tokens}
use kassandra.Markets.Metadao.Amm.{SwapType, swap, or_zero, given_or_ata}
use kassandra.Markets.Flows.Compose.{MarketRefs}

-- An outcome is the text that the caller passes; the type of the source allows the two.
unfoldable pub is_yes : String → Result Bool
is_yes outcome =
    if outcome == "yes" || outcome == "no" then ok (outcome == "yes") else err bad_outcome

pub record BuyParams (Address Text : Type 0) : Type 0 where
  pub refs : MarketRefs Address
  pub user : AddressInput Address Text
  pub outcome : String
  pub kass_amount : ℕ
  pub user_kass_ata : AddressInput Address Text
  pub user_yes_ata : Option (AddressInput Address Text)
  pub user_no_ata : Option (AddressInput Address Text)
  pub output_amount_min : Option ℕ

pub record SellParams (Address Text : Type 0) : Type 0 where
  pub refs : MarketRefs Address
  pub user : AddressInput Address Text
  pub outcome : String
  pub swap_amount : ℕ
  pub merge_amount : ℕ
  pub user_kass_ata : AddressInput Address Text
  pub user_yes_ata : Option (AddressInput Address Text)
  pub user_no_ata : Option (AddressInput Address Text)
  pub output_amount_min : Option ℕ

pub record Traded (Address : Type 0) : Type 0 where
  pub instructions : List (Instruction Address)
  pub user_yes_ata : Address
  pub user_no_ata : Address

module _ (p : Platform) (ids : MarketIds p) where
  unfoldable pub user_conditional_atas :
      MarketRefs p.Address
      → Input p
      → Option (Input p)
      → Option (Input p)
      → Result (p.Address × p.Address)
  user_conditional_atas refs user user_yes_ata user_no_ata = do
    yes_ata ← given_or_ata p ids user_yes_ata user (address refs.yes_mint)
    no_ata ← given_or_ata p ids user_no_ata user (address refs.no_mint)
    ok (yes_ata, no_ata)

  -- The accounts that splitting, merging and redeeming share.
  abbrev pub vault_args :
      MarketRefs p.Address
      → Input p
      → Input p
      → p.Address
      → p.Address
      → InteractWithVaultArgs p.Address p.Text
  vault_args refs user user_kass_ata yes_ata no_ata = record {
    question = address refs.question;
    vault = address refs.vault;
    vault_underlying_ata = address refs.vault_underlying_ata;
    authority = user;
    user_underlying_ata = user_kass_ata;
    conditional_mints = address refs.yes_mint ∷ address refs.no_mint ∷ [];
    user_conditional_atas = address yes_ata ∷ address no_ata ∷ [];
  }

  unfoldable pub buy_instructions : BuyParams p.Address p.Text → Result (Traded p.Address)
  buy_instructions params = do
    yes_outcome ← is_yes params.outcome
    (yes_ata, no_ata) ←
        user_conditional_atas params.refs params.user params.user_yes_ata params.user_no_ata
    split ←
        split_tokens p ids (vault_args params.refs params.user params.user_kass_ata yes_ata no_ata)
          params.kass_amount
    swap_ix ← swap p ids (record {
      payer = params.user;
      base_mint = address params.refs.yes_mint;
      quote_mint = address params.refs.no_mint;
      swap_type = if yes_outcome then SwapType.buy else SwapType.sell;
      input_amount = params.kass_amount;
      output_amount_min = some (or_zero params.output_amount_min);
      user_base = some (address yes_ata);
      user_quote = some (address no_ata);
    })
    ok (record {
      instructions = split ∷ swap_ix ∷ [];
      user_yes_ata = yes_ata;
      user_no_ata = no_ata;
    })

  unfoldable pub sell_instructions : SellParams p.Address p.Text → Result (Traded p.Address)
  sell_instructions params = do
    yes_outcome ← is_yes params.outcome
    (yes_ata, no_ata) ←
        user_conditional_atas params.refs params.user params.user_yes_ata params.user_no_ata
    swap_ix ← swap p ids (record {
      payer = params.user;
      base_mint = address params.refs.yes_mint;
      quote_mint = address params.refs.no_mint;
      swap_type = if yes_outcome then SwapType.sell else SwapType.buy;
      input_amount = params.swap_amount;
      output_amount_min = some (or_zero params.output_amount_min);
      user_base = some (address yes_ata);
      user_quote = some (address no_ata);
    })
    merge ←
        merge_tokens p ids (vault_args params.refs params.user params.user_kass_ata yes_ata no_ata)
          params.merge_amount
    ok (record {
      instructions = swap_ix ∷ merge ∷ [];
      user_yes_ata = yes_ata;
      user_no_ata = no_ata;
    })
