-- ===== src/Tests/Actions.antt =====
-- Sales, splits, writes and cranks at concrete inputs.
use Prim.Native.String.{String}
use kassandra.Base.{
  replicate, ℕ, ◌+◌, ◌-◌, ◌*◌, ◌<◌, ◌≤◌, ◌≡◌, refl, sym, ap, ◌∙◌, arith, List, [], ◌∷◌, ◌⊎◌, inr,
  none, some, ok-inj, false, All, length,
}
use kassandra.Bytes.{u64_le, le}
use kassandra.Instructions.Payload.{Instruction, addr, pubkey_bytes, metas}
use kassandra.Instructions.Pda.{derive, oracle_pda, stake_vault_pda}
use kassandra.Instructions.Dispute.{finalize_oracle}
use kassandra.Markets.Keys.{payload_at}
use kassandra.Markets.Metadao.Pda as Metadao
use kassandra.Markets.Pda
use kassandra.Markets.Metadao.Vault.{merge_tokens, interact_with_vault}
use kassandra.Markets.Metadao.Amm.{swap, given_or_ata}
use kassandra.Markets.Flows.Atas.{
  ensure_conditional_atas_instructions, payer_or, kass_ata, create_idempotent_ata,
  create_ata_idempotent_instruction,
}
use kassandra.Markets.Flows.Trade.{sell_instructions, is_yes, user_conditional_atas}
use kassandra.Markets.Flows.Trade.Legs.{amount_of}
use kassandra.App.MarketView.{AmmReserves}
use kassandra.App.Trade.{
  BuildSellArgs, build_sell_ixs, to_address, sell_sizes, optimal_unwind_swap, amm_swap_out,
  constant_product_out, min_out_from_slippage,
}
use kassandra.App.Trade.Pool.{amm_swap_out_keeps}
use kassandra.App.Trade.Covered.{FitsSale, sizes_of, pair_of, build_sell_ixs_covered}
use kassandra.App.Split.{uniform_split}
use kassandra.App.Split.Even.{sum, Even, uniform_split_lem}
use kassandra.App.Write.{Environment, WriteStatus, is_busy, Raw, run_write_action}
use kassandra.App.Write.Machine.{Walk, run_write_action_walks}
use kassandra.App.Write.Confirm.{Confirms}
use kassandra.App.Write.Success.{run_write_action_success}
use kassandra.App.Finalize.{
  FinalizeAction, BuildFinalizeOracleArgs, build_finalize_oracle_ixs, require_tail, addrs,
  resolve_oracle_nonce, scan_nonces, alt_decision,
}
use kassandra.App.Finalize.Nonce.{Finds, derives_oracle, resolve_oracle_nonce-Finds}
use kassandra.App.Finalize.Crank.{Crank, IsCrankOf, build_crank-IsCrankOf}
use kassandra.Tests.Sample.{sample, sample_ids, byte_key, Key, key_of, key_of_lem}
use kassandra.Tests.Markets.{ids, refs, at_byte, from_ok}
use kassandra.Tests.Packing.{web3}

amm_swap_out_keeps_example :
    (amm_swap_out 48 1000 1000 < 1000)
    × (1000 * 1000 ≤ (1000 + 48) * (1000 - amm_swap_out 48 1000 1000))
amm_swap_out_keeps_example = amm_swap_out_keeps 48 1000 1000 (omega arith)

abbrev reserves : AmmReserves
reserves = record { base = 1000; quote = 1000 }

abbrev root : ℕ → ℕ → ℕ → ℕ
root held in_reserve out_reserve = 48

abbrev sell_args : BuildSellArgs sample
sell_args = record {
  refs = refs;
  user = at_byte 50;
  outcome = "yes";
  user_kass_ata = at_byte 51;
  reserves = some reserves;
  slippage_bps = none;
  position_amount = 100;
}

abbrev sold : List (Instruction sample.Address)
sold = from_ok [] (build_sell_ixs sample ids web3 root sell_args)

build_sell_ixs_covered_example :
    (amount_of (payload_at sold 3) 9
      ≡ u64_le (sizes_of sample ids web3 sell_args reserves root).swap_amount)
    × (amount_of (payload_at sold 3) 17
        ≡ u64_le (sizes_of sample ids web3 sell_args reserves root).output_amount_min)
    × (amount_of (payload_at sold 4) 8
        ≡ u64_le (sizes_of sample ids web3 sell_args reserves root).merge_amount)
    × (0 < (sizes_of sample ids web3 sell_args reserves root).swap_amount)
    × (0 < (sizes_of sample ids web3 sell_args reserves root).merge_amount)
    × FitsSale 100
        (pair_of sample ids web3 sell_args reserves)
        (sizes_of sample ids web3 sell_args reserves root)
unfolding build_sell_ixs to_address sell_sizes optimal_unwind_swap amm_swap_out constant_product_out
    min_out_from_slippage ensure_conditional_atas_instructions payer_or kass_ata
    create_idempotent_ata create_ata_idempotent_instruction sell_instructions is_yes
    user_conditional_atas merge_tokens interact_with_vault metas swap given_or_ata addr pubkey_bytes
    derive Metadao.ata Metadao.amm_pda Metadao.vault_event_authority_pda
    Metadao.amm_event_authority_pda Pda.associated_token_account
build_sell_ixs_covered_example =
    build_sell_ixs_covered sample ids web3 root sell_args reserves sold refl refl

uniform_split_lem_example :
    (length (uniform_split 10 3) ≡ 3)
    × (sum (uniform_split 10 3) ≡ 10)
    × All (Even 3) (uniform_split 10 3)
uniform_split_lem_example = uniform_split_lem 10 3 (omega arith)

abbrev environment : Environment ℕ
environment = record {
  build = inr (7 ∷ 8 ∷ []);
  wallet_sender = λ ixs. inr "signed";
  polls = λ signature.
      inr (record { status = "processed"; failure = none })
      ∷ inr (record { status = "confirmed"; failure = none })
      ∷ [];
  on_success = λ signature. none;
  says_rejected = λ message. false;
  humanize = λ message logs. none;
}

run_write_action_walks_example :
    Walk WriteStatus.idle (run_write_action environment).0 (run_write_action environment).1
    × (is_busy (run_write_action environment).1 ≡ false)
run_write_action_walks_example = run_write_action_walks environment (λ signature. refl)

run_write_action_success_example :
    ((run_write_action environment).1 ≡ WriteStatus.success "signed"
      → (◌≡◌ {A = Raw ⊎ String} (inr "signed") (inr "signed"))
        × Confirms (environment.polls "signed"))
    × ((◌≡◌ {A = Raw ⊎ String} (inr "signed") (inr "signed"))
          × Confirms (environment.polls "signed")
        → (run_write_action environment).1 ≡ WriteStatus.success "signed")
run_write_action_success_example =
    run_write_action_success environment (λ signature. refl) (7 ∷ 8 ∷ []) "signed" refl

resolve_oracle_nonce-Finds_example :
    Finds
      (derives_oracle sample sample_ids none (byte_key 120))
      2
      (resolve_oracle_nonce sample sample_ids (at_byte 120) (some 5) none)
unfolding addr oracle_pda derive u64_le le
resolve_oracle_nonce-Finds_example =
    resolve_oracle_nonce-Finds sample sample_ids none (byte_key 120) (at_byte 120) (some 5) refl 2
      (omega arith) (λ j within. (_, refl)) refl

abbrev crank_args : BuildFinalizeOracleArgs sample
crank_args = record {
  oracle = at_byte 120;
  kass_mint = at_byte 32;
  proposers = replicate 25 (at_byte 60);
  oracle_nonce = none;
  max_nonce = some 3;
  program_id = none;
}

abbrev action : FinalizeAction sample
action =
    from_ok (record { ixs = []; needs_alt = false; alt_addresses = [] })
      (build_finalize_oracle_ixs sample sample_ids crank_args)

same_key : (a b : Key) → a.0 ≡ b.0 → a ≡ b
same_key (bs, h) (cs, g) e = ok-inj (sym (key_of_lem bs h) ∙ ap key_of e ∙ key_of_lem cs g)

build_crank-IsCrankOf_example :
    IsCrankOf sample sample_ids (Crank.oracle crank_args) (byte_key 120) action
unfolding build_finalize_oracle_ixs require_tail addrs resolve_oracle_nonce scan_nonces alt_decision
    finalize_oracle addr pubkey_bytes metas oracle_pda stake_vault_pda derive u64_le le
build_crank-IsCrankOf_example =
    build_crank-IsCrankOf sample sample_ids same_key (Crank.oracle crank_args) action (byte_key 120)
      refl refl refl
