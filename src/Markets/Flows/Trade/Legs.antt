-- ===== src/Markets/Flows/Trade/Legs.antt =====
-- The two legs of a trade fit together.
use text.Mathlib.Text.{◌==◌}
use kassandra.Base.{
  ℕ, ◌≡◌, ◌∙◌, ap, sym, refl, arith, List, [], ◌∷◌, some, ok, length, take, drop, if◌then◌else◌,
}
use kassandra.Platform.{Platform}
use kassandra.Bytes.{u8, u64_le, le, concat_bytes}
use kassandra.Bytes.RoundTrip.{concat_bytes-concat}
use kassandra.Instructions.Payload.{addr, metas}
use kassandra.Markets.Payload.{MarketIds}
use kassandra.Markets.Keys.{account_at, call_at, payload_at}
use kassandra.Markets.Metadao.Vault.{
  disc_split_tokens, disc_merge_tokens, split_tokens, merge_tokens, interact_with_vault,
}
use kassandra.Markets.Metadao.Amm.{or_zero, disc_swap, swap, given_or_ata}
use kassandra.Markets.Flows.Trade.{
  BuyParams, SellParams, Traded, is_yes, user_conditional_atas, buy_instructions, sell_instructions,
}

-- The amount of eight bytes at an offset of the data.
abbrev pub amount_of : List ℕ → ℕ → List ℕ
amount_of payload off = take 8 (drop off payload)

-- The side of a swap in the data: 0 buys the base, which is cYES, and 1 sells it.
abbrev pub side_of : List ℕ → List ℕ
side_of payload = take 1 (drop 8 payload)

swap_data : ℕ → ℕ → ℕ → List ℕ
swap_data kind input least = concat_bytes (disc_swap ∷ u8 kind ∷ u64_le input ∷ u64_le least ∷ [])

swap_data_parts :
    (kind input least : ℕ)
    → (amount_of (swap_data kind input least) 9 ≡ u64_le input)
      × (amount_of (swap_data kind input least) 17 ≡ u64_le least)
      × (side_of (swap_data kind input least) ≡ u8 kind)
unfolding swap_data u8 u64_le le
swap_data_parts kind input least = rw (concat_bytes-concat) (refl, refl, refl)

split_data :
    (amount : ℕ)
    → amount_of (concat_bytes (disc_split_tokens ∷ u64_le amount ∷ [])) 8 ≡ u64_le amount
unfolding u64_le le
split_data amount = rw (concat_bytes-concat) refl

merge_data :
    (amount : ℕ)
    → amount_of (concat_bytes (disc_merge_tokens ∷ u64_le amount ∷ [])) 8 ≡ u64_le amount
unfolding u64_le le
merge_data amount = rw (concat_bytes-concat) refl

module _ (p : Platform) (ids : MarketIds p) where
  -- What the two instructions of a buy are, in terms of the builders.
  buy_parts :
      (params : BuyParams p.Address p.Text) (made : Traded p.Address) (user : p.Address)
      → buy_instructions p ids params ≡ ok made
      → addr p params.user ≡ ok user
      → (length made.instructions ≡ 2)
        × (call_at made.instructions 0 ≡ some (ids.conditional_vault_id, user ∷ []))
        × (call_at made.instructions 1 ≡ some (ids.amm_v04_id, user ∷ []))
        × (account_at made.instructions 0 10 ≡ some made.user_yes_ata)
        × (account_at made.instructions 0 11 ≡ some made.user_no_ata)
        × (account_at made.instructions 1 2 ≡ some made.user_yes_ata)
        × (account_at made.instructions 1 3 ≡ some made.user_no_ata)
        × (payload_at made.instructions 0
            ≡ concat_bytes (disc_split_tokens ∷ u64_le params.kass_amount ∷ []))
        × (payload_at made.instructions 1
            ≡ swap_data
                (if params.outcome == "yes" then 0 else 1)
                params.kass_amount
                (or_zero params.output_amount_min))
  unfolding buy_instructions is_yes user_conditional_atas split_tokens interact_with_vault metas
      swap given_or_ata addr swap_data
  buy_parts params made user h e = ground arith

  sell_parts :
      (params : SellParams p.Address p.Text) (made : Traded p.Address) (user : p.Address)
      → sell_instructions p ids params ≡ ok made
      → addr p params.user ≡ ok user
      → (length made.instructions ≡ 2)
        × (call_at made.instructions 0 ≡ some (ids.amm_v04_id, user ∷ []))
        × (call_at made.instructions 1 ≡ some (ids.conditional_vault_id, user ∷ []))
        × (account_at made.instructions 0 2 ≡ some made.user_yes_ata)
        × (account_at made.instructions 0 3 ≡ some made.user_no_ata)
        × (account_at made.instructions 1 10 ≡ some made.user_yes_ata)
        × (account_at made.instructions 1 11 ≡ some made.user_no_ata)
        × (payload_at made.instructions 0
            ≡ swap_data
                (if params.outcome == "yes" then 1 else 0)
                params.swap_amount
                (or_zero params.output_amount_min))
        × (payload_at made.instructions 1
            ≡ concat_bytes (disc_merge_tokens ∷ u64_le params.merge_amount ∷ []))
  unfolding sell_instructions is_yes user_conditional_atas merge_tokens interact_with_vault metas
      swap given_or_ata addr swap_data
  sell_parts params made user h e = ground arith

  -- A buy is a split and then a swap, each signed by the user alone, over the same two accounts of the
  -- user for cYES and cNO. The swap puts in exactly the amount that is split, asks for the least output
  -- that was given, and buys cYES where the outcome is yes and sells it where it is no.
  pub buy_legs :
      (params : BuyParams p.Address p.Text) (made : Traded p.Address) (user : p.Address)
      → buy_instructions p ids params ≡ ok made
      → addr p params.user ≡ ok user
      → (length made.instructions ≡ 2)
        × (call_at made.instructions 0 ≡ some (ids.conditional_vault_id, user ∷ []))
        × (call_at made.instructions 1 ≡ some (ids.amm_v04_id, user ∷ []))
        × (account_at made.instructions 0 10 ≡ account_at made.instructions 1 2)
        × (account_at made.instructions 0 11 ≡ account_at made.instructions 1 3)
        × (amount_of (payload_at made.instructions 0) 8 ≡ u64_le params.kass_amount)
        × (amount_of (payload_at made.instructions 1) 9 ≡ u64_le params.kass_amount)
        × (amount_of (payload_at made.instructions 1) 17
            ≡ u64_le (or_zero params.output_amount_min))
        × (side_of (payload_at made.instructions 1) ≡ u8 (if params.outcome == "yes" then 0 else 1))
  buy_legs params made user h e =
      let (n, c0, c1, y0, n0, y1, n1, d0, d1) = buy_parts params made user h e in
      let (input, least, side) =
        swap_data_parts (if params.outcome == "yes" then 0 else 1) params.kass_amount
          (or_zero params.output_amount_min) in
      (
        n,
        c0,
        c1,
        y0 ∙ sym y1,
        n0 ∙ sym n1,
        ap (λ d. amount_of d 8) d0 ∙ split_data params.kass_amount,
        ap (λ d. amount_of d 9) d1 ∙ input,
        ap (λ d. amount_of d 17) d1 ∙ least,
        ap side_of d1 ∙ side,
      )

  -- A sale is a swap and then a merge, each signed by the user alone, over the same two accounts of the
  -- user. The swap goes the other way round than that of a buy of the same outcome, and the amounts of
  -- both are those that were given.
  pub sell_legs :
      (params : SellParams p.Address p.Text) (made : Traded p.Address) (user : p.Address)
      → sell_instructions p ids params ≡ ok made
      → addr p params.user ≡ ok user
      → (length made.instructions ≡ 2)
        × (call_at made.instructions 0 ≡ some (ids.amm_v04_id, user ∷ []))
        × (call_at made.instructions 1 ≡ some (ids.conditional_vault_id, user ∷ []))
        × (account_at made.instructions 0 2 ≡ account_at made.instructions 1 10)
        × (account_at made.instructions 0 3 ≡ account_at made.instructions 1 11)
        × (amount_of (payload_at made.instructions 0) 9 ≡ u64_le params.swap_amount)
        × (amount_of (payload_at made.instructions 0) 17
            ≡ u64_le (or_zero params.output_amount_min))
        × (amount_of (payload_at made.instructions 1) 8 ≡ u64_le params.merge_amount)
        × (side_of (payload_at made.instructions 0) ≡ u8 (if params.outcome == "yes" then 1 else 0))
  sell_legs params made user h e =
      let (n, c0, c1, y0, n0, y1, n1, d0, d1) = sell_parts params made user h e in
      let (input, least, side) =
        swap_data_parts (if params.outcome == "yes" then 1 else 0) params.swap_amount
          (or_zero params.output_amount_min) in
      (
        n,
        c0,
        c1,
        y0 ∙ sym y1,
        n0 ∙ sym n1,
        ap (λ d. amount_of d 9) d0 ∙ input,
        ap (λ d. amount_of d 17) d0 ∙ least,
        ap (λ d. amount_of d 8) d1 ∙ merge_data params.merge_amount,
        ap side_of d0 ∙ side,
      )
