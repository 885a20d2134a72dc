-- ===== src/App/MarketView/Bound.antt =====
-- The market that an oracle's page links to.
use kassandra.Base.{
  ◌≤◌, ◌≡◌, refl, arith, List, [], ◌∷◌, true, false, Option, none, some, All, ltb, Bool-cases, inl,
  inr, ap, sym, ◌∙◌,
}
use mathlib.Core.Path.{subst}
use kassandra.Platform.{Platform}
use kassandra.App.Stats.Sort.{sort, insert}
use kassandra.App.MarketView.{
  MarketSummary, bound_to, bound_markets, cmp_outcome_index, first_pubkey,
  first_bound_market_pubkey,
}

module _ (p : Platform) where
  -- The market with the lower outcome index of two, the left one on a tie.
  abbrev pub lower : MarketSummary p → Option (MarketSummary p) → MarketSummary p
  lower m none = m
  lower m (some b) = elim (ltb b.market.outcome_index m.market.outcome_index) [
    | true ↦ b
    | false ↦ m
  ]

  -- The bound market with the lowest outcome index, by one pass that sorts nothing.
  abbrev pub least_bound : p.Text → List (MarketSummary p) → Option (MarketSummary p)
  least_bound oracle [] = none
  least_bound oracle (m ∷ ms) = elim (bound_to p oracle m) [
    | true ↦ some (lower m (least_bound oracle ms))
    | false ↦ least_bound oracle ms
  ]

  -- A market is found, and its outcome index is at most that of `m`.
  abbrev pub AtMost : MarketSummary p → Option (MarketSummary p) → Type 0
  AtMost m none = ⊥
  AtMost m (some b) = b.market.outcome_index ≤ m.market.outcome_index

  abbrev pub BoundTo : p.Text → Option (MarketSummary p) → Type 0
  BoundTo oracle none = Unit
  BoundTo oracle (some b) = bound_to p oracle b ≡ true

  abbrev head : List (MarketSummary p) → Option (MarketSummary p)
  head [] = none
  head (m ∷ ms) = some m

  abbrev pub pubkey_of : Option (MarketSummary p) → Option p.Text
  pubkey_of none = none
  pubkey_of (some m) = some m.pubkey

  head-insert :
      (m : MarketSummary p) (ms : List (MarketSummary p))
      → head (insert (cmp_outcome_index p) m ms) ≡ some (lower m (head ms))
  unfolding insert
  head-insert m [] = refl
  head-insert m (n ∷ ms) = ground arith

  head-sort :
      (oracle : p.Text) (ms : List (MarketSummary p))
      → head (sort (cmp_outcome_index p) (bound_markets p ms oracle)) ≡ least_bound oracle ms
  unfolding sort
  head-sort oracle [] = refl
  head-sort oracle (m ∷ ms) = ground (
    arith,
    head-sort oracle ms,
    head-insert m (sort (cmp_outcome_index p) (bound_markets p ms oracle)),
  )

  first_pubkey-head : (ms : List (MarketSummary p)) → first_pubkey p ms ≡ pubkey_of (head ms)
  first_pubkey-head [] = refl
  first_pubkey-head (m ∷ ms) = refl

  least_here :
      (oracle : p.Text) (m : MarketSummary p) (ms : List (MarketSummary p))
      → bound_to p oracle m ≡ true
      → least_bound oracle (m ∷ ms) ≡ some (lower m (least_bound oracle ms))
  least_here oracle m ms e = ground arith

  least_later :
      (oracle : p.Text) (m : MarketSummary p) (ms : List (MarketSummary p))
      → bound_to p oracle m ≡ false
      → least_bound oracle (m ∷ ms) ≡ least_bound oracle ms
  least_later oracle m ms e = ground arith

  lower-BoundTo :
      (oracle : p.Text) (m : MarketSummary p) (b : Option (MarketSummary p))
      → bound_to p oracle m ≡ true
      → BoundTo oracle b
      → BoundTo oracle (some (lower m b))
  lower-BoundTo oracle m none h hb = h
  lower-BoundTo oracle m (some b) h hb = ground arith

  least_bound-BoundTo :
      (oracle : p.Text) (ms : List (MarketSummary p)) → BoundTo oracle (least_bound oracle ms)
  least_bound-BoundTo oracle [] = tt
  least_bound-BoundTo oracle (m ∷ ms) = elim (Bool-cases (bound_to p oracle m)) [
    | inl e ↦
        subst (BoundTo oracle) (sym (least_here oracle m ms e))
          (lower-BoundTo oracle m (least_bound oracle ms) e (least_bound-BoundTo oracle ms))
    | inr e ↦
        subst (BoundTo oracle) (sym (least_later oracle m ms e)) (least_bound-BoundTo oracle ms)
  ]

  AtMost-lower_here :
      (m : MarketSummary p) (b : Option (MarketSummary p)) → AtMost m (some (lower m b))
  AtMost-lower_here m none = omega arith
  AtMost-lower_here m (some b) = ground arith

  AtMost-lower :
      (x m : MarketSummary p) (b : Option (MarketSummary p))
      → AtMost x b
      → AtMost x (some (lower m b))
  AtMost-lower x m none h = absurd h
  AtMost-lower x m (some b) h = ground arith

  -- Where a market is bound, the one found has at most its index.
  abbrev pub Below : p.Text → Option (MarketSummary p) → MarketSummary p → Type 0
  Below oracle b m = bound_to p oracle m ≡ true → AtMost m b

  All-lower :
      (oracle : p.Text) (m : MarketSummary p) (b : Option (MarketSummary p))
      (ms : List (MarketSummary p))
      → All (Below oracle b) ms
      → All (Below oracle (some (lower m b))) ms
  All-lower oracle m b [] h = tt
  All-lower oracle m b (x ∷ ms) (h, hs) =
      (λ e. AtMost-lower x m b (h e), All-lower oracle m b ms hs)

  least_bound-Below :
      (oracle : p.Text) (ms : List (MarketSummary p))
      → All (Below oracle (least_bound oracle ms)) ms
  least_bound-Below oracle [] = tt
  least_bound-Below oracle (m ∷ ms) = elim (Bool-cases (bound_to p oracle m)) [
    | inl e ↦
        subst (λ b. All (Below oracle b) (m ∷ ms)) (sym (least_here oracle m ms e))
          (
            λ e. AtMost-lower_here m (least_bound oracle ms),
            All-lower oracle m (least_bound oracle ms) ms (least_bound-Below oracle ms),
          )
    | inr e ↦
        subst (λ b. All (Below oracle b) (m ∷ ms)) (sym (least_later oracle m ms e))
          (λ h. ground arith, least_bound-Below oracle ms)
  ]

  -- The link of an oracle's page is the public key of the market that a pass without sorting
  -- finds, none where that finds none; that market is bound to the oracle, and no market of the
  -- list that is bound to the oracle has a lower outcome index.
  pub first_bound_market_pubkey-least_bound :
      (markets : List (MarketSummary p)) (oracle : p.Text)
      → (first_bound_market_pubkey p markets oracle ≡ pubkey_of (least_bound oracle markets))
        × BoundTo oracle (least_bound oracle markets)
        × All (Below oracle (least_bound oracle markets)) markets
  unfolding first_bound_market_pubkey
  first_bound_market_pubkey-least_bound markets oracle = (
    first_pubkey-head (sort (cmp_outcome_index p) (bound_markets p markets oracle))
        ∙ ap pubkey_of (head-sort oracle markets),
    least_bound-BoundTo oracle markets,
    least_bound-Below oracle markets,
  )
