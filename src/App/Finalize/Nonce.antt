-- ===== src/App/Finalize/Nonce.antt =====
-- The scan for a nonce finds the least one.
use kassandra.Base.{
  ℕ, zero, suc, ◌+◌, ◌<◌, ◌≤◌, ◌≡◌, sym, ◌∙◌, arith, ok, true, false, Result, err, Option, Bool,
  Bool-cases, inl, inr, ◌⊎◌, ltb,
}
use mathlib.Core.Path.{subst}
use kassandra.Platform.{Platform}
use kassandra.Instructions.Payload.{Input, ProgramIds, program_or_default, addr}
use kassandra.Instructions.Pda.{Pda, oracle_pda}
use kassandra.App.Finalize.{scan_nonces, resolve_oracle_nonce, or_default_scan}

-- The scan returns the least nonce that passes the test, and it is no greater than `k`.
abbrev pub Finds : (ℕ → Bool) → ℕ → Result ℕ → Type 0
Finds test k (ok m) = (m ≤ k) × (test m ≡ true) × ((j : ℕ) → j < m → test j ≡ false)
Finds test k (err e) = ⊥

true≢false : ¬ (true ≡ false)
true≢false h = cc

module _ (p : Platform) (target : p.Text) where
  abbrev pub is_target : Result (Pda p.Address) → Bool
  is_target (ok derived) = p.same_text (p.to_base58 derived.address) target
  is_target (err e) = false

module _ (p : Platform) (ids : ProgramIds p) (program_id : p.Address) (target : p.Text)
    (bound : ℕ) where
  -- The address derived for the nonce is the one that is looked for.
  abbrev matched_at : ℕ → Bool
  matched_at n = is_target p target (oracle_pda p n program_id)

  scan_here :
      (n left : ℕ)
      → matched_at n ≡ true
      → scan_nonces p ids program_id target bound n (suc left) ≡ ok n
  unfolding scan_nonces
  scan_here n left h = ground arith

  scan_next :
      (n left : ℕ) (derived : Pda p.Address)
      → oracle_pda p n program_id ≡ ok derived
      → matched_at n ≡ false
      → scan_nonces p ids program_id target bound n (suc left)
        ≡ scan_nonces p ids program_id target bound (suc n) left
  unfolding scan_nonces
  scan_next n left derived e h = ground arith

  scan_first :
      (n left m : ℕ)
      → scan_nonces p ids program_id target bound n (suc left) ≡ ok m
      → ((matched_at n ≡ true) × (n ≡ m))
        ⊎ ((matched_at n ≡ false) × (scan_nonces p ids program_id target bound (suc n) left ≡ ok m))
  unfolding scan_nonces
  scan_first n left m h = elim (Bool-cases (matched_at n)) [
    | inl same ↦ inl (same, ground (arith, same))
    | inr other ↦ inr (other, ground (arith, other))
  ]

  scan_nonces_least :
      (n left m : ℕ)
      → scan_nonces p ids program_id target bound n left ≡ ok m
      → (n ≤ m)
        × (m < n + left)
        × (matched_at m ≡ true)
        × ((k : ℕ) → n ≤ k → k < m → matched_at k ≡ false)
  unfolding scan_nonces
  scan_nonces_least n zero m h = cc
  scan_nonces_least n (suc left) m h = elim (scan_first n left m h) [
    | inl (same, here) ↦ (
      omega arith,
      omega arith,
      subst (λ k. matched_at k ≡ true) here same,
      λ k low high. absurd (omega arith),
    )
    | inr (other, later) ↦
        let (low, high, found, before) = scan_nonces_least (suc n) left m later in
        (
          omega arith,
          omega arith,
          found,
          λ k from below. elim (Bool-cases (ltb n k)) [
            | inl more ↦ before k (ground (arith, more)) below
            | inr less ↦
                let same : n ≡ k = ground (arith, less) in
                subst (λ j. matched_at j ≡ false) same other
          ],
        )
  ]

  apart : (n k : ℕ) → n ≤ k → matched_at n ≡ false → matched_at k ≡ true → n < k
  apart n k low other found = elim (Bool-cases (ltb n k)) [
    | inl more ↦ ground (arith, more)
    | inr less ↦
        let same : n ≡ k = ground (arith, less) in
        let clash : matched_at k ≡ false = subst (λ j. matched_at j ≡ false) same other in
        absurd (true≢false (sym found ∙ clash))
  ]

  scan_nonces_returns :
      (n left k : ℕ)
      → n ≤ k
      → k < n + left
      → ((j : ℕ) → j ≤ k → (derived : Pda p.Address) × (oracle_pda p j program_id ≡ ok derived))
      → matched_at k ≡ true
      → (m : ℕ) × (scan_nonces p ids program_id target bound n left ≡ ok m) × (m ≤ k)
  scan_nonces_returns n zero k low high derives found = absurd (omega arith)
  scan_nonces_returns n (suc left) k low high derives found = elim (Bool-cases (matched_at n)) [
    | inl same ↦ (n, scan_here n left same, low)
    | inr other ↦
        let (derived, e) = derives n low in
        let more : n < k = apart n k low other found in
        let (m, scanned, no_more) =
          scan_nonces_returns (suc n) left k more (omega arith) derives found in
        (m, scan_next n left derived e other ∙ scanned, no_more)
  ]

module _ (p : Platform) (ids : ProgramIds p) (program_id : Option p.Address)
    (target : p.Address) where
  -- The address that nonce `n` derives prints as that of the oracle.
  abbrev pub derives_oracle : ℕ → Bool
  derives_oracle n =
      is_target p (p.to_base58 target) (oracle_pda p n (program_or_default p ids program_id))

  module _ (oracle : Input p) (max_nonce : Option ℕ) (named : addr p oracle ≡ ok target) where
    -- A nonce that the scan returns is within its bound and is the least whose derived address prints
    -- as that of the oracle.
    pub resolve_oracle_nonce_least :
        (nonce : ℕ)
        → resolve_oracle_nonce p ids oracle max_nonce program_id ≡ ok nonce
        → (nonce ≤ or_default_scan p ids max_nonce)
          × (derives_oracle nonce ≡ true)
          × ((k : ℕ) → k < nonce → derives_oracle k ≡ false)
    unfolding resolve_oracle_nonce
    resolve_oracle_nonce_least nonce h =
        let bound = or_default_scan p ids max_nonce in
        let scanned = rw named at h in
        let (low, high, found, before) =
          scan_nonces_least p ids (program_or_default p ids program_id) (p.to_base58 target) bound 0
            (suc bound) nonce scanned in
        (omega (arith, high), found, λ k below. before k (omega arith) below)

    -- Where a nonce within the bound derives the oracle, and the addresses of all nonces up to it can be
    -- derived, the scan does return, and what it returns is the least nonce whose derived address prints
    -- as that of the oracle.
    pub resolve_oracle_nonce-Finds :
        (nonce : ℕ)
        → nonce ≤ or_default_scan p ids max_nonce
        → ((j : ℕ)
            → j ≤ nonce
            → (derived : Pda p.Address) × (oracle_pda p j (program_or_default p ids program_id)
                ≡ ok derived))
        → derives_oracle nonce ≡ true
        → Finds derives_oracle nonce (resolve_oracle_nonce p ids oracle max_nonce program_id)
    unfolding resolve_oracle_nonce
    resolve_oracle_nonce-Finds nonce within derives found =
        let bound = or_default_scan p ids max_nonce in
        let program = program_or_default p ids program_id in
        let (m, scanned, no_more) =
          scan_nonces_returns p ids program (p.to_base58 target) bound 0 (suc bound) nonce
            (omega arith) (omega arith) derives found in
        let returned : resolve_oracle_nonce p ids oracle max_nonce program_id ≡ ok m =
          rw named scanned in
        let (_, same, before) = resolve_oracle_nonce_least m returned in
        subst (Finds derives_oracle nonce) (sym returned) (no_more, same, before)
