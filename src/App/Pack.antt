-- ===== src/App/Pack.antt =====
-- app/src/market/data/actions/packTx.ts, with `ActivateStep` of activate.ts and compute.ts.
pub mod Facts
pub mod Greedy
pub mod Fewest
use kassandra.Base.{
  ℕ, ◌+◌, ◌*◌, List, [], ◌∷◌, ◌++◌, Bool, true, false, not, Option, none, some, Result, ok, err,
  ltb, if◌then◌else◌, ◌≡◌, length, ◌>>=◌, range_error,
}
use kassandra.Platform.{Platform}
use kassandra.Instructions.Payload.{Instruction}

-- What the packer takes from web3.js: the ComputeBudget codec and the compiled message.
pub record Web3 (p : Platform) : Type 0 where
  pub compute_budget_program_id : p.Address
  -- `decodeInstructionType(ix) === "SetComputeUnitLimit"`, `decodeSetComputeUnitLimit(ix).units`.
  pub is_limit_type : Instruction p.Address → Result Bool
  pub decode_units : Instruction p.Address → Result ℕ
  pub set_compute_unit_limit : ℕ → Instruction p.Address
  -- `compileMessage()` of a transaction: `numRequiredSignatures`, and the length of `serialize()`.
  pub compile_message : p.Address → List (Instruction p.Address) → Result (ℕ × ℕ)

abbrev pub max_tx_compute_units : ℕ
max_tx_compute_units = 1400000

abbrev pub default_tx_compute_units : ℕ
default_tx_compute_units = 200000

abbrev pub packet_data_size : ℕ
packet_data_size = 1232

pub record ActivateStep (p : Platform) : Type 0 where
  pub label : p.Text
  pub compute_units : Option ℕ
  pub ixs : List (Instruction p.Address)
  pub check_account : p.Address
  pub skip_if_landed : Option Bool

pub record PackedTx (p : Platform) : Type 0 where
  pub steps : List (ActivateStep p)
  pub ixs : List (Instruction p.Address)

pub record Normal (p : Platform) : Type 0 where
  pub units : ℕ
  pub body : List (Instruction p.Address)

-- `??` with a default.
abbrev pub or_else : Option ℕ → ℕ → ℕ
or_else none d = d
or_else (some n) d = n

-- The `catch` of `isComputeUnitLimitIx`.
abbrev pub or_false : Result Bool → Bool
or_false (ok b) = b
or_false (err e) = false

module _ (p : Platform) (w : Web3 p) where
  unfoldable pub is_compute_unit_limit_ix : Instruction p.Address → Bool
  is_compute_unit_limit_ix ix =
      if not (p.same_text (p.to_base58 ix.program_id) (p.to_base58 w.compute_budget_program_id))
      then false
      else or_false (w.is_limit_type ix)

  -- The loop of `normalizeStep`: what is declared so far, and the body so far.
  unfoldable pub normalize_from :
      Option ℕ → List (Instruction p.Address) → List (Instruction p.Address) → Result (Normal p)
  normalize_from declared body [] =
      ok record { units = or_else declared default_tx_compute_units; body = body }
  normalize_from declared body (ix ∷ ixs) = elim (is_compute_unit_limit_ix ix) [
    | true ↦ w.decode_units ix >>= λ u. normalize_from (some (or_else declared 0 + u)) body ixs
    | false ↦ normalize_from declared (body ++ ix ∷ []) ixs
  ]

  unfoldable pub normalize_step : ActivateStep p → Result (Normal p)
  normalize_step step = normalize_from step.compute_units [] step.ixs

  -- `steps.map(normalizeStep)`.
  unfoldable pub normalize_steps : List (ActivateStep p) → Result (List (Normal p))
  normalize_steps [] = ok []
  normalize_steps (s ∷ ss) = normalize_step s >>= λ n. normalize_steps ss >>= λ ns. ok (n ∷ ns)

  -- `reduce((sum, n) => sum + n.units, 0)`, and `flatMap((n) => n.body)`.
  abbrev pub units_from : ℕ → List (Normal p) → ℕ
  units_from sum [] = sum
  units_from sum (n ∷ ns) = units_from (sum + n.units) ns

  abbrev pub bodies : List (Normal p) → List (Instruction p.Address)
  bodies [] = []
  bodies (n ∷ ns) = n.body ++ bodies ns

  unfoldable pub total_compute_units : List (ActivateStep p) → Result ℕ
  total_compute_units steps = normalize_steps steps >>= λ ns. ok (units_from 0 ns)

  unfoldable pub combined_ixs : List (ActivateStep p) → Result (List (Instruction p.Address))
  combined_ixs steps = normalize_steps steps >>= λ ns.
      let units = units_from 0 ns in
      let body = bodies ns in
      ok
        (if ltb default_tx_compute_units units then w.set_compute_unit_limit units ∷ body else body)

  unfoldable pub wire_size : p.Address → List (Instruction p.Address) → Result ℕ
  wire_size fee_payer ixs =
      w.compile_message fee_payer ixs >>= λ (signatures, len). ok (1 + signatures * 64 + len)

  -- The second half of the loop's test: the attempt is over one of the limits.
  unfoldable pub over_limits : p.Address → List (ActivateStep p) → Result Bool
  over_limits fee_payer attempt = total_compute_units attempt >>= λ units.
      elim (ltb max_tx_compute_units units) [
        | true ↦ ok true
        | false ↦ combined_ixs attempt >>= λ ixs.
            wire_size fee_payer ixs >>= λ size. ok (ltb packet_data_size size)
      ]

  -- `current.length > 0 && (…)`.
  unfoldable pub must_close : p.Address → List (ActivateStep p) → ActivateStep p → Result Bool
  must_close fee_payer [] step = ok false
  must_close fee_payer (c ∷ cs) step = over_limits fee_payer ((c ∷ cs) ++ step ∷ [])

  -- `batches.push({ steps: current, ixs: combinedIxs(current) })`.
  unfoldable pub close_batch : List (ActivateStep p) → Result (PackedTx p)
  close_batch current = combined_ixs current >>= λ ixs. ok record { steps = current; ixs = ixs }

  -- The rest of the loop gives the batches that are still to be pushed.
  unfoldable pub pack_from :
      p.Address → List (ActivateStep p) → List (ActivateStep p) → Result (List (PackedTx p))
  pack_from fee_payer [] [] = ok []
  pack_from fee_payer (c ∷ cs) [] = close_batch (c ∷ cs) >>= λ b. ok (b ∷ [])
  pack_from fee_payer current (step ∷ steps) = must_close fee_payer current step >>= λ full.
      elim full [
        | true ↦
            close_batch current >>= λ b. pack_from fee_payer (step ∷ []) steps >>= λ bs. ok (b ∷ bs)
        | false ↦ pack_from fee_payer (current ++ step ∷ []) steps
      ]

  unfoldable pub pack_steps : p.Address → List (ActivateStep p) → Result (List (PackedTx p))
  pack_steps fee_payer steps = pack_from fee_payer [] steps
