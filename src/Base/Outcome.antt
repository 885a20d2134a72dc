-- ===== src/Base/Outcome.antt =====
-- Exceptions as values: what a function throws is an `Error`, and a chain of calls is a `do` block.
use Prim.Native.Nat.{ℕ}
use Prim.Native.String.{String}
use mathlib.Core.Path.{◌≡◌, refl}
use mathlib.Core.Logic.{◌⊎◌, inl, inr}
use mathlib.Core.Bool.{Bool, true, false}

-- One constructor for each `throw` of the modelled code, and for what the platform throws.
pub data Error : Type 0 where
  -- `RangeError` of a `DataView` read, and what `new Address` throws.
  range_error : Error
  invalid_address : Error
  -- `assertAccount`: expected and found.
  wrong_size : ℕ → ℕ → Error
  wrong_tag : ℕ → ℕ → Error
  -- `fixedBytes`: expected and found.
  wrong_length : ℕ → ℕ → Error
  -- `hexToBytes`: an odd number of characters, no digit, another number of bytes.
  odd_hex : ℕ → Error
  invalid_hex : Error
  hex_length : ℕ → ℕ → Error
  -- The parity guard: the length, the discriminant, and the first byte that differs.
  parity_length : ℕ → Error
  parity_disc : Error
  parity_payload : ℕ → Error
  -- The seeds of the runner name another prefix, oracle or proposer.
  seed_prefix : Error
  seed_oracle : Error
  seed_proposer : Error
  -- `AmmDecodeError`: the length that was found, or another discriminator.
  amm_too_short : ℕ → Error
  amm_discriminator : Error
  -- `decodeMarketOracle`: the length that was found.
  oracle_too_short : ℕ → Error
  -- `createAllOutcomeMarkets`: the number of options.
  no_options : ℕ → Error
  -- `isYes`: a text that is no outcome.
  bad_outcome : Error
  -- The `ValidationError`s of the app's builders: a field that is no address, an amount that is not
  -- above zero, no reserves to quote a sale, a position that is too small, an empty tail, a nonce
  -- that the scan up to the bound does not find.
  invalid_field : String → Error
  not_positive : Error
  no_reserves : Error
  too_small : Error
  empty_tail : String → Error
  nonce_unresolved : ℕ → Error
  -- `ProgramError::InvalidInstructionData` of the on-chain parsers.
  invalid_data : Error

-- Either what was thrown, or what was returned.
pub data Result {ℓ} (A : Type ℓ) : Type ℓ where
  err : Error → Result A
  ok : A → Result A

module _ {ℓ} {A : Type ℓ} where
  pub Result-cases : (r : Result A) → ((a : A) × (r ≡ ok a)) ⊎ ((e : Error) × (r ≡ err e))
  Result-cases (err e) = inr (e, refl)
  Result-cases (ok a) = inl (a, refl)

  pub ok-inj : {a b : A} → ok a ≡ ok b → a ≡ b
  ok-inj h = cc

-- `if (!test) throw thrown`.
abbrev pub guard : Bool → Error → Result (Unit {0})
guard false thrown = err thrown
guard true thrown = ok tt

pub guard-eq-ok_last : (test : Bool) (thrown : Error) → guard test thrown ≡ ok tt → test ≡ true
guard-eq-ok_last false thrown h = cc
guard-eq-ok_last true thrown h = refl

module _ {ℓ κ} {A : Type ℓ} {B : Type κ} where
  infixl 5 ◌>>=◌
  -- The statements after the first are not reached where it throws.
  abbrev pub ◌>>=◌ : Result A → (A → Result B) → Result B
  err thrown >>= next = err thrown
  ok value >>= next = next value

  -- Where a chain returns, its first call has returned, and the rest has on its value.
  pub >>=-eq-ok :
      (first : Result A) (next : A → Result B) {b : B}
      → (first >>= next) ≡ ok b
      → (value : A) × (first ≡ ok value) × (next value ≡ ok b)
  >>=-eq-ok (err thrown) next h = cc
  >>=-eq-ok (ok value) next h = (value, refl, h)

module _ {ℓ} {B : Type ℓ} where
  infixl 5 ◌>>◌
  abbrev pub ◌>>◌ : Result (Unit {0}) → Result B → Result B
  check >> rest = check >>= (λ passed. rest)

  -- What a check that was passed has established.
  pub guard-eq-ok :
      (test : Bool) (thrown : Error) (rest : Result B) {r : B}
      → (guard test thrown >> rest) ≡ ok r
      → (test ≡ true) × (rest ≡ ok r)
  guard-eq-ok false thrown rest h = cc
  guard-eq-ok true thrown rest h = (refl, h)
