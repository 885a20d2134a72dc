-- ===== src/Runner.antt =====
-- sdks/oracles/ts/src/runner-bridge.ts: from the runner's output to the `submit_ai_claim`
-- instruction, with the parity guard. A hex string is the list of its UTF-16 code units. The output
-- is taken parsed (`JSON.parse` of the platform comes before).
pub mod Hex
pub mod Parity
use Prim.Native.Nat.{compare}
use kassandra.Base.{
  ℕ, zero, suc, ◌+◌, ◌-◌, ◌*◌, ◌/◌, ◌%◌, List, [], ◌∷◌, Bool, true, false, not, ◌&&◌, ◌||◌, Option,
  none, some, Result, ok, err, odd_hex, invalid_hex, hex_length, parity_length, parity_disc,
  parity_payload, Error, seed_oracle, seed_proposer, ◌>>=◌, ◌>>◌, guard, length, get_elem?, leb,
  ◌==◌, if◌then◌else◌, drop,
}
use kassandra.Base.Int.{ℤ, pos, negsuc, wrap}
use kassandra.Platform.{Platform}
use kassandra.Accounts.Common.{slice}
use kassandra.Instructions.Payload.{
  Ix, disc_of, Instruction, AddressInput, base58, ProgramIds, Input, addr,
}
use kassandra.Instructions.Pda.{ascii}
use kassandra.Instructions.Dispute.{SubmitAiClaimArgs, submit_ai_claim}

-- The value of a hexadecimal digit.
unfoldable pub digit : ℕ → Option ℕ
digit c =
    if leb b'0' c && leb c b'9'
    then some (c - b'0')
    else if leb b'a' c && leb c b'f'
    then some (c - b'a' + 10)
    else if leb b'A' c && leb c b'F'
    then some (c - b'A' + 10)
    else none

-- White space and line ends, which `parseInt` skips in front.
unfoldable pub is_white : ℕ → Bool
is_white c =
    (leb 9 c && leb c 13)
    || c == 32
    || c == 0xa0
    || c == 0x1680
    || (leb 0x2000 c && leb c 0x200a)
    || c == 0x2028
    || c == 0x2029
    || c == 0x202f
    || c == 0x205f
    || c == 0x3000
    || c == 0xfeff

unfoldable pub skip_white : List ℕ → List ℕ
skip_white [] = []
skip_white (c ∷ s) = if is_white c then skip_white s else c ∷ s

-- The digits up to the first character that is none; with no digit at all, `NaN`.
unfoldable pub digits_from : ℕ → List ℕ → ℕ
digits_from acc [] = acc
digits_from acc (c ∷ s) = elim (digit c) [ none ↦ acc | some d ↦ digits_from (acc * 16 + d) s ]

unfoldable pub digits : List ℕ → Option ℕ
unfolding digit digits_from
digits [] = none
digits (c ∷ s) = elim (digit c) [ none ↦ none | some d ↦ some (digits_from d s) ]

-- An optional `0x` or `0X` in front of the digits.
unfoldable pub strip_0x : List ℕ → List ℕ
strip_0x [] = []
strip_0x (c ∷ []) = c ∷ []
strip_0x (c ∷ d ∷ s) = if c == b'0' && (d == b'x' || d == b'X') then s else c ∷ d ∷ s

abbrev negate : ℕ → ℤ
negate zero = pos 0
negate (suc n) = negsuc n

-- A sign, then the prefix, then the digits.
unfoldable pub signed_digits : List ℕ → Option ℤ
unfolding digits strip_0x
signed_digits [] = none
signed_digits (c ∷ s) =
    if c == b'-'
    then elim (digits (strip_0x s)) [ none ↦ none | some n ↦ some (negate n) ]
    else elim (digits (strip_0x (if c == b'+' then s else c ∷ s))) [
      | none ↦ none
      | some n ↦ some (pos n)
    ]

-- `Number.parseInt(s, 16)`; `none` is `NaN`.
unfoldable pub parse_int16 : List ℕ → Option ℤ
unfolding skip_white signed_digits is_white
parse_int16 s = signed_digits (skip_white s)

-- The loop over the pairs of characters, with what an element of a `Uint8Array` keeps of a number.
unfoldable pub hex_pairs : List ℕ → Result (List ℕ)
hex_pairs [] = ok []
hex_pairs (c ∷ []) = ok []
hex_pairs (c ∷ d ∷ s) = elim (parse_int16 (c ∷ d ∷ [])) [
  | none ↦ err invalid_hex
  | some z ↦ hex_pairs s >>= λ rest. ok (wrap 256 z ∷ rest)
]

unfoldable pub hex_to_bytes : List ℕ → ℕ → Result (List ℕ)
hex_to_bytes hex expected_len = do
  let s = strip_0x hex
  guard (length s % 2 == 0) (odd_hex (length s))
  out ← hex_pairs s
  guard (length out == expected_len) (hex_length expected_len (length out))
  ok out

-- The loop of `bytesEqual`; the lengths are compared in front of it.
unfoldable pub bytes_equal : List ℕ → List ℕ → Bool
bytes_equal [] [] = true
bytes_equal (a ∷ as') (b ∷ bs) = a == b && bytes_equal as' bs
bytes_equal _ _ = false

-- Where two arrays first differ, counted from `i`; `none` is -1.
unfoldable pub first_diff : ℕ → List ℕ → List ℕ → Option ℕ
first_diff i [] [] = none
first_diff i (a ∷ as') (b ∷ bs) = if a == b then first_diff (i + 1) as' bs else some i
first_diff i _ _ = some i

pub record RunnerClaimPdaSeeds (Text : Type 0) : Type 0 where
  pub seed_prefix : List ℕ
  pub oracle : Text
  pub proposer : Text

pub record RunnerOutput (Text : Type 0) : Type 0 where
  pub option_index : ℕ
  pub model_id_hex : List ℕ
  pub params_hash_hex : List ℕ
  pub io_hash_hex : List ℕ
  pub submit_ai_claim_payload_hex : List ℕ
  pub claim_pda_seeds : Option (RunnerClaimPdaSeeds Text)

pub record SubmitAiClaimFromRunnerOpts (Address Text : Type 0) : Type 0 where
  pub oracle : AddressInput Address Text
  pub proposer : AddressInput Address Text
  pub authority : AddressInput Address Text
  pub program_id : Option Address

-- The index that the parity error reports.
abbrev pub diff_index : Option ℕ → ℕ
diff_index none = 0
diff_index (some i) = i

module _ (p : Platform) where
  unfoldable pub as_base58 : Input p → Result p.Text
  as_base58 a = do found ← addr p a; ok (p.to_base58 found)

  -- The cross-check of the runner's seeds, where it gave some.
  unfoldable pub check_seeds :
      Option (RunnerClaimPdaSeeds p.Text)
      → SubmitAiClaimFromRunnerOpts p.Address p.Text
      → Result (Unit {0})
  unfolding as_base58
  check_seeds none opts = ok tt
  check_seeds (some seeds) opts = do
    guard (bytes_equal seeds.seed_prefix (ascii "claim")) Error.seed_prefix
    passed_oracle ← as_base58 opts.oracle
    passed_proposer ← as_base58 opts.proposer
    named_oracle ← as_base58 (base58 seeds.oracle)
    guard (p.same_text named_oracle passed_oracle) seed_oracle
    named_proposer ← as_base58 (base58 seeds.proposer)
    guard (p.same_text named_proposer passed_proposer) seed_proposer

  -- The parity guard on the data of the instruction.
  unfoldable pub check_parity : List ℕ → List ℕ → Result (Unit {0})
  check_parity sent expected_payload = do
    guard (length sent == 98) (parity_length (length sent))
    guard (elim (get_elem? sent 0) [ none ↦ false | some d ↦ d == disc_of Ix.submit_ai_claim ])
        parity_disc
    let sdk_payload = slice sent 1 97
    guard (bytes_equal sdk_payload expected_payload)
        (parity_payload (diff_index (first_diff 0 sdk_payload expected_payload)))

  unfoldable pub submit_ai_claim_from_runner :
      ProgramIds p
      → RunnerOutput p.Text
      → SubmitAiClaimFromRunnerOpts p.Address p.Text
      → Result (Instruction p.Address)
  submit_ai_claim_from_runner ids run opts = do
    model_id ← hex_to_bytes run.model_id_hex 32
    params_hash ← hex_to_bytes run.params_hash_hex 32
    io_hash ← hex_to_bytes run.io_hash_hex 32
    expected_payload ← hex_to_bytes run.submit_ai_claim_payload_hex 97
    instruction ← submit_ai_claim p ids (record {
      oracle = opts.oracle;
      proposer = opts.proposer;
      authority = opts.authority;
      model_id = model_id;
      params_hash = params_hash;
      io_hash = io_hash;
      option = run.option_index;
      program_id = opts.program_id;
    })
    check_parity instruction.payload expected_payload
    check_seeds run.claim_pda_seeds opts
    ok instruction
