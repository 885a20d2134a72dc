-- ===== src/Markets/Keys.antt =====
-- Reading the accounts of a list of instructions, to state what a flow makes.
use kassandra.Base.{ℕ, zero, suc, List, [], ◌∷◌, Option, none, some, get_elem?}
use kassandra.Instructions.Payload.{AccountMeta, Instruction}
use kassandra.Instructions.Calls.{signing}

abbrev pub pubkeys : {Address : Type 0} → List (AccountMeta Address) → List Address
pubkeys [] = []
pubkeys (k ∷ ks) = k.pubkey ∷ pubkeys ks

-- Account `n` of instruction `i`.
abbrev pub account_at : {Address : Type 0} → List (Instruction Address) → ℕ → ℕ → Option Address
account_at [] i n = none
account_at (x ∷ xs) zero n = get_elem? (pubkeys x.keys) n
account_at (x ∷ xs) (suc i) n = account_at xs i n

-- The program of instruction `i`, and the accounts that it asks to sign.
abbrev pub call_at :
    {Address : Type 0} → List (Instruction Address) → ℕ → Option (Address × List Address)
call_at [] i = none
call_at (x ∷ xs) zero = some (x.program_id, signing x.keys)
call_at (x ∷ xs) (suc i) = call_at xs i

-- The data of instruction `i`.
abbrev pub payload_at : {Address : Type 0} → List (Instruction Address) → ℕ → List ℕ
payload_at [] i = []
payload_at (x ∷ xs) zero = x.payload
payload_at (x ∷ xs) (suc i) = payload_at xs i

-- The accounts that each instruction asks to sign, and the program of each.
abbrev pub signers : {Address : Type 0} → List (Instruction Address) → List (List Address)
signers [] = []
signers (x ∷ xs) = signing x.keys ∷ signers xs

abbrev pub programs : {Address : Type 0} → List (Instruction Address) → List Address
programs [] = []
programs (x ∷ xs) = x.program_id ∷ programs xs
