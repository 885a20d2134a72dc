-- ===== src/App/Write.antt =====
-- app/src/market/data/writeAction.ts, with `sendAndConfirm` of send.ts. What is thrown is neither null
-- nor undefined. The two regular expressions, in `isUserRejection` and in `humanizeProgramError`,
-- are parameters.
pub mod Confirm
pub mod Machine
pub mod Success
use Prim.Native.String.{String, ◌++◌ as ◌<>◌}
use text.Mathlib.Text.{◌==◌}
use kassandra.Base.{
  ◌==◌ as ◌=?◌, ℕ, List, [], ◌∷◌, ◌++◌, Bool, true, false, not, ◌||◌, Option, none, some, ◌⊎◌, inl,
  inr, if◌then◌else◌,
}

pub data WriteStatus : Type 0 where
  idle building signing confirming : WriteStatus
  success : String → WriteStatus
  error : String → Option (List String) → WriteStatus

unfoldable pub is_busy : WriteStatus → Bool
is_busy idle = false
is_busy building = true
is_busy signing = true
is_busy confirming = true
is_busy (success signature) = false
is_busy (error message logs) = false

-- Something thrown that is none of the app's own errors: `shown` is what `errMsg` makes of it.
pub record Raw : Type 0 where
  pub code : Option ℕ
  pub name : Option String
  pub message : Option String
  pub shown : String
  pub logs : Option (List String)

pub data Thrown : Type 0 where
  validation_error : String → Thrown
  -- `SendError`: message, signature, logs and cause.
  send_error : String → Option String → Option (List String) → Raw → Thrown
  raw : Raw → Thrown

-- `new Error(message)`.
abbrev pub plain_error : String → Raw
plain_error message = record {
  code = none;
  name = some "Error";
  message = some message;
  shown = message;
  logs = none;
}

-- The answer to a question for the status of a signature.
pub record Poll : Type 0 where
  pub status : String
  pub failure : Option String

abbrev pub truthy : Option String → Bool
truthy none = false
truthy (some t) = not (t == "")

abbrev pub text_or : Option String → String → String
text_or none t = t
text_or (some s) t = s

-- What a write meets: the build, the wallet, the answers of the indexer until the deadline, and what
-- `onSuccess` throws, if it is given and throws. `Ix` is an instruction.
pub record Environment (Ix : Type 0) : Type 0 where
  pub build : Thrown ⊎ List Ix
  pub wallet_sender : List Ix → Raw ⊎ String
  pub polls : String → List (Raw ⊎ Poll)
  pub on_success : String → Option Thrown
  -- The two regular expressions.
  pub says_rejected : String → Bool
  pub humanize : String → Option (List String) → Option String

module _ {Ix : Type 0} (world : Environment Ix) where
  abbrev pub is_rejection_code : Option ℕ → Bool
  is_rejection_code none = false
  is_rejection_code (some n) = n =? 4001

  abbrev pub is_wallet_error : Option String → Bool
  is_wallet_error none = false
  is_wallet_error (some name) =
      name == "WalletSignTransactionError" || name == "WalletSendTransactionError"

  abbrev pub rejects : Raw → Bool
  rejects cause =
      is_rejection_code cause.code
      || is_wallet_error cause.name
      || world.says_rejected (text_or cause.message cause.shown)

  unfoldable pub is_user_rejection : Thrown → Bool
  is_user_rejection (validation_error message) = world.says_rejected message
  is_user_rejection (send_error message signature logs cause) = rejects cause
  is_user_rejection (raw cause) = rejects cause

  -- The error status with the mapped message.
  unfoldable pub map_write_error : Thrown → WriteStatus
  map_write_error (validation_error message) = error message none
  map_write_error (send_error message signature logs cause) =
      if is_user_rejection (send_error message signature logs cause)
      then error "Transaction rejected in wallet." none
      else error message logs
  map_write_error (raw cause) =
      if is_user_rejection (raw cause)
      then error "Transaction rejected in wallet." none
      else error cause.shown none

  abbrev pub timed_out : String → Raw
  timed_out signature = plain_error ("tx " <> signature <> " not confirmed within 30000ms")

  abbrev pub rejected_by_chain : String → Option String → Raw
  rejected_by_chain signature failure =
      let said = text_or failure "unknown error" in
      plain_error ("tx " <> signature <> " failed: " <> text_or (world.humanize said none) said)

  -- `confirmSignature`: one round for each answer that comes before the deadline.
  unfoldable pub confirm_rounds : String → List (Raw ⊎ Poll) → Raw ⊎ Unit {0}
  confirm_rounds signature [] = inl (timed_out signature)
  confirm_rounds signature (inl thrown ∷ polls) = inl thrown
  confirm_rounds signature (inr poll ∷ polls) =
      let later = confirm_rounds signature polls in
      if poll.status == "failed" || truthy poll.failure
      then inl (rejected_by_chain signature poll.failure)
      else if poll.status == "confirmed" || poll.status == "finalized"
      then inr tt
      else later

  -- What the first `catch` of `relayAndConfirm` throws, and the second.
  abbrev pub relay_failed : Raw → Option String → Thrown
  relay_failed e none = send_error ("Transaction send failed: " <> e.shown) none e.logs e
  relay_failed e (some human) = send_error ("Transaction failed: " <> human) none e.logs e

  abbrev pub confirm_failed : String → Raw → Thrown
  confirm_failed signature e =
      send_error ("Transaction " <> signature <> " failed to confirm: " <> e.shown) (some signature)
        e.logs e

  abbrev pub confirmed : String → Raw ⊎ Unit {0} → Thrown ⊎ String
  confirmed signature (inl e) = inl (confirm_failed signature e)
  confirmed signature (inr done) = inr signature

  -- `relayAndConfirm` of the wrapped sender, with the statuses that the wrapper sets.
  unfoldable pub send_and_confirm : List Ix → List WriteStatus × (Thrown ⊎ String)
  send_and_confirm ixs = elim (world.wallet_sender ixs) [
    | inl e ↦ ([], inl (relay_failed e (world.humanize e.shown e.logs)))
    | inr signature ↦
        (confirming ∷ [], confirmed signature (confirm_rounds signature (world.polls signature)))
  ]

  -- The end of the `try`, and the `catch`: what is set, and what is returned.
  abbrev pub caught : Thrown → List WriteStatus × WriteStatus
  caught e = let failure = map_write_error e in (failure ∷ [], failure)

  abbrev pub after_success : String → Option Thrown → List WriteStatus × WriteStatus
  after_success signature none = (success signature ∷ [], success signature)
  after_success signature (some e) =
      let failure = map_write_error e in (success signature ∷ failure ∷ [], failure)

  abbrev pub settled : Thrown ⊎ String → List WriteStatus × WriteStatus
  settled (inl e) = caught e
  settled (inr signature) = after_success signature (world.on_success signature)

  abbrev pub behind :
      List WriteStatus → List WriteStatus × WriteStatus → List WriteStatus × WriteStatus
  behind before (after, last) = (before ++ after, last)

  abbrev pub sent : List WriteStatus × (Thrown ⊎ String) → List WriteStatus × WriteStatus
  sent (during, outcome) = behind (building ∷ signing ∷ during) (settled outcome)

  -- The statuses that are set, in order, and the one that is returned.
  unfoldable pub run_write_action : List WriteStatus × WriteStatus
  run_write_action = elim world.build [
    | inl e ↦ behind (building ∷ []) (caught e)
    | inr ixs ↦ sent (send_and_confirm ixs)
  ]
