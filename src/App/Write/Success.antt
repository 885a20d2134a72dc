-- ===== src/App/Write/Success.antt =====
-- When a write succeeds.
use Prim.Native.String.{String}
use kassandra.Base.{
  ◌≡◌, refl, ap, sym, List, [], ◌∷◌, ◌↔◌, Bool, true, false, none, ◌⊎◌, inl, inr, if◌then◌else◌,
}
use mathlib.Core.Path.{subst}
use kassandra.App.Write.Confirm.{Confirms, confirm_rounds_lem}
use kassandra.App.Write.{
  WriteStatus, confirming, success, Thrown, Raw, Environment, map_write_error, is_user_rejection,
  send_and_confirm, confirmed, confirm_failed, relay_failed, confirm_rounds, run_write_action, sent,
}

success-inj : {s t : String} → success s ≡ success t → s ≡ t
success-inj h = cc

inr_inj : {s t : String} → ◌≡◌ {A = Raw ⊎ String} (inr s) (inr t) → s ≡ t
inr_inj h = cc

either_error :
    (c : Bool) {x y : WriteStatus} {s : String}
    → ¬ (x ≡ success s)
    → ¬ (y ≡ success s)
    → ¬ ((if c then x else y) ≡ success s)
either_error true hx hy = hx
either_error false hx hy = hy

module _ {Ix : Type 0} (world : Environment Ix) where
  map_write_error_unsuccessful : (e : Thrown) (s : String) → ¬ (map_write_error world e ≡ success s)
  unfolding map_write_error
  map_write_error_unsuccessful (Thrown.validation_error message) s = λ h. cc
  map_write_error_unsuccessful (Thrown.send_error message signature logs cause) s =
      either_error (is_user_rejection world (Thrown.send_error message signature logs cause))
        (λ h. cc) (λ h. cc)
  map_write_error_unsuccessful (Thrown.raw cause) s =
      either_error (is_user_rejection world (Thrown.raw cause)) (λ h. cc) (λ h. cc)

  -- The last status after the relay.
  abbrev outcome_of : Raw ⊎ String → WriteStatus
  outcome_of relayed =
      (sent world (elim relayed [
        | inl e ↦ ([], inl (relay_failed world e (world.humanize e.shown e.logs)))
        | inr signature ↦ (
          confirming ∷ [],
          confirmed world signature (confirm_rounds world signature (world.polls signature)),
        )
      ])).1

  module _ (quiet : (signature : String) → world.on_success signature ≡ none) where
    success_confirmed :
        (signature s : String) (r : Raw ⊎ Unit {0})
        → (((sent world (confirming ∷ [], confirmed world signature r)).1 ≡ success s)
            ↔ ((signature ≡ s) × (r ≡ inr tt)))
    success_confirmed signature s (inl e) =
        (λ h. absurd (map_write_error_unsuccessful (confirm_failed world signature e) s h), λ h. cc)
    success_confirmed signature s (inr done) =
        rw (quiet signature) (λ h. (success-inj h, refl), λ h. ap success h.0)

    success_relayed :
        (relayed : Raw ⊎ String) (s : String)
        → ((outcome_of relayed ≡ success s)
            ↔ ((relayed ≡ inr s) × (confirm_rounds world s (world.polls s) ≡ inr tt)))
    success_relayed (inl e) s = (
      λ h.
          absurd (
            map_write_error_unsuccessful (relay_failed world e (world.humanize e.shown e.logs)) s
              h),
      λ h. cc,
    )
    success_relayed (inr signature) s =
        let known =
          success_confirmed signature s (confirm_rounds world signature (world.polls signature)) in
        (
          λ h.
              let (same, landed) = known.0 h in
              (
                ap inr same,
                subst (λ t. confirm_rounds world t (world.polls t) ≡ inr tt) same landed,
              ),
          λ (here, landed).
              let same = inr_inj here in
              known.1 (
                same,
                subst (λ t. confirm_rounds world t (world.polls t) ≡ inr tt) (sym same) landed,
              ),
        )

    relayed_success :
        (ixs : List Ix) (signature : String)
        → world.build ≡ inr ixs
        → (((run_write_action world).1 ≡ success signature) ↔ (
            (world.wallet_sender ixs ≡ inr signature)
            × (confirm_rounds world signature (world.polls signature) ≡ inr tt)))
    unfolding run_write_action send_and_confirm map_write_error confirm_rounds is_user_rejection
    relayed_success ixs signature built =
        rw built (success_relayed (world.wallet_sender ixs) signature)

    -- Where the instructions are built and the callback does not throw, a write ends in success with a
    -- signature if and only if the wallet relays the transaction under that signature, and of the
    -- answers of the indexer before the deadline one says that it is confirmed or finalized and
    -- neither that one nor one before it is a failure.
    pub run_write_action_success :
        (ixs : List Ix) (signature : String)
        → world.build ≡ inr ixs
        → (((run_write_action world).1 ≡ success signature)
            ↔ ((world.wallet_sender ixs ≡ inr signature) × Confirms (world.polls signature)))
    run_write_action_success ixs signature built =
        let relayed = relayed_success ixs signature built in
        let rounds = confirm_rounds_lem world signature (world.polls signature) in
        (
          λ h. let (here, landed) = relayed.0 h in (here, rounds.0 landed),
          λ (here, landed). relayed.1 (here, rounds.1 landed),
        )
