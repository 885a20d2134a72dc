-- ===== src/App/Write/Machine.antt =====
-- The states of a write in writeAction.ts, the arrows between them, and that a run keeps to these.
use Prim.Native.String.{String}
use kassandra.Base.{
  ◌≡◌, refl, List, [], ◌∷◌, Bool, true, false, Option, none, ◌⊎◌, inl, inr, if◌then◌else◌,
}
use kassandra.App.Write.{
  WriteStatus, idle, building, signing, confirming, success, error, is_busy, Thrown, Environment,
  map_write_error, send_and_confirm, confirmed, confirm_rounds, run_write_action, sent, behind,
  caught, is_user_rejection, relay_failed, confirm_failed, Raw,
}

-- The arrows forward are those that the first comment of writeAction.ts draws. It draws an arrow to an
-- error from `confirming` only; the code takes one from every state in which a write is in flight.
pub data Next : WriteStatus → WriteStatus → Type 0 where
  started : Next idle building
  built : Next building signing
  submitted : Next signing confirming
  landed : (signature : String) → Next confirming (success signature)
  failed :
      {a : WriteStatus} (message : String) (logs : Option (List String))
      → is_busy a ≡ true
      → Next a (error message logs)

-- The statuses that are set, one after the other, lead from `a` to `b` along the arrows.
abbrev pub Walk : WriteStatus → List WriteStatus → WriteStatus → Type 0
Walk a [] b = a ≡ b
Walk a (s ∷ ss) b = Next a s × Walk s ss b

-- An arrow to where the write is no longer in flight.
abbrev pub Ends : WriteStatus → WriteStatus → Type 0
Ends a b = Next a b × (is_busy b ≡ false)

Ends-either :
    {a : WriteStatus} (c : Bool) {x y : WriteStatus}
    → Ends a x
    → Ends a y
    → Ends a (if c then x else y)
Ends-either true hx hy = hx
Ends-either false hx hy = hy

module _ {Ix : Type 0} (world : Environment Ix) where
  map_write_error-Ends :
      (a : WriteStatus) (e : Thrown) → is_busy a ≡ true → Ends a (map_write_error world e)
  unfolding map_write_error is_busy
  map_write_error-Ends a (Thrown.validation_error message) busy = (failed message none busy, refl)
  map_write_error-Ends a (Thrown.send_error message signature logs cause) busy =
      Ends-either (is_user_rejection world (Thrown.send_error message signature logs cause))
        (failed _ none busy, refl) (failed message logs busy, refl)
  map_write_error-Ends a (Thrown.raw cause) busy =
      Ends-either (is_user_rejection world (Thrown.raw cause)) (failed _ none busy, refl)
        (failed cause.shown none busy, refl)

  -- The statuses lead from `idle` to the one that is returned, which is not in flight.
  abbrev pub Settles : List WriteStatus × WriteStatus → Type 0
  Settles run = Walk idle run.0 run.1 × (is_busy run.1 ≡ false)

  module _ (quiet : (signature : String) → world.on_success signature ≡ none) where
    confirmed-Settles :
        (signature : String) (r : Raw ⊎ Unit {0})
        → Settles (sent world (confirming ∷ [], confirmed world signature r))
    confirmed-Settles signature (inl e) =
        let (arrow, over) =
          map_write_error-Ends confirming (confirm_failed world signature e)
            (unfold is_busy in refl) in
        ((started, (built, (submitted, (arrow, refl)))), over)
    confirmed-Settles signature (inr done) =
        rw (quiet signature)
          ((started, (built, (submitted, (landed signature, refl)))), unfold is_busy in refl)

    sent-Settles :
        (ixs : List Ix) (relayed : Raw ⊎ String)
        → Settles (
            sent world (elim relayed [
              | inl e ↦ ([], inl (relay_failed world e (world.humanize e.shown e.logs)))
              | inr signature ↦ (
                confirming ∷ [],
                confirmed world signature (confirm_rounds world signature (world.polls signature)),
              )
            ]))
    sent-Settles ixs (inl e) =
        let (arrow, over) =
          map_write_error-Ends signing (relay_failed world e (world.humanize e.shown e.logs))
            (unfold is_busy in refl) in
        ((started, (built, (arrow, refl))), over)
    sent-Settles ixs (inr signature) =
        confirmed-Settles signature (confirm_rounds world signature (world.polls signature))

    -- Where the callback does not throw, the statuses that a write sets go from idle to the status that
    -- it returns, each step one state forward or, from a state of a write in flight, to an error; and
    -- the status that it returns is not one of a write in flight.
    pub run_write_action_walks :
        Walk idle (run_write_action world).0 (run_write_action world).1
        × (is_busy (run_write_action world).1 ≡ false)
    unfolding run_write_action send_and_confirm
    run_write_action_walks = go world.build
      where
        go :
            (b : Thrown ⊎ List Ix)
            → Settles (elim b [
              | inl e ↦ behind world (building ∷ []) (caught world e)
              | inr ixs ↦ sent world (send_and_confirm world ixs)
            ])
        go (inl e) =
            let (arrow, over) = map_write_error-Ends building e (unfold is_busy in refl) in
            ((started, (arrow, refl)), over)
        go (inr ixs) = sent-Settles ixs (world.wallet_sender ixs)
