-- ===== src/App/Write/Confirm.antt =====
-- Which answers of the indexer confirm a signature.
use text.Mathlib.Text.{◌==◌}
use Prim.Native.String.{String}
use kassandra.Base.{
  ◌≡◌, refl, arith, List, [], ◌∷◌, Bool, true, false, ◌||◌, ◌↔◌, ◌⊎◌, inl, inr, if◌then◌else◌,
}
use kassandra.App.Write.{Environment, Raw, Poll, truthy, confirm_rounds, rejected_by_chain}

abbrev pub fails : Poll → Bool
fails poll = poll.status == "failed" || truthy poll.failure

abbrev pub lands : Poll → Bool
lands poll = poll.status == "confirmed" || poll.status == "finalized"

-- There is an answer with a status that confirms, and neither it nor one before it is a failure.
abbrev pub Confirms : List (Raw ⊎ Poll) → Type 0
Confirms [] = ⊥
Confirms (inl thrown ∷ polls) = ⊥
Confirms (inr poll ∷ polls) = (fails poll ≡ false) × ((lands poll ≡ true) ⊎ Confirms polls)

module _ {Ix : Type 0} (world : Environment Ix) (signature : String) where
  round :
      (failed landed : Bool) (thrown : Raw) (later : Raw ⊎ Unit {0}) (More : Type 0)
      → ((later ≡ inr tt) ↔ More)
      → (((if failed then inl thrown else if landed then inr tt else later) ≡ inr tt)
          ↔ ((failed ≡ false) × ((landed ≡ true) ⊎ More)))
  round true landed thrown later More known = (λ h. cc, λ h. cc)
  round false true thrown later More known = (λ h. (refl, inl refl), λ h. refl)
  round false false thrown later More known =
      (λ h. (refl, inr (known.0 h)), λ h. ground (arith, known))

  pub confirm_rounds_lem :
      (polls : List (Raw ⊎ Poll))
      → ((confirm_rounds world signature polls ≡ inr tt) ↔ Confirms polls)
  unfolding confirm_rounds
  confirm_rounds_lem [] = (λ h. cc, λ h. absurd h)
  confirm_rounds_lem (inl thrown ∷ polls) = (λ h. cc, λ h. absurd h)
  confirm_rounds_lem (inr poll ∷ polls) =
      round (fails poll) (lands poll) (rejected_by_chain world signature poll.failure)
        (confirm_rounds world signature polls) (Confirms polls) (confirm_rounds_lem polls)
