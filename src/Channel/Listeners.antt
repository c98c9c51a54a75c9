-- ===== src/Channel/Listeners.antt =====
-- `IReceiverLoop` (link/transport/channel.h): the channels by the rank of their peer.
use yacl_r.Base.{
  ℕ, List, [], ◌∷◌, Option, none, some, Result, ok, err, enforce_not_met, logic_error, ◌==◌,
  if◌then◌else◌,
}

module _ {A : Type 0} where
  pub find : ℕ → List (ℕ × A) → Option A
  find rank [] = none
  find rank ((r, x) ∷ rest) = let later = find rank rest in if r == rank then some x else later

  -- A listener that is null is refused, and so is a second one for a rank.
  pub add_listener : ℕ → Option A → List (ℕ × A) → Result (List (ℕ × A))
  add_listener rank none listeners = err enforce_not_met
  add_listener rank (some x) listeners = elim (find rank listeners) [
    | some y ↦ err logic_error
    | none ↦ ok ((rank, x) ∷ listeners)
  ]
