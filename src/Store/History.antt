-- ===== src/Store/History.antt =====
-- The recent events of web/src/stores/store.ts against the whole history of events.
use ddsds.Common.{ℕ, zero, suc, List, ◌∷◌, ◌≡◌, refl, ap, take, take-take, arith}
use ddsds.Store.{Store, kept_events, add_security_event}

pub take-cons-take {ℓ} :
    {A : Type ℓ} (n : ℕ) (x : A) (xs : List A) → take n (x ∷ take n xs) ≡ take n (x ∷ xs)
take-cons-take zero x xs = refl
take-cons-take (suc n) x xs = ap (◌∷◌ x) (take-take n (suc n) xs (omega arith))

-- A store that shows the newest events of a history, newest first.
abbrev pub Shows : {M E : Type 0} → Store M E → List E → Type 0
Shows s history = s.recent_events ≡ take kept_events history

pub add_security_event-Shows :
    {M E : Type 0} (e : E) (s : Store M E) (history : List E)
    → Shows s history
    → Shows (add_security_event e s) (e ∷ history)
unfolding add_security_event
add_security_event-Shows e s history h = rw h (take-cons-take kept_events e history)
