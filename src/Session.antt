-- ===== src/Session.antt =====
-- A call on state that may throw: the outcome, and the state as the call leaves it, also when it throws.
use ice_log.Outcome.{Outcome, ok, thrown, undefined}

abbrev pub Session : Type 0 → Type 0 → Type 0
Session S A = S → Outcome A × S

abbrev pub pure : {S A : Type 0} → A → Session S A
pure a s = (ok a, s)

abbrev pub continue : {S A B : Type 0} → Outcome A × S → (A → Session S B) → Outcome B × S
continue (ok a, s) f = f a s
continue (thrown e, s) f = (thrown e, s)
continue (undefined, s) f = (undefined, s)

infixl 5 ◌>>=◌ ◌>>◌
abbrev pub ◌>>=◌ : {S A B : Type 0} → Session S A → (A → Session S B) → Session S B
◌>>=◌ m f s = continue (m s) f

abbrev pub ◌>>◌ : {S A B : Type 0} → Session S A → Session S B → Session S B
m >> k = m >>= λ _. k

-- A call that leaves the state alone.
abbrev pub lift : {S A : Type 0} → Outcome A → Session S A
lift o s = (o, s)
