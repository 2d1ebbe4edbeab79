-- ===== src/Blocking.antt =====
-- A call that may have to wait: `none` where it waits for a lock or a connection that is not there, and else an
-- outcome and the state, as in Session.
use ice_log.Prelude.{Option, none, some}
use ice_log.Outcome.{Outcome, ok, thrown, undefined}

abbrev pub Blocking : Type 0 → Type 0 → Type 0
Blocking S A = S → Option (Outcome A × S)

abbrev pub pure : {S A : Type 0} → A → Blocking S A
pure a s = some (ok a, s)

abbrev pub continue :
    {S A B : Type 0} → Option (Outcome A × S) → (A → Blocking S B) → Option (Outcome B × S)
continue none f = none
continue (some (ok a, s)) f = f a s
continue (some (thrown e, s)) f = some (thrown e, s)
continue (some (undefined, s)) f = some (undefined, s)

-- An outcome that needs no wait and leaves the state alone.
abbrev pub lift : {S A : Type 0} → Outcome A → Blocking S A
lift o s = some (o, s)

infixl 5 ◌>>=◌ ◌>>◌
abbrev pub ◌>>=◌ : {S A B : Type 0} → Blocking S A → (A → Blocking S B) → Blocking S B
◌>>=◌ m f s = continue (m s) f

abbrev pub ◌>>◌ : {S A B : Type 0} → Blocking S A → Blocking S B → Blocking S B
m >> k = m >>= λ _. k
