-- ===== src/Base/Action.antt =====
-- Methods of an object: they read and write its state, and return or raise. The state comes back
-- after a raise too, since what was written stays written.
use itch_lab.Base.{◌≡◌, Bool, false, Option, none, some, if◌then◌else◌}
use itch_lab.Base.Result.{Result, ok, err, is_ok}
use itch_lab.Errors.{SimulationError}

abbrev pub Action : Type 0 → Type 0 → Type 0
Action S A = S → Result A × S

infixl 5 ◌>>=◌ ◌>>◌
abbrev pub ◌>>=◌ : {S A B : Type 0} → Action S A → (A → Action S B) → Action S B
◌>>=◌ m f s = let (r, s') = m s in elim r [ ok a ↦ f a s' | err e ↦ (err e, s') ]

abbrev pub ◌>>◌ : {S B : Type 0} → Action S (Unit {0}) → Action S B → Action S B
m >> k = m >>= λ _. k

abbrev pub pure : {S A : Type 0} → A → Action S A
pure a s = (ok a, s)

abbrev pub raise : {S A : Type 0} → SimulationError → Action S A
raise e s = (err e, s)

-- A call that only computes or raises.
abbrev pub lift : {S A : Type 0} → Result A → Action S A
lift r s = (r, s)

-- `if c: raise e`
abbrev pub raise_if : {S : Type 0} → Bool → SimulationError → Action S (Unit {0})
raise_if c e s = (if c then err e else ok tt, s)

abbrev pub gets : {S A : Type 0} → (S → A) → Action S A
gets f s = (ok (f s), s)

abbrev pub modify : {S : Type 0} → (S → S) → Action S (Unit {0})
modify f s = (ok tt, f s)

abbrev pub or_raise : {S A : Type 0} → Option A → SimulationError → Action S A
or_raise none e = raise e
or_raise (some a) e = pure a

-- The call raised, and left the state as it was.
abbrev pub Raises : {S A : Type 0} → S → Result A × S → Type 0
Raises s r = (is_ok r.0 ≡ false) × (r.1 ≡ s)
