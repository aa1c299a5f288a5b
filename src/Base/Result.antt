-- ===== src/Base/Result.antt =====
-- Exceptions as values: a function that computes or raises.
use itch_lab.Base.{Bool, true, false, if◌then◌else◌, ◌≡◌, ◌⊎◌, inl, inr, refl}
use itch_lab.Errors.{SimulationError}

pub data Result (A : Type 0) : Type 0 where
  err : SimulationError → Result A
  ok : A → Result A

infixl 5 ◌>>=◌ ◌>>◌
-- The second call runs on what the first one returned, unless that raised.
abbrev pub ◌>>=◌ : {A B : Type 0} → Result A → (A → Result B) → Result B
err x >>= next = err x
ok a >>= next = next a

abbrev pub ◌>>◌ : {A : Type 0} → Result (Unit {0}) → Result A → Result A
first >> second = first >>= λ _. second

-- `if c: raise e`
abbrev pub raise_if : Bool → SimulationError → Result (Unit {0})
raise_if c e = if c then err e else ok tt

abbrev pub is_ok : {A : Type 0} → Result A → Bool
is_ok (ok _) = true
is_ok (err _) = false

-- A chain that returned: what its first call returned, and that the rest returned from there.
pub >>=-eq-ok :
    {A B : Type 0} (r : Result A) (next : A → Result B) {b : B}
    → (r >>= next) ≡ ok b
    → (a : A) × (r ≡ ok a) × (next a ≡ ok b)
>>=-eq-ok (err x) next e = cc
>>=-eq-ok (ok a) next e = (a, refl, e)

-- A result is a value or an error.
pub Result-cases :
    {A : Type 0} (r : Result A) → ((a : A) × (r ≡ ok a)) ⊎ ((x : SimulationError) × (r ≡ err x))
Result-cases (ok a) = inl (a, refl)
Result-cases (err x) = inr (x, refl)
