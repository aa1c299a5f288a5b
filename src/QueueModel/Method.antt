-- ===== src/QueueModel/Method.antt =====
-- queue_model.py: methods that return, raise a SimulationError, or fail with a KeyError or a
-- TypeError. What was written before stays written.
use itch_lab.Base.{◌≡◌, refl, Bool, true, false, Option, none, some, if◌then◌else◌}
use itch_lab.Base.Result.{Result, ok, err}
use itch_lab.Base.Action.{Action}
use itch_lab.Errors.{SimulationError}

pub data Failure : Type 0 where
  key_error type_error : Failure

pub data Ran (A : Type 0) : Type 0 where
  returned : A → Ran A
  raised : SimulationError → Ran A
  failed : Failure → Ran A

abbrev pub Method : Type 0 → Type 0 → Type 0
Method S A = S → Ran A × S

-- A call, and the rest from where it left the state, unless it raised or failed.
infixl 5 ◌>>=◌ ◌>>◌
unfoldable pub ◌>>=◌ : {S A B : Type 0} → Method S A → (A → Method S B) → Method S B
◌>>=◌ m f s =
    let (r, s') = m s in
    elim r [
      | Ran.returned a ↦ f a s'
      | Ran.raised e ↦ (Ran.raised e, s')
      | Ran.failed x ↦ (Ran.failed x, s')
    ]

abbrev pub ◌>>◌ : {S B : Type 0} → Method S (Unit {0}) → Method S B → Method S B
m >> k = m >>= λ _. k

unfoldable pub pure : {S A : Type 0} → A → Method S A
pure a s = (Ran.returned a, s)

unfoldable pub gets : {S A : Type 0} → (S → A) → Method S A
gets f s = (Ran.returned (f s), s)

unfoldable pub modify : {S : Type 0} → (S → S) → Method S (Unit {0})
modify f s = (Ran.returned tt, f s)

abbrev pub ran : {A : Type 0} → Result A → Ran A
ran (ok a) = Ran.returned a
ran (err e) = Ran.raised e

-- A call that computes or raises.
unfoldable pub lift : {S A : Type 0} → Result A → Method S A
lift r s = (ran r, s)

-- A lookup that fails with a KeyError.
unfoldable pub or_key_error : {S A : Type 0} → Option A → Method S A
or_key_error none s = (Ran.failed Failure.key_error, s)
or_key_error (some a) s = (Ran.returned a, s)

-- A computation that raises, or fails with a TypeError.
unfoldable pub or_type_error : {S A : Type 0} → Option (Result A) → Method S A
or_type_error none s = (Ran.failed Failure.type_error, s)
or_type_error (some r) s = (ran r, s)

-- A call of a method of another object, the part of the state at `get`.
unfoldable pub at_part : {S T A : Type 0} → (S → T) → (T → S → S) → Action T A → Method S A
at_part get put m s = let (r, t) = m (get s) in (ran r, put t s)

-- How a run ends without a KeyError: it returns a value and a state that `Q` admits, or it raises a
-- SimulationError or a TypeError and leaves a state that `E` admits.
pub data Ends {S A : Type 0} (E : S → Type 0) (Q : A → S → Type 0) : Ran A × S → Type 0 where
  returns : {a : A} {s : S} → Q a s → Ends E Q (Ran.returned a, s)
  raises : {e : SimulationError} {s : S} → E s → Ends E Q (Ran.raised e, s)
  type_errors : {s : S} → E s → Ends E Q (Ran.failed Failure.type_error, s)

pub Ends-ran :
    {S B : Type 0} {E : S → Type 0} {R : B → S → Type 0} (r : Result B) {s : S}
    → E s
    → ((b : B) → r ≡ ok b → R b s)
    → Ends E R (ran r, s)
Ends-ran (ok b) e k = returns (k b refl)
Ends-ran (err x) e k = raises e

module _ {S A : Type 0} {E : S → Type 0} {Q : A → S → Type 0} where
  pub Ends-map :
      {R : A → S → Type 0} {r : Ran A × S}
      → Ends E Q r
      → ((a : A) (s : S) → Q a s → R a s)
      → Ends E R r
  Ends-map (returns q) k = returns (k _ _ q)
  Ends-map (raises e) k = raises e
  Ends-map (type_errors e) k = type_errors e

  Ends-then :
      {B : Type 0} {R : B → S → Type 0} {r : Ran A × S} (f : A → Method S B)
      → Ends E Q r
      → ((a : A) (s : S) → Q a s → Ends E R (f a s))
      → Ends E R (elim r.0 [
        | Ran.returned a ↦ f a r.1
        | Ran.raised e ↦ (Ran.raised e, r.1)
        | Ran.failed x ↦ (Ran.failed x, r.1)
      ])
  Ends-then f (returns q) k = k _ _ q
  Ends-then f (raises e) k = raises e
  Ends-then f (type_errors e) k = type_errors e

  pub Ends-bind :
      {B : Type 0} {R : B → S → Type 0} (m : Method S A) (f : A → Method S B) (s : S)
      → Ends E Q (m s)
      → ((a : A) (s' : S) → Q a s' → Ends E R (f a s'))
      → Ends E R ((m >>= f) s)
  unfolding ◌>>=◌
  Ends-bind m f s h k = Ends-then f h k

  pub Ends-pure : (a : A) (s : S) → Q a s → Ends E Q (pure a s)
  unfolding pure
  Ends-pure a s q = returns q

  pub Ends-if :
      (b : Bool) (m n : Method S A) (s : S)
      → (b ≡ true → Ends E Q (m s))
      → (b ≡ false → Ends E Q (n s))
      → Ends E Q ((if b then m else n) s)
  Ends-if true m n s h k = h refl
  Ends-if false m n s h k = k refl

module _ {S A : Type 0} {E : S → Type 0} {Q : A → S → Type 0} where
  pub Ends-gets :
      {B : Type 0} (g : S → B) (f : B → Method S A) (s : S)
      → Ends E Q (f (g s) s)
      → Ends E Q ((gets g >>= f) s)
  unfolding ◌>>=◌ gets
  Ends-gets g f s h = h

  pub Ends-modify :
      (g : S → S) (f : Unit {0} → Method S A) (s : S)
      → Ends E Q (f tt (g s))
      → Ends E Q ((modify g >>= f) s)
  unfolding ◌>>=◌ modify
  Ends-modify g f s h = h

  -- A call that only computes, followed by the rest.
  pub Ends-lift :
      {B : Type 0} (r : Result B) (f : B → Method S A) (s : S)
      → E s
      → ((b : B) → r ≡ ok b → Ends E Q (f b s))
      → Ends E Q ((lift r >>= f) s)
  unfolding ◌>>=◌ lift
  Ends-lift (ok b) f s e k = k b refl
  Ends-lift (err x) f s e k = raises e

  -- A computation that may raise a TypeError, followed by the rest.
  pub Ends-or_type_error :
      {B : Type 0} (r : Option (Result B)) (f : B → Method S A) (s : S)
      → E s
      → ((b : B) → Ends E Q (f b s))
      → Ends E Q ((or_type_error r >>= f) s)
  unfolding ◌>>=◌ or_type_error
  Ends-or_type_error none f s e k = type_errors e
  Ends-or_type_error (some (ok b)) f s e k = k b
  Ends-or_type_error (some (err x)) f s e k = raises e

  pub Ends-lifted :
      (r : Result A) (s : S) → E s → ((a : A) → r ≡ ok a → Q a s) → Ends E Q (lift r s)
  unfolding lift
  Ends-lifted r s e k = Ends-ran r e k

  -- A lookup that finds its key.
  pub Ends-or_key_error :
      {B : Type 0} (o : Option B) (f : B → Method S A) (s : S) {b : B}
      → o ≡ some b
      → Ends E Q (f b s)
      → Ends E Q ((or_key_error o >>= f) s)
  unfolding ◌>>=◌ or_key_error
  Ends-or_key_error o f s e h = rw e h

  pub Ends-at_part :
      {T B : Type 0} (get : S → T) (put : T → S → S) (m : Action T B) (f : B → Method S A) (s : S)
      → E (put (m (get s)).1 s)
      → ((b : B) → (m (get s)).0 ≡ ok b → Ends E Q (f b (put (m (get s)).1 s)))
      → Ends E Q ((at_part get put m >>= f) s)
  unfolding ◌>>=◌ at_part
  Ends-at_part get put m f s e k =
      Ends-then {Q = λ b t. ((m (get s)).0 ≡ ok b) × (t ≡ put (m (get s)).1 s)} f
        (Ends-ran (m (get s)).0 e (λ b h. (h, refl))) λ b t h. rw h.1 (k b h.0)
