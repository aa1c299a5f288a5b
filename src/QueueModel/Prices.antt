-- ===== src/QueueModel/Prices.antt =====
-- queue_model.py: the prices of one side of the visible book, in a heap that drops the prices
-- without a level when it is searched.
pub mod Push
pub mod Sides
pub mod Best
pub mod Resolver
use itch_lab.Base.{
  ◌≡◌, refl, ℕ, Bool, true, false, ◌||◌, Option, none, some, List, [], ◌∷◌, All, arith, eqb,
  eqb_iff, nat_eq, Bool-cases, inl, inr, if◌then◌else◌,
}
use itch_lab.Base.Int.{ℤ, pos, negsuc, neg, abs, ltb_ℤ, leb_ℤ, eqb_ℤ, eqb_ℤ_iff}
use itch_lab.Base.Dict.{Dict, contains}
use itch_lab.StateMachine.{Slot}
use itch_lab.QueueModel.Book.{
  LevelKey, level_eq, encode, has_price, push_price, remove_price, best_price,
}

-- `p in heap`
abbrev pub has : ℤ → List ℤ → Bool
has p [] = false
has p (q ∷ h) = eqb_ℤ q p || has p h

-- Each entry is below all later ones.
abbrev pub Ascending : List ℤ → Type 0
Ascending [] = Unit {0}
Ascending (p ∷ h) = All (λ q. ltb_ℤ p q ≡ true) h × Ascending h

-- No price stands twice.
abbrev pub Single : List ℕ → Type 0
Single [] = Unit {0}
Single (p ∷ ps) = (has_price p ps ≡ false) × Single ps

-- The entries are encoded prices of the side.
abbrev pub Encoded : ℤ → List ℤ → Type 0
Encoded side = All (λ p. encode side (abs p) ≡ p)

pub abs-encode : (side : ℤ) (p : ℕ) → abs (encode side p) ≡ p
abs-encode side p = ground arith

-- The heap and the set of prices of one side: they have the same prices, once each, and among them
-- those of all levels of the side.
pub record IsPriced (k : Slot) (levels : Dict LevelKey (Dict ℕ ℕ)) (h : List ℤ) (ps : List ℕ)
    : Type 0 where
  pub sorted : Ascending h
  pub encoded : Encoded k.1 h
  pub known : (p : ℕ) → has_price p ps ≡ has (encode k.1 p) h
  pub single : Single ps
  pub complete : (p : ℕ) → contains (k, p) levels ≡ true → has (encode k.1 p) h ≡ true

-- The entry of the lowest key is the first.
not_below :
    (p q : ℤ) (h : List ℤ) → All (λ r. ltb_ℤ q r ≡ true) h → eqb_ℤ q p ≡ true → has p h ≡ false
not_below p q [] a e = refl
not_below p q (r ∷ h) a e = ground (arith, a.0, eqb_ℤ_iff q p, eqb_ℤ_iff r p, not_below p q h a.1 e)

has_least :
    (p q : ℤ) (h : List ℤ) → All (λ r. ltb_ℤ q r ≡ true) h → has p (q ∷ h) ≡ true → leb_ℤ q p ≡ true
has_least p q [] a e = ground (arith, e, eqb_ℤ_iff q p)
has_least p q (r ∷ h) a e = ground (arith, e, a, eqb_ℤ_iff q p, eqb_ℤ_iff r p, has_least p q h a.1)

-- The prices without one of them.
unfoldable without_price : ℕ → List ℕ → List ℕ
without_price p [] = []
without_price p (q ∷ ps) = if eqb p q then ps else q ∷ without_price p ps

-- The removal of a price that the set has raises no KeyError.
remove_price_ok :
    (p : ℕ) (ps : List ℕ) → has_price p ps ≡ true → remove_price p ps ≡ some (without_price p ps)
unfolding remove_price without_price
remove_price_ok p [] h = absurd (cc)
remove_price_ok p (q ∷ ps) h = ground (arith, h, eqb_iff p q, eqb_iff q p, remove_price_ok p ps)

without_price_other :
    (p q : ℕ) (ps : List ℕ) → eqb p q ≡ false → has_price q (without_price p ps) ≡ has_price q ps
unfolding without_price
without_price_other p q [] e = refl
without_price_other p q (r ∷ ps) e = ground (arith, without_price_other p q ps e)

without_price_self : (p : ℕ) (ps : List ℕ) → Single ps → has_price p (without_price p ps) ≡ false
unfolding without_price
without_price_self p [] s = refl
without_price_self p (r ∷ ps) s = ground (arith, s.0, without_price_self p ps s.1)

without_price-Single : (p : ℕ) (ps : List ℕ) → Single ps → Single (without_price p ps)
unfolding without_price
without_price-Single p [] s = tt
without_price-Single p (r ∷ ps) s =
    ground (arith, s, without_price-Single p ps s.1, without_price_other p r ps)

-- What the side offers: no price if it has no level, and otherwise a level's price before which none
-- comes in the order of the side.
abbrev pub IsBest : Slot → Dict LevelKey (Dict ℕ ℕ) → Option ℕ → Type 0
IsBest k levels none = (p : ℕ) → contains (k, p) levels ≡ false
IsBest k levels (some p) =
    (contains (k, p) levels ≡ true)
    × ((q : ℕ) → contains (k, q) levels ≡ true → leb_ℤ (encode k.1 p) (encode k.1 q) ≡ true)

-- The search found it, and raised no KeyError.
abbrev pub FoundBest : Slot → Dict LevelKey (Dict ℕ ℕ) → Option (Option ℕ) → Type 0
FoundBest k levels none = ⊥
FoundBest k levels (some best) = IsBest k levels best

module _ (k : Slot) (levels : Dict LevelKey (Dict ℕ ℕ)) where
  -- A price without a level leaves the heap and the set.
  pop-known :
      (p : ℤ) (h : List ℤ) (ps : List ℕ) (v : IsPriced k levels (p ∷ h) ps) (q : ℕ)
      → has_price q (without_price (abs p) ps) ≡ has (encode k.1 q) h
  pop-known p h ps v q = elim (Bool-cases (eqb (abs p) q)) [
    | inl same ↦ ground (
      arith,
      same,
      without_price_self (abs p) ps v.single,
      v.encoded.0,
      not_below (encode k.1 q) p h v.sorted.0
          (ground (arith, same, v.encoded.0, eqb_ℤ_iff p (encode k.1 q))),
    )
    | inr other ↦ ground (
      arith,
      without_price_other (abs p) q ps other,
      v.known q,
      other,
      abs-encode k.1 q,
      eqb_ℤ_iff p (encode k.1 q),
    )
  ]

  pop-IsPriced :
      (p : ℤ) (h : List ℤ) (ps : List ℕ)
      → IsPriced k levels (p ∷ h) ps
      → contains (k, abs p) levels ≡ false
      → IsPriced k levels h (without_price (abs p) ps)
  pop-IsPriced p h ps v gone = record {
    sorted = v.sorted.1;
    encoded = v.encoded.1;
    known = pop-known p h ps v;
    single = without_price-Single (abs p) ps v.single;
    complete = λ q c.
        ground (arith, v.complete q c, gone, c, abs-encode k.1 q, eqb_ℤ_iff p (encode k.1 q));
  }

  first-IsBest :
      (p : ℤ) (h : List ℤ) (ps : List ℕ)
      → IsPriced k levels (p ∷ h) ps
      → contains (k, abs p) levels ≡ true
      → IsBest k levels (some (abs p))
  first-IsBest p h ps v c = (
    c,
    λ q d. ground (arith, v.encoded.0, has_least (encode k.1 q) p h v.sorted.0 (v.complete q d)),
  )

  -- The price that is popped is in the set.
  popped :
      (p : ℤ) (h : List ℤ) (ps : List ℕ)
      → IsPriced k levels (p ∷ h) ps
      → remove_price (abs p) ps ≡ some (without_price (abs p) ps)
  popped p h ps v =
      remove_price_ok (abs p) ps
        (ground (arith, v.known (abs p), v.encoded.0, eqb_ℤ_iff p (encode k.1 (abs p))))

  -- The search finds the best price, raises no KeyError, and leaves the prices from it on.
  pub best_price-IsBest :
      (h : List ℤ) (ps : List ℕ)
      → IsPriced k levels h ps
      → let r = best_price k levels h ps in FoundBest k levels r.0 × IsPriced k levels r.1 r.2
  unfolding best_price
  best_price-IsBest [] ps v = (λ p. ground (arith, v.complete p), v)
  best_price-IsBest (p ∷ h) ps v = elim (Bool-cases (contains (k, abs p) levels)) [
    | inl c ↦ rw c (first-IsBest p h ps v c, v)
    | inr c ↦
        rw (c, popped p h ps v)
          (best_price-IsBest h (without_price (abs p) ps) (pop-IsPriced p h ps v c))
  ]
