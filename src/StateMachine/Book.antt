-- ===== src/StateMachine/Book.antt =====
-- state_machine.py: the orders and the occupied slots agree. Each live order holds the slot of its
-- symbol and side, and each slot is held by a live order, so a slot has one live order at most.
use itch_lab.Base.{
  ◌≡◌, subst, [], ℕ, true, false, none, some, inl, inr, Bool-cases, nat_eq, arith, ◌==◌,
}
use itch_lab.Base.Dict.{Dict, lookup, insert, erase, lookup-insert, lookup-erase}
use itch_lab.Order.{SimulatedOrder, terminal}
use itch_lab.Order.Validity.{IsValid}
use itch_lab.StateMachine.{Slot, slot_eq, slot_of, eqb_slot, eqb_slot_iff}

pub record IsBook (os : Dict ℕ SimulatedOrder) (sl : Dict Slot ℕ) : Type 0 where
  pub keyed : (id : ℕ) (o : SimulatedOrder) → lookup id os ≡ some o → o.simulated_order_id ≡ id
  pub valid : (id : ℕ) (o : SimulatedOrder) → lookup id os ≡ some o → IsValid o
  pub holds :
      (id : ℕ) (o : SimulatedOrder)
      → lookup id os ≡ some o
      → terminal o ≡ false
      → lookup (slot_of o) sl ≡ some id
  pub owner :
      (slot : Slot) (id : ℕ)
      → lookup slot sl ≡ some id
      → (o : SimulatedOrder) × (lookup id os ≡ some o) × (terminal o ≡ false) × (slot_of o ≡ slot)

pub empty-IsBook : IsBook [] []
unfolding lookup
empty-IsBook = record {
  keyed = λ id o e. cc;
  valid = λ id o e. absurd (cc);
  holds = λ id o e l. cc;
  owner = λ slot id e. absurd (cc);
}

module _ {os : Dict ℕ SimulatedOrder} {sl : Dict Slot ℕ} (b : IsBook os sl) (id : ℕ)
    (a : SimulatedOrder) (v : IsValid a) (k : a.simulated_order_id ≡ id) where
  keyed-insert :
      (j : ℕ) (p : SimulatedOrder) → lookup j (insert id a os) ≡ some p → p.simulated_order_id ≡ j
  keyed-insert j p e = ground (arith, lookup-insert id j a os, b.keyed j p)

  IsValid-insert : (j : ℕ) (p : SimulatedOrder) → lookup j (insert id a os) ≡ some p → IsValid p
  IsValid-insert j p e = elim (Bool-cases (id == j)) [
    | inl same ↦ subst IsValid (ground (arith, lookup-insert id j a os)) v
    | inr other ↦ b.valid j p (ground (arith, lookup-insert id j a os))
  ]

  -- A live order replaces the live order of its identifier and slot.
  pub update-IsBook :
      (o : SimulatedOrder)
      → lookup id os ≡ some o
      → terminal o ≡ false
      → slot_of a ≡ slot_of o
      → terminal a ≡ false
      → IsBook (insert id a os) sl
  update-IsBook o e live slot still = record {
    keyed = keyed-insert;
    valid = IsValid-insert;
    holds =
        λ j p f l. ground (arith, lookup-insert id j a os, b.holds j p, b.holds id o e live, slot);
    owner = λ t j f.
        let (p, g, l, s) = b.owner t j f in
        elim (Bool-cases (id == j)) [
          | inl same ↦ (a, ground (arith, lookup-insert id j a os), still, ground arith)
          | inr other ↦ (p, ground (arith, lookup-insert id j a os, g), l, s)
        ];
  }

  -- A finished order replaces the live order of its identifier, and gives up the slot.
  pub finish-IsBook :
      (o : SimulatedOrder)
      → lookup id os ≡ some o
      → terminal o ≡ false
      → slot_of a ≡ slot_of o
      → terminal a ≡ true
      → IsBook (insert id a os) (erase (slot_of a) sl)
  finish-IsBook o e live slot done = record {
    keyed = keyed-insert;
    valid = IsValid-insert;
    holds = λ j p f l. ground (
      arith,
      lookup-insert id j a os,
      lookup-erase (slot_of a) (slot_of p) sl,
      eqb_slot_iff (slot_of a) (slot_of p),
      b.holds j p,
      b.holds id o e live,
      slot,
    );
    owner = λ t j f.
        let held : lookup t sl ≡ some j = ground (arith, lookup-erase (slot_of a) t sl) in
        let (p, g, l, s) = b.owner t j held in
        (
          p,
          ground (
            arith,
            lookup-insert id j a os,
            lookup-erase (slot_of a) t sl,
            eqb_slot_iff (slot_of a) t,
            g,
            s,
            slot,
          ),
          l,
          s,
        );
  }

  -- A new live order takes a free slot.
  pub new-IsBook :
      lookup id os ≡ none
      → lookup (slot_of a) sl ≡ none
      → terminal a ≡ false
      → IsBook (insert id a os) (insert (slot_of a) id sl)
  new-IsBook fresh free live = record {
    keyed = keyed-insert;
    valid = IsValid-insert;
    holds = λ j p f l. ground (
      arith,
      lookup-insert id j a os,
      lookup-insert (slot_of a) (slot_of p) id sl,
      eqb_slot_iff (slot_of a) (slot_of p),
      b.holds j p,
      free,
    );
    owner = λ t j f. elim (Bool-cases (eqb_slot (slot_of a) t)) [
      | inl same ↦ (
        a,
        ground (arith, lookup-insert id j a os, lookup-insert (slot_of a) t id sl),
        live,
        (eqb_slot_iff (slot_of a) t).0 same,
      )
      | inr other ↦
          let held : lookup t sl ≡ some j = ground (arith, lookup-insert (slot_of a) t id sl) in
          let (p, g, l, s) = b.owner t j held in
          (p, ground (arith, lookup-insert id j a os, g, fresh), l, s)
    ];
  }
