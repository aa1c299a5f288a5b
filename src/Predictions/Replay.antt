-- ===== src/Predictions/Replay.antt =====
-- prediction_join.py: decisions in a row over one stream.
use itch_lab.Base.{
  ◌≡◌, refl, sym, ◌∙◌, ap, ap₂, ◌≤◌, inl, inr, ℕ, Bool, true, false, Option, none, some, List, [],
  ◌∷◌, ◌++◌, map, arith, ltb, if◌then◌else◌,
}
use itch_lab.Base.Result.{ok, err, Result-cases}
use itch_lab.Base.Action.{Action, ◌>>=◌, pure}
use itch_lab.Errors.{SimulationError}
use itch_lab.Predictions.{SignalPrediction, PredictionSelection, CausalPredictionJoin}
use itch_lab.Predictions.Scan.{
  examine, Scanned, restored, advanced, selected, validate_decision, goes_back, conclude, select,
}
use itch_lab.Predictions.Causal.{
  walk, scan-walk, stream, scanned, select_refused, select_ran, select-answer,
}

module _ {Score : Type 0} where
  -- The latest prediction at or before a message, in a stream that follows `latest`.
  unfoldable pub as_of :
      ℕ
      → Option (SignalPrediction Score)
      → List (SignalPrediction Score)
      → Option (SignalPrediction Score)
  as_of i latest [] = latest
  as_of i latest (p ∷ ps) = if ltb i p.key.message_index then latest else as_of i (some p) ps

  -- The predictions that come after it.
  unfoldable pub beyond : ℕ → List (SignalPrediction Score) → List (SignalPrediction Score)
  beyond i [] = []
  beyond i (p ∷ ps) = if ltb i p.key.message_index then p ∷ ps else beyond i ps

  -- What is found from a later point on is what is found from the start.
  as_of-as_of :
      (i k : ℕ) (latest : Option (SignalPrediction Score)) (ps : List (SignalPrediction Score))
      → i ≤ k
      → as_of k (as_of i latest ps) (beyond i ps) ≡ as_of k latest ps
  unfolding as_of beyond
  as_of-as_of i k latest [] h = refl
  as_of-as_of i k latest (p ∷ ps) h = ground (arith, as_of-as_of i k (some p) ps h)

  beyond-beyond :
      (i k : ℕ) (ps : List (SignalPrediction Score)) → i ≤ k → beyond k (beyond i ps) ≡ beyond k ps
  unfolding beyond
  beyond-beyond i k [] h = refl
  beyond-beyond i k (p ∷ ps) h = ground (arith, beyond-beyond i k ps h)

module _ {Score : Type 0} (bounded : Score → Bool) (zero_score : Score) where
  examine_false :
      (j : CausalPredictionJoin Score) (i t : ℕ) (latest : Option (SignalPrediction Score))
      (p : SignalPrediction Score) (b : Bool)
      → examine bounded zero_score j i t latest p ≡ ok b
      → ltb i p.key.message_index ≡ b
  unfolding examine
  examine_false j i t latest p b h = ground (arith, h)

  walk-as_of :
      (j : CausalPredictionJoin Score) (i t : ℕ) (latest l : Option (SignalPrediction Score))
      (ps rest : List (SignalPrediction Score))
      → walk bounded zero_score j i t latest ps ≡ ok (l, rest)
      → (l ≡ as_of i latest ps) × (rest ≡ beyond i ps)
  unfolding walk as_of beyond
  walk-as_of j i t latest l [] rest h = ground (arith, h)
  walk-as_of j i t latest l (p ∷ ps) rest h =
      elim (Result-cases (examine bounded zero_score j i t latest p)) [
        | inr (x, e) ↦ absurd (ground (arith, h, e))
        | inl (true, e) ↦ ground (arith, h, e, examine_false j i t latest p true e)
        | inl (false, e) ↦
            ground (
              arith,
              h,
              e,
              examine_false j i t latest p false e,
              walk-as_of j i t (some p) l ps rest,
            )
      ]

  -- How a decision that was answered has moved the join.
  pub record Moved (i t : ℕ) (j j' : CausalPredictionJoin Score) : Type 0 where
    pub latest : j'.latest ≡ as_of i j.latest (stream bounded zero_score j)
    pub rest : stream bounded zero_score j' ≡ beyond i (stream bounded zero_score j)
    pub index : j'.last_decision_message_index ≡ some i
    pub time : j'.last_decision_timestamp_ns ≡ some t
    pub symbol : j'.symbol_id ≡ j.symbol_id
    pub age : j'.max_prediction_age_ns ≡ j.max_prediction_age_ns
    pub forward : goes_back bounded zero_score i t j ≡ false

  -- The state of the join once the selection is made.
  selected_moved :
      (i t : ℕ) (latest : Option (SignalPrediction Score)) (j : CausalPredictionJoin Score)
      → let k = (selected bounded zero_score i t latest j).1 in
        (k.latest ≡ j.latest)
        × (k.buffer ≡ j.buffer)
        × (k.source ≡ j.source)
        × (k.last_decision_message_index ≡ j.last_decision_message_index)
        × (k.last_decision_timestamp_ns ≡ j.last_decision_timestamp_ns)
        × (k.symbol_id ≡ j.symbol_id)
        × (k.max_prediction_age_ns ≡ j.max_prediction_age_ns)
  unfolding selected
  selected_moved i t none j = ground arith
  selected_moved i t (some p) j = ground arith

  conclude_moved :
      (i t : ℕ) (r : Scanned bounded zero_score) (j : CausalPredictionJoin Score)
      (s : PredictionSelection Score)
      → (conclude bounded zero_score i t r j).0 ≡ ok s
      → (f : Option (SignalPrediction Score)) × (r.outcome ≡ ok f)
        × ((conclude bounded zero_score i t r j) ≡ (
            let (a, k) =
              selected bounded zero_score i t r.latest (advanced bounded zero_score r f i t j) in
            (ok a, k)))
  unfolding conclude
  conclude_moved i t r j s h = elim (Result-cases r.outcome) [
    | inr (x, e) ↦ absurd (ground (arith, h, e))
    | inl (f, e) ↦ (f, e, ground (arith, e))
  ]

  decision_forward :
      (i t : ℕ) (j : CausalPredictionJoin Score) (u : Unit {0})
      → validate_decision bounded zero_score i t j ≡ ok u
      → goes_back bounded zero_score i t j ≡ false
  unfolding validate_decision
  decision_forward i t j u h = ground (arith, h)

  ran-Moved :
      (i t : ℕ) (j : CausalPredictionJoin Score) (u : Unit {0}) (s : PredictionSelection Score)
      → validate_decision bounded zero_score i t j ≡ ok u
      → (select bounded zero_score i t j).0 ≡ ok s
      → Moved i t j (select bounded zero_score i t j).1
        × (s
            ≡ (selected bounded zero_score i t
                (as_of i j.latest (stream bounded zero_score j))
                j).0)
  ran-Moved i t j u s v h =
      let r = scanned bounded zero_score i t j in
      let g = select_ran bounded zero_score i t j u v in
      let (f, e, c) = conclude_moved i t r j s (rw g at h) in
      let w = (scan-walk bounded zero_score j i t j.latest [] j.buffer j.source).1 in
      let a : walk bounded zero_score j i t j.latest (stream bounded zero_score j)
          ≡ ok (r.latest, restored bounded zero_score f r.buffer ++ r.source) =
        sym w ∙ (ground (arith, e)) in
      let (l, b) =
        walk-as_of j i t j.latest r.latest (stream bounded zero_score j)
          (restored bounded zero_score f r.buffer ++ r.source) a in
      let m = selected_moved i t r.latest (advanced bounded zero_score r f i t j) in
      (
        rw g (
            rw c (record {
              latest = m.0 ∙ l;
              rest = ground (arith, m, b);
              index = m.3;
              time = m.4;
              symbol = m.5;
              age = m.6;
              forward = decision_forward i t j u v;
            })),
        ground (arith, h, select-answer bounded zero_score i t j u v, a, l),
      )

  refused_none :
      (i t : ℕ) (j : CausalPredictionJoin Score) (x : SimulationError)
      (s : PredictionSelection Score)
      → validate_decision bounded zero_score i t j ≡ err x
      → (select bounded zero_score i t j).0 ≡ ok s
      → ⊥
  refused_none i t j x s v h = ground (arith, h, select_refused bounded zero_score i t j x v)

  select-Moved :
      (i t : ℕ) (j : CausalPredictionJoin Score) (s : PredictionSelection Score)
      → (select bounded zero_score i t j).0 ≡ ok s
      → Moved i t j (select bounded zero_score i t j).1
        × (s
            ≡ (selected bounded zero_score i t
                (as_of i j.latest (stream bounded zero_score j))
                j).0)
  select-Moved i t j s h = elim (Result-cases (validate_decision bounded zero_score i t j)) [
    | inr (x, v) ↦ absurd (refused_none i t j x s v h)
    | inl (u, v) ↦ ran-Moved i t j u s v h
  ]

  -- Decisions one after the other, up to the first that raises.
  unfoldable pub decide :
      List (ℕ × ℕ) → Action (CausalPredictionJoin Score) (List (PredictionSelection Score))
  decide [] = pure []
  decide ((i, t) ∷ ds) = do s ← select bounded zero_score i t; ss ← decide ds; pure (s ∷ ss)

  -- What a decision selects from the whole stream.
  pub selection_from : CausalPredictionJoin Score → ℕ × ℕ → PredictionSelection Score
  selection_from j (i, t) =
      (selected bounded zero_score i t (as_of i j.latest (stream bounded zero_score j)) j).0

  -- A later state of the join finds what the first one finds.
  record Follows (j k : CausalPredictionJoin Score) : Type 0 where
    symbol : k.symbol_id ≡ j.symbol_id
    age : k.max_prediction_age_ns ≡ j.max_prediction_age_ns
    place :
        (i t : ℕ)
        → goes_back bounded zero_score i t k ≡ false
        → as_of i k.latest (stream bounded zero_score k)
          ≡ as_of i j.latest (stream bounded zero_score j)

  Moved-Follows :
      (j k k' : CausalPredictionJoin Score) (i t : ℕ) → Follows j k → Moved i t k k' → Follows j k'
  Moved-Follows j k k' i t f m = record {
    symbol = m.symbol ∙ f.symbol;
    age = m.age ∙ f.age;
    place = λ n u b.
        let le : i ≤ n = ground (arith, b, m.index, m.time) in
        ap₂ (as_of n) m.latest m.rest
        ∙ as_of-as_of i n k.latest (stream bounded zero_score k) le
        ∙ f.place n t (ground (arith, m.forward, le));
  }

  same_selection :
      (j k : CausalPredictionJoin Score) (i t : ℕ) (latest : Option (SignalPrediction Score))
      → k.symbol_id ≡ j.symbol_id
      → k.max_prediction_age_ns ≡ j.max_prediction_age_ns
      → (selected bounded zero_score i t latest k).0 ≡ (selected bounded zero_score i t latest j).0
  unfolding selected
  same_selection j k i t none e f = ground (arith, e, f)
  same_selection j k i t (some p) e f = ground (arith, e, f)

  decide_step :
      (i t : ℕ) (ds : List (ℕ × ℕ)) (k : CausalPredictionJoin Score)
      (ss : List (PredictionSelection Score))
      → (decide ((i, t) ∷ ds) k).0 ≡ ok ss
      → (s : PredictionSelection Score) × ((rest : List (PredictionSelection Score)) × ((select
              bounded zero_score i t k).0
            ≡ ok s)
          × ((decide ds (select bounded zero_score i t k).1).0 ≡ ok rest)
          × (ss ≡ s ∷ rest))
  unfolding decide
  decide_step i t ds k ss h = elim (Result-cases (select bounded zero_score i t k).0) [
    | inr (x, e) ↦ absurd (ground (arith, h, e))
    | inl (s, e) ↦ elim (Result-cases (decide ds (select bounded zero_score i t k).1).0) [
      | inr (x, g) ↦ absurd (ground (arith, h, e, g))
      | inl (rest, g) ↦ (s, (rest, e, g, ground (arith, h, e, g)))
    ]
  ]

  decide_from :
      (ds : List (ℕ × ℕ)) (j k : CausalPredictionJoin Score) (ss : List (PredictionSelection Score))
      → Follows j k
      → (decide ds k).0 ≡ ok ss
      → ss ≡ map (selection_from j) ds
  unfolding selection_from
  decide_from [] j k ss f h = unfold decide in ground (arith, h)
  decide_from ((i, t) ∷ ds) j k ss f h =
      let (s, (rest, e, g, c)) = decide_step i t ds k ss h in
      let (m, q) = select-Moved i t k s e in
      c
      ∙ ap₂ ◌∷◌
          (q
            ∙ ap (λ l. (selected bounded zero_score i t l k).0) (f.place i t m.forward)
            ∙ same_selection j k i t (as_of i j.latest (stream bounded zero_score j)) f.symbol
                f.age)
          (decide_from ds j (select bounded zero_score i t k).1 rest (Moved-Follows j k _ i t f m)
            g)

  -- Decisions that are answered one after the other over the shared stream are answered each as the
  -- whole stream answers it: by the latest prediction at or before it, and by its age.
  pub decide-selection_from :
      (ds : List (ℕ × ℕ)) (j : CausalPredictionJoin Score) (ss : List (PredictionSelection Score))
      → (decide ds j).0 ≡ ok ss
      → ss ≡ map (selection_from j) ds
  decide-selection_from ds j ss h =
      decide_from ds j j ss (record { symbol = refl; age = refl; place = λ i t _. refl }) h
