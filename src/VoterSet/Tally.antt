-- ===== src/VoterSet/Tally.antt =====
-- The loop of `VoterSet::new` against a tally of the weights by id.
use Prim.Native.Nat.Ordering.{eq}
use finality_grandpa.Base.{
  ℕ, zero, suc, ◌+◌, ◌≤◌, ◌<◌, ◌≡◌, refl, ◌∙◌, ap, ◌⊎◌, true, inl, inr, Option, none, some, ok,
  arith, List, [], ◌∷◌, Ord, Bool-cases, leb, leb→le,
}
use finality_grandpa.Base.BTreeMap
use finality_grandpa.Base.BTreeMap.{BTreeMap, IsSorted, get-insert, insert-IsSorted, get-Above}
use finality_grandpa.Weights.{u64_max}
use finality_grandpa.VoterSet.{VoterInfo, accumulate, add_all}

-- What a voter's entry holds before the positions are set: nothing for the weight 0.
abbrev pub info_of : ℕ → Option VoterInfo
info_of zero = none
info_of (suc n) = some (record { position = 0; weight = suc n })

abbrev pub weight_or_zero : Option VoterInfo → ℕ
weight_or_zero none = 0
weight_or_zero (some v) = v.weight

abbrev pub weights {ℓ} : {VoterId : Type ℓ} → List (VoterId × VoterInfo) → ℕ
weights [] = 0
weights ((id, v) ∷ m) = v.weight + weights m

pub weight_or_zero-info_of : (n : ℕ) → weight_or_zero (info_of n) ≡ n
weight_or_zero-info_of zero = refl
weight_or_zero-info_of (suc n) = refl

pub info_of-pos : (n : ℕ) {v : VoterInfo} → info_of n ≡ some v → 0 < v.weight
info_of-pos zero e = cc
info_of-pos (suc n) e = ground arith

-- The sum of all weights of a distribution.
abbrev pub sum {ℓ} : {VoterId : Type ℓ} → List (VoterId × ℕ) → ℕ
sum [] = 0
sum ((id, w) ∷ ws) = w + sum ws

module _ {ℓ} {VoterId : Type ℓ} ⦃o : Ord VoterId⦄ where
  abbrev pub weight_if : VoterId → VoterId → ℕ → ℕ
  weight_if j id w = elim (o.cmp j id) [ eq ↦ w | _ ↦ 0 ]

  -- The sum of the weights that a distribution gives to one id.
  abbrev pub weight_of : List (VoterId × ℕ) → VoterId → ℕ
  weight_of [] j = 0
  weight_of ((id, w) ∷ ws) j = weight_if j id w + weight_of ws j

  -- The map holds the weights `f`, and `total` is their sum.
  pub record IsTally (f : VoterId → ℕ) (m : BTreeMap VoterId VoterInfo) (total : ℕ) : Type ℓ where
    pub sorted : IsSorted m
    pub entries : (j : VoterId) → BTreeMap.get m j ≡ info_of (f j)
    pub summed : weights m ≡ total
    pub bounded : total ≤ u64_max

  weights-insert :
      (m : BTreeMap VoterId VoterInfo) (k : VoterId) (v : VoterInfo)
      → IsSorted m
      → weights (BTreeMap.insert m k v) + weight_or_zero (BTreeMap.get m k) ≡ weights m + v.weight
  unfolding BTreeMap.insert BTreeMap.get
  weights-insert [] k v s = omega arith
  weights-insert ((j, w) ∷ m) k v s =
      ground (arith, weights-insert m k v s.1, get-Above m k, BTreeMap.Above-trans k j m, s.0)

  pub weight-le-weights :
      (m : BTreeMap VoterId VoterInfo) (k : VoterId) → weight_or_zero (BTreeMap.get m k) ≤ weights m
  unfolding BTreeMap.get
  weight-le-weights [] k = omega arith
  weight-le-weights ((j, w) ∷ m) k = ground (arith, weight-le-weights m k)

  empty-get : (j : VoterId) → BTreeMap.get {V = VoterInfo} [] j ≡ none
  unfolding BTreeMap.get
  empty-get j = refl

  IsTally-cong :
      (f g : VoterId → ℕ) (m : BTreeMap VoterId VoterInfo) {total total' : ℕ}
      → IsTally f m total
      → ((j : VoterId) → f j ≡ g j)
      → total ≡ total'
      → IsTally g m total'
  IsTally-cong f g m t h e = record {
    sorted = t.sorted;
    entries = λ j. t.entries j ∙ ap info_of (h j);
    summed = t.summed ∙ e;
    bounded = rw (← e) t.bounded;
  }

  IsTally-insert :
      (f : VoterId → ℕ) (m : BTreeMap VoterId VoterInfo) (total : ℕ) (id : VoterId) (w : ℕ)
      → IsTally f m total
      → total + suc w ≤ u64_max
      → IsTally
          (λ j. weight_if j id (suc w) + f j)
          (BTreeMap.insert m id (record { position = 0; weight = suc (w + f id) }))
          (total + suc w)
  IsTally-insert f m total id w t fits = record {
    sorted = insert-IsSorted m id _ t.sorted;
    entries = λ j. ground (
      arith,
      get-insert m id j (record { position = 0; weight = suc (w + f id) }),
      t.entries j,
      o.cmp_eq j id,
    );
    summed =
        let prior : weight_or_zero (BTreeMap.get m id) ≡ f id =
          (ap weight_or_zero (t.entries id) ∙ weight_or_zero-info_of (f id)) in
        omega (
          arith,
          weights-insert m id (record { position = 0; weight = suc (w + f id) }) t.sorted,
          t.summed,
        );
    bounded = fits;
  }

  accumulate_at :
      (m : BTreeMap VoterId VoterInfo) (id : VoterId) (w n : ℕ)
      → BTreeMap.get m id ≡ info_of n
      → n + suc w ≤ u64_max
      → accumulate m id (suc w)
        ≡ ok (BTreeMap.insert m id (record { position = 0; weight = suc (w + n) }))
  unfolding accumulate
  accumulate_at m id w zero e fits = rw (e, accumulate) (ground arith)
  accumulate_at m id w (suc n) e fits = rw (e, accumulate) (ground arith)

  -- One round of the loop adds one weight to the tally, and the addition does not wrap.
  accumulate_lem :
      (f : VoterId → ℕ) (m : BTreeMap VoterId VoterInfo) (total : ℕ) (id : VoterId) (w : ℕ)
      → IsTally f m total
      → total + suc w ≤ u64_max
      → accumulate m id (suc w)
        ≡ ok (BTreeMap.insert m id (record { position = 0; weight = suc (w + f id) }))
  accumulate_lem f m total id w t fits =
      let prior : weight_or_zero (BTreeMap.get m id) ≡ f id =
        (ap weight_or_zero (t.entries id) ∙ weight_or_zero-info_of (f id)) in
      accumulate_at m id w (f id) (t.entries id) (omega (arith, weight-le-weights m id, t.summed))

  add_all_fits :
      (f : VoterId → ℕ) (m : BTreeMap VoterId VoterInfo) (total : ℕ) (id : VoterId) (w : ℕ)
      (ws : List (VoterId × ℕ))
      → IsTally f m total
      → leb (total + suc w) u64_max ≡ true
      → add_all ((id, suc w) ∷ ws) m total
        ≡ add_all ws
            (BTreeMap.insert m id (record { position = 0; weight = suc (w + f id) }))
            (total + suc w)
  unfolding add_all
  add_all_fits f m total id w ws t fits =
      rw (fits, add_all) (rw (accumulate_lem f m total id w t (leb→le _ _ fits)) refl)

  -- What the loop does from a tally: it stops at an overflow, or ends in the tally of all.
  abbrev pub LoopEnds : (VoterId → ℕ) → List (VoterId × ℕ) → BTreeMap VoterId VoterInfo → ℕ → Type ℓ
  LoopEnds f ws m total =
      ((u64_max < sum ws + total) × (add_all ws m total ≡ ok none))
      ⊎ ((m' : BTreeMap VoterId VoterInfo) × (add_all ws m total ≡ ok (some (m', sum ws + total)))
          × IsTally (λ j. weight_of ws j + f j) m' (sum ws + total))

  pub add_all_lem :
      (ws : List (VoterId × ℕ)) (f : VoterId → ℕ) (m : BTreeMap VoterId VoterInfo) (total : ℕ)
      → IsTally f m total
      → LoopEnds f ws m total
  unfolding add_all
  add_all_lem [] f m total t =
      inr (m, ground arith, IsTally-cong f _ m t (λ j. omega arith) (omega arith))
  add_all_lem ((id, zero) ∷ ws) f m total t = elim (add_all_lem ws f m total t) [
    | inl (big, e) ↦ inl (omega arith, e)
    | inr (m', e, t') ↦
        inr (m', ground arith, IsTally-cong _ _ m' t' (λ j. ground arith) (omega arith))
  ]
  add_all_lem ((id, suc w) ∷ ws) f m total t = elim (Bool-cases (leb (total + suc w) u64_max)) [
    | inl fits ↦ elim (add_all_lem ws _ _ _ (IsTally-insert f m total id w t (leb→le _ _ fits))) [
      | inl (big, e) ↦ inl (omega arith, (add_all_fits f m total id w ws t fits ∙ e))
      | inr (m', e, t') ↦ inr (
        m',
        add_all_fits f m total id w ws t fits ∙ ground (arith, e),
        IsTally-cong _ _ m' t' (λ j. ground arith) (omega arith),
      )
    ]
    | inr over ↦ inl (ground arith, rw (over, add_all))
  ]

  -- The loop of `VoterSet::new` from the empty map.
  pub add_all_start :
      (ws : List (VoterId × ℕ))
      → ((u64_max < sum ws) × (add_all ws [] 0 ≡ ok none))
        ⊎ ((m : BTreeMap VoterId VoterInfo) × (add_all ws [] 0 ≡ ok (some (m, sum ws)))
            × IsTally (weight_of ws) m (sum ws))
  add_all_start ws = elim (add_all_lem ws (λ _. 0) [] 0 empty) [
    | inl (big, e) ↦ inl (omega arith, e)
    | inr (m, e, t) ↦
        inr (m, ground (arith, e), IsTally-cong _ _ m t (λ j. omega arith) (omega arith))
  ]
    where
      empty : IsTally (λ _. 0) [] 0
      empty = record {
        sorted = tt;
        entries = λ j. empty-get j;
        summed = refl;
        bounded = omega arith;
      }
