-- ===== src/VoterSet/Valid.antt =====
-- `VoterSet::new`: which distributions make a voter set, and what the set holds.
use finality_grandpa.Base.{
  ℕ, zero, suc, ◌+◌, ◌-◌, ◌/◌, ◌≤◌, ◌<◌, ◌≡◌, refl, sym, ◌∙◌, ap, ◌⊎◌, inl, inr, none, some, ok,
  arith, List, [], ◌∷◌, Ord, get_elem?-lt, length, ◌%◌, get_elem?, get_elem?,
}
use native.Mathlib.Nat.{mod-lt}
use finality_grandpa.Base.BTreeMap
use finality_grandpa.Base.BTreeMap.{BTreeMap, IsSorted, Above, get_head}
use finality_grandpa.Weights.{u64_max}
use finality_grandpa.VoterSet.{
  VoterInfo, VoterSet, threshold_of, enumerate, finish, finish_some, new, get, nth, nth_mod,
}
use finality_grandpa.VoterSet.Threshold.{threshold_of_eq}
use finality_grandpa.VoterSet.Tally.{
  IsTally, add_all_start, info_of-pos, sum, weight_of, weight_or_zero, weight_or_zero-info_of,
  weights,
}

module _ {ℓ} {VoterId : Type ℓ} where
  pub weights-enumerate :
      (i : ℕ) (m : BTreeMap VoterId VoterInfo) → weights (enumerate i m) ≡ weights m
  unfolding enumerate
  weights-enumerate i [] = refl
  weights-enumerate i ((id, v) ∷ m) = omega (arith, weights-enumerate (suc i) m)

  pub position-enumerate :
      (i n : ℕ) (m : BTreeMap VoterId VoterInfo) (id : VoterId) (v : VoterInfo)
      → get_elem? (enumerate i m) n ≡ some (id, v)
      → v.position ≡ i + n
  unfolding enumerate
  position-enumerate i n [] id v e = cc
  position-enumerate i zero ((j, w) ∷ m) id v e = ground arith
  position-enumerate i (suc n) ((j, w) ∷ m) id v e =
      omega (arith, position-enumerate (suc i) n m id v e)

module _ {ℓ} {VoterId : Type ℓ} ⦃o : Ord VoterId⦄ where
  nonempty : (m : List (VoterId × VoterInfo)) → 0 < weights m → 0 < length m
  nonempty [] h = h
  nonempty (v ∷ m) h = omega arith

  Above-enumerate :
      (k : VoterId) (i : ℕ) (m : BTreeMap VoterId VoterInfo) → Above k m → Above k (enumerate i m)
  unfolding enumerate
  Above-enumerate k i [] a = tt
  Above-enumerate k i ((id, v) ∷ m) a = (a.0, Above-enumerate k (suc i) m a.1)

  enumerate-IsSorted :
      (i : ℕ) (m : BTreeMap VoterId VoterInfo) → IsSorted m → IsSorted (enumerate i m)
  unfolding enumerate
  enumerate-IsSorted i [] s = tt
  enumerate-IsSorted i ((id, v) ∷ m) s =
      (Above-enumerate id (suc i) m s.0, enumerate-IsSorted (suc i) m s.1)

  weight-get-enumerate :
      (i : ℕ) (m : BTreeMap VoterId VoterInfo) (j : VoterId)
      → weight_or_zero (BTreeMap.get (enumerate i m) j) ≡ weight_or_zero (BTreeMap.get m j)
  unfolding enumerate BTreeMap.get
  weight-get-enumerate i [] j = refl
  weight-get-enumerate i ((id, v) ∷ m) j = ground (arith, weight-get-enumerate (suc i) m j)

  -- What `VoterSet::new` promises of a set.
  pub record IsValid (vs : VoterSet VoterId) : Type ℓ where
    pub sorted : IsSorted vs.voters
    pub placed :
        (n : ℕ) (id : VoterId) (v : VoterInfo)
        → get_elem? vs.voters n ≡ some (id, v)
        → v.position ≡ n
    pub summed : weights vs.voters ≡ vs.total_weight
    pub positive : 0 < vs.total_weight
    pub bounded : vs.total_weight ≤ u64_max
    pub supermajority : threshold_of vs.total_weight ≡ ok vs.threshold

  -- The set holds the weights `f`, by id.
  abbrev pub Holds : (VoterId → ℕ) → ℕ → VoterSet VoterId → Type ℓ
  Holds f total vs =
      IsValid vs × (vs.total_weight ≡ total) × ((j : VoterId) → weight_or_zero (get vs j) ≡ f j)

  finish_lem :
      (f : VoterId → ℕ) (m : BTreeMap VoterId VoterInfo) (total : ℕ)
      → IsTally f m total
      → ((total ≡ 0) × (finish m total ≡ ok none))
        ⊎ ((vs : VoterSet VoterId) × (finish m total ≡ ok (some vs)) × Holds f total vs)
  unfolding finish get
  finish_lem f [] total t = inl (sym t.summed, refl)
  finish_lem f ((id, v) ∷ m) zero t =
      absurd
        (omega (arith, info_of-pos (f id) {v = v} (sym (t.entries id) ∙ get_head id v m), t.summed))
  finish_lem f ((id, v) ∷ m) (suc n) t = inr (
    record {
      voters = enumerate 0 ((id, v) ∷ m);
      threshold = suc n - (suc n - 1) / 3;
      total_weight = suc n;
    },
    ground (arith, threshold_of_eq (suc n)),
    (
      record {
        sorted = enumerate-IsSorted 0 ((id, v) ∷ m) t.sorted;
        placed = λ k j w e. position-enumerate 0 k ((id, v) ∷ m) j w e ∙ omega arith;
        summed = weights-enumerate 0 ((id, v) ∷ m) ∙ t.summed;
        positive = omega arith;
        bounded = t.bounded;
        supermajority = threshold_of_eq (suc n) (omega arith);
      },
      refl,
      λ j.
          weight-get-enumerate 0 ((id, v) ∷ m) j
          ∙ ap weight_or_zero (t.entries j)
          ∙ weight_or_zero-info_of (f j),
    ),
  )

  -- A distribution makes a voter set exactly if its total is positive and fits 64 bits. The set is
  -- valid, holds that total, and holds for each id the sum of the weights given to it.
  pub new_lem :
      (ws : List (VoterId × ℕ))
      → (((sum ws ≡ 0) ⊎ (u64_max < sum ws)) × (new ws ≡ ok none))
        ⊎ ((vs : VoterSet VoterId) × (new ws ≡ ok (some vs)) × Holds (weight_of ws) (sum ws) vs)
  unfolding new finish_some
  new_lem ws = elim (add_all_start ws) [
    | inl (big, e) ↦ inl (inr big, rw e)
    | inr (m, e, t) ↦ elim (finish_lem _ m _ t) [
      | inl (nothing, e') ↦ inl (inl nothing, rw e e')
      | inr (vs, e', h) ↦ inr (vs, rw e e', h)
    ]
  ]

  -- On a valid set `nth_mod` finds a voter for every number, in the place `n % len`, where the voter
  -- has that position.
  pub nth_mod_lem :
      (vs : VoterSet VoterId) (n : ℕ)
      → IsValid vs
      → (id : VoterId) × (v : VoterInfo) × (nth_mod vs n ≡ ok (id, v))
        × (get_elem? vs.voters (n % length vs.voters) ≡ some (id, v))
        × (v.position ≡ n % length vs.voters)
  unfolding nth_mod nth
  nth_mod_lem vs n h =
      let ((id, v), e) =
        get_elem?-lt vs.voters (n % length vs.voters)
          (mod-lt n (nonempty vs.voters (omega arith))) in
      (id, v, rw (e, nth), e, h.placed _ id v e)
