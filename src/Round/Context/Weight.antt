-- ===== src/Round/Context/Weight.antt =====
-- The weight of a vote-node as a sum over the voters.
use finality_grandpa.Base.{
  ℕ, zero, suc, ◌+◌, ◌*◌, ◌/◌, ◌≤◌, min, ◌≡◌, refl, ap, ◌∙◌, sym, Bool, ◌||◌, none, some, List, [],
  ◌∷◌, length, get_elem?, keep, arith, if◌then◌else◌, Ord, Bool-cases, inl, inr,
}
use native.Mathlib.Nat.{zero-add}
use finality_grandpa.Weights.{u64_max}
use finality_grandpa.VoterSet.{VoterSet, VoterInfo}
use finality_grandpa.VoterSet.Tally.{weights}
use finality_grandpa.VoterSet.Valid.{IsValid}
use finality_grandpa.Bitfield.{Bitfield, Bit1, test_bit, merge, is_blank, iter1s_even, iter1s_odd}
use finality_grandpa.Bitfield.Write.{test_bit-merge, test_bit_beyond, test_bit-is_blank}
use finality_grandpa.Bitfield.Iter.{every_other, positions, iter1s_lem}
use finality_grandpa.Bitfield.Merged.{iter1s_merged_even-merge, iter1s_merged_odd-merge}
use finality_grandpa.Round.Context.{
  Context, VoteNode, Phase, weight, weight_from, weighed_bits, equivocation_weight,
}

cons≢nil {ℓ} : {A : Type ℓ} (x : A) (xs : List A) → x ∷ xs ≡ [] → ⊥
cons≢nil x xs e = cc

cons-injective {ℓ} : {A : Type ℓ} {x y : A} {xs ys : List A} → x ∷ xs ≡ y ∷ ys → (x ≡ y) × (xs ≡ ys)
cons-injective e = (cc, cc)

-- Whether a bitfield of votes has the vote of the voter in a place, in a phase.
abbrev pub has_vote : Bitfield → Phase → ℕ → Bool
has_vote b Phase.prevote i = test_bit b (i * 2)
has_vote b Phase.precommit i = test_bit b (i * 2 + 1)

-- `h j + h (j + 1) + ...`, `n` of them.
unfoldable pub sum_from : (ℕ → ℕ) → ℕ → ℕ → ℕ
sum_from h j zero = 0
sum_from h j (suc n) = h j + sum_from h (suc j) n

sum_from-zeros : (h : ℕ → ℕ) (n j : ℕ) → ((k : ℕ) → j ≤ k → h k ≡ 0) → sum_from h j n ≡ 0
unfolding sum_from
sum_from-zeros h zero j z = refl
sum_from-zeros h (suc n) j z =
    omega (arith, z j (omega arith), sum_from-zeros h n (suc j) (λ k l. z k (omega arith)))

-- Terms that are 0 can be added at the end.
sum_from-extend :
    (h : ℕ → ℕ) (m n j : ℕ)
    → ((k : ℕ) → j + m ≤ k → h k ≡ 0)
    → sum_from h j (m + n) ≡ sum_from h j m
unfolding sum_from
sum_from-extend h zero n j z =
    let e : zero + n ≡ n = omega arith in rw e (sum_from-zeros h n j (λ k l. z k (omega arith)))
sum_from-extend h (suc m) n j z =
    let e : suc m + n ≡ suc (m + n) = omega arith in
    rw e (ap (λ (t : ℕ). h j + t) (sum_from-extend h m n (suc j) (λ k l. z k (omega arith))))

module _ {ℓ} {VoterId : Type ℓ} where
  -- The sum of the weights of the voters whose position passes the test.
  abbrev pub supporting : (ℕ → Bool) → List (VoterId × VoterInfo) → ℕ
  supporting test [] = 0
  supporting test ((id, v) ∷ m) = (if test v.position then v.weight else 0) + supporting test m

  pub supporting-le :
      (test : ℕ → Bool) (m : List (VoterId × VoterInfo)) → supporting test m ≤ weights m
  supporting-le test [] = omega arith
  supporting-le test ((id, v) ∷ m) = ground (arith, supporting-le test m)

  supporting-cong :
      (f g : ℕ → Bool) (m : List (VoterId × VoterInfo))
      → ((i : ℕ) → f i ≡ g i)
      → supporting f m ≡ supporting g m
  supporting-cong f g [] h = refl
  supporting-cong f g ((id, v) ∷ m) h = rw (h v.position, supporting-cong f g m h)

  -- The weight of the voter in a place, and 0 beyond the last.
  abbrev weight_at : List (VoterId × VoterInfo) → ℕ → ℕ
  weight_at m i = elim (get_elem? m i) [ none ↦ 0 | some (id, v) ↦ v.weight ]

  weight_at_beyond : (m : List (VoterId × VoterInfo)) (i : ℕ) → length m ≤ i → weight_at m i ≡ 0
  weight_at_beyond [] i h = refl
  weight_at_beyond (v ∷ m) zero h = absurd (omega arith)
  weight_at_beyond (v ∷ m) (suc i) h = weight_at_beyond m i (omega arith)

  supporting-sum_from :
      (test : ℕ → Bool) (all m : List (VoterId × VoterInfo)) (j : ℕ)
      → ((i : ℕ) → get_elem? all (j + i) ≡ get_elem? m i)
      → ((n : ℕ) (id : VoterId) (v : VoterInfo) → get_elem? all n ≡ some (id, v) → v.position ≡ n)
      → sum_from (λ i. if test i then weight_at all i else 0) j (length m) ≡ supporting test m
  unfolding sum_from
  supporting-sum_from test all [] j same placed = refl
  supporting-sum_from test all ((id, v) ∷ m) j same placed =
      let e : get_elem? all j ≡ some (id, v) = (let z : j ≡ j + 0 = omega arith in rw z (same 0)) in
      let p = placed j id v e in
      let rest =
        supporting-sum_from test all m (suc j)
          (λ i. let z : suc j + i ≡ j + suc i = omega arith in rw z (same (suc i))) placed in
      ground (arith, e, p, rest)

  weight_from_step :
      (total : ℕ) (bit : Bit1) (bits : List Bit1) (vs : VoterSet VoterId)
      → total ≤ u64_max
      → weight_from total (bit ∷ bits) vs
        ≡ weight_from (min (total + weight_at vs.voters (bit.position / 2)) u64_max) bits vs
  unfolding weight_from
  weight_from_step total bit bits vs h = ground arith

  weight_from_lem :
      (test : ℕ → Bool) (s : ℕ) (vs : VoterSet VoterId) (n j total : ℕ) (bits : List Bit1)
      → s ≤ 1
      → total ≤ u64_max
      → positions bits ≡ keep test (every_other s j n)
      → weight_from total bits vs
        ≡ min
            (total + sum_from (λ i. if test (s + 2 * i) then weight_at vs.voters i else 0) j n)
            u64_max
  unfolding every_other sum_from weight_from
  weight_from_lem test s vs zero j total [] hs h e = omega arith
  weight_from_lem test s vs zero j total (bit ∷ bits) hs h e = cc
  weight_from_lem test s vs (suc n) j total [] hs h e = elim (Bool-cases (test (s + 2 * j))) [
    | inl hit ↦ absurd (cons≢nil _ _ (sym (rw hit at e)))
    | inr miss ↦
        rw miss (weight_from_lem test s vs n (suc j) total [] hs h (rw miss at e) ∙ omega arith)
  ]
  weight_from_lem test s vs (suc n) j total (bit ∷ bits) hs h e =
      elim (Bool-cases (test (s + 2 * j))) [
        | inl hit ↦
            let (same, tail) = cons-injective (rw hit at e) in
            let half : bit.position / 2 ≡ j = omega arith in
            let ih =
              weight_from_lem test s vs n (suc j) (min (total + weight_at vs.voters j) u64_max) bits
                hs (omega arith) tail in
            rw hit (weight_from_step total bit bits vs h ∙ rw half (ih ∙ omega arith))
        | inr miss ↦ rw miss (
            weight_from_lem test s vs n (suc j) total (bit ∷ bits) hs h (rw miss at e)
            ∙ omega arith)
      ]

module _ {ℓ} {VoterId : Type ℓ} ⦃o : Ord VoterId⦄ where
  -- The bits of one parity of a bitfield weigh what the voters at these bits weigh together.
  weight_from_bits :
      (b : Bitfield) (s : ℕ) (vs : VoterSet VoterId) (bits : List Bit1)
      → s ≤ 1
      → IsValid vs
      → positions bits ≡ keep (test_bit b) (every_other s 0 (32 * length b.bits))
      → weight_from 0 bits vs ≡ supporting (λ i. test_bit b (s + 2 * i)) vs.voters
  weight_from_bits b s vs bits hs valid e =
      let h : ℕ → ℕ = λ i. if test_bit b (s + 2 * i) then weight_at vs.voters i else 0 in
      let m = 32 * length b.bits in
      let n = length vs.voters in
      let swap : m + n ≡ n + m = omega arith in
      let by_bits : sum_from h 0 (m + n) ≡ sum_from h 0 m =
        sum_from-extend h m n 0 (λ k l. rw (test_bit_beyond b (s + 2 * k) (omega arith))) in
      let by_voters : sum_from h 0 (n + m) ≡ sum_from h 0 n =
        sum_from-extend h n m 0 (λ k l. ground (arith, weight_at_beyond vs.voters k)) in
      let voters : sum_from h 0 n ≡ supporting (λ i. test_bit b (s + 2 * i)) vs.voters =
        supporting-sum_from (λ i. test_bit b (s + 2 * i)) vs.voters vs.voters 0 (λ i. rw zero-add)
          valid.placed in
      omega (
        arith,
        weight_from_lem (test_bit b) s vs m 0 0 bits hs (omega arith) e,
        ap (sum_from h 0) swap,
        by_bits,
        by_voters,
        voters,
        supporting-le (λ i. test_bit b (s + 2 * i)) vs.voters,
        valid.summed,
        valid.bounded,
      )

  even_weight :
      (b : Bitfield) (vs : VoterSet VoterId)
      → IsValid vs
      → weight_from 0 (iter1s_even b) vs ≡ supporting (has_vote b Phase.prevote) vs.voters
  even_weight b vs valid =
      weight_from_bits b 0 vs (iter1s_even b) (omega arith) valid (iter1s_lem b).0
      ∙ supporting-cong _ _ vs.voters (λ i. let e : 0 + 2 * i ≡ i * 2 = omega arith in rw e)

  odd_weight :
      (b : Bitfield) (vs : VoterSet VoterId)
      → IsValid vs
      → weight_from 0 (iter1s_odd b) vs ≡ supporting (has_vote b Phase.precommit) vs.voters
  odd_weight b vs valid =
      weight_from_bits b 1 vs (iter1s_odd b) (omega arith) valid (iter1s_lem b).1
      ∙ supporting-cong _ _ vs.voters (λ i. let e : 1 + 2 * i ≡ i * 2 + 1 = omega arith in rw e)

  -- The weight of the equivocations of a phase is that of the voters who are recorded for it.
  pub equivocation_weight_lem :
      (c : Context VoterId) (p : Phase)
      → IsValid c.voters
      → equivocation_weight c p ≡ supporting (has_vote c.equivocations p) c.voters.voters
  unfolding equivocation_weight
  equivocation_weight_lem c Phase.prevote valid = even_weight c.equivocations c.voters valid
  equivocation_weight_lem c Phase.precommit valid = odd_weight c.equivocations c.voters valid

  -- The voters whose vote counts for a node: those who voted for it, and the equivocators.
  abbrev pub counts_for : Context VoterId → VoteNode → Phase → ℕ → Bool
  counts_for c n p i = has_vote n.bits p i || has_vote c.equivocations p i

  -- The weight of a vote-node is the sum of the weights of the voters who voted for it in the phase
  -- or equivocated in the phase, each voter once. It does not saturate.
  pub weight_lem :
      (c : Context VoterId) (n : VoteNode) (p : Phase)
      → IsValid c.voters
      → weight c n p ≡ supporting (counts_for c n p) c.voters.voters
  unfolding weight weighed_bits
  weight_lem c n Phase.prevote valid = elim (Bool-cases (is_blank c.equivocations)) [
    | inl e ↦ rw e (
        even_weight n.bits c.voters valid
        ∙ supporting-cong _ _ c.voters.voters
            (λ i. rw (test_bit-is_blank c.equivocations (i * 2) e) (ground arith)))
    | inr e ↦
        rw (e, iter1s_merged_even-merge n.bits c.equivocations)
          (even_weight (merge n.bits c.equivocations) c.voters valid
            ∙ supporting-cong _ _ c.voters.voters (λ i. test_bit-merge n.bits c.equivocations _))
  ]
  weight_lem c n Phase.precommit valid = elim (Bool-cases (is_blank c.equivocations)) [
    | inl e ↦ rw e (
        odd_weight n.bits c.voters valid
        ∙ supporting-cong _ _ c.voters.voters
            (λ i. rw (test_bit-is_blank c.equivocations (i * 2 + 1) e) (ground arith)))
    | inr e ↦
        rw (e, iter1s_merged_odd-merge n.bits c.equivocations)
          (odd_weight (merge n.bits c.equivocations) c.voters valid
            ∙ supporting-cong _ _ c.voters.voters (λ i. test_bit-merge n.bits c.equivocations _))
  ]

  -- No node weighs more than all voters together.
  pub weight-le-total :
      (c : Context VoterId) (n : VoteNode) (p : Phase)
      → IsValid c.voters
      → weight c n p ≤ c.voters.total_weight
  weight-le-total c n p valid = omega (
    arith,
    weight_lem c n p valid,
    supporting-le (counts_for c n p) c.voters.voters,
    valid.summed,
  )
