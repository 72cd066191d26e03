-- ===== src/Round/Finalizing.antt =====
-- `Round::finalizing_precommits` of src/round.rs.
use mathlib.Core.List.{Memᴰ}
use finality_grandpa.Base.{
  Bool, true, false, Option, none, some, List, [], ◌∷◌, ◌++◌, Ord, Outcome, ok, ◌>>=◌, ◌≡◌, refl,
  sym, ◌∙◌, All, All-append, All-imp, ℕ, Ensures, Ensures->>=, Ensures-ok, Outcome-cases, inl, inr,
  ◌⊎◌,
}
use finality_grandpa.Base.BTreeMap.{BTreeMap}
use finality_grandpa.Chain.{
  Chain, is_equal_or_descendent_of, Descends, is_equal_or_descendent_of-Descends,
}
use finality_grandpa.Messages.{Precommit, SignedPrecommit}
use finality_grandpa.Round.Tracker.{VoteMultiplicity}
use finality_grandpa.Round.State.{Round}

module _ {ℓ κ μ} {VoterId : Type ℓ} {H : Type κ} {S : Type μ} where
  -- The iterator `YieldVotes`, with the id that `flat_map` adds.
  unfoldable pub yield_votes :
      VoterId → VoteMultiplicity (Precommit H) S → List (SignedPrecommit H S VoterId)
  yield_votes id (VoteMultiplicity.single v s) =
      record { precommit = v; signature = s; id = id } ∷ []
  yield_votes id (VoteMultiplicity.equivocated (v1, s1) (v2, s2)) =
      record { precommit = v1; signature = s1; id = id }
      ∷ record { precommit = v2; signature = s2; id = id }
      ∷ []

module _ {κ μ} {H : Type κ} {S : Type μ} ⦃oh : Ord H⦄ where
  -- The filter: a single vote must be for the finalized block or a descendent.
  unfoldable pub branches_off : Chain H → H → VoteMultiplicity (Precommit H) S → Outcome Bool
  branches_off chain f_hash (VoteMultiplicity.single v _) =
      is_equal_or_descendent_of chain f_hash v.target_hash
  branches_off chain f_hash (VoteMultiplicity.equivocated _ _) = ok true

module _ {ℓ κ μ} {VoterId : Type ℓ} {H : Type κ} {S : Type μ} ⦃oh : Ord H⦄ where
  -- The votes that the filtered iterator yields.
  unfoldable pub find_valid_precommits :
      Chain H
      → H
      → BTreeMap VoterId (VoteMultiplicity (Precommit H) S)
      → Outcome (List (SignedPrecommit H S VoterId))
  unfolding yield_votes branches_off
  find_valid_precommits chain f_hash [] = ok []
  find_valid_precommits chain f_hash ((id, m) ∷ votes) = branches_off chain f_hash m >>= λ taken.
      find_valid_precommits chain f_hash votes >>= λ rest.
      ok (elim taken [ true ↦ yield_votes id m ++ rest | false ↦ rest ])

  -- `Round::finalizing_precommits`
  unfoldable pub finalizing_precommits :
      Round VoterId H S → Chain H → Outcome (Option (List (SignedPrecommit H S VoterId)))
  unfolding find_valid_precommits
  finalizing_precommits r chain = elim r.finalized [
    | none ↦ ok none
    | some f ↦ find_valid_precommits chain (f.0) r.precommit.votes >>= λ votes. ok (some votes)
  ]

  -- The precommit is one that the votes hold for its voter: a single one for the block or a
  -- descendent of it, or one of the two of an equivocator.
  abbrev pub IsHeld :
      Chain H
      → H
      → BTreeMap VoterId (VoteMultiplicity (Precommit H) S)
      → SignedPrecommit H S VoterId
      → Type (ℓ ⊔ κ ⊔ μ)
  IsHeld chain f_hash votes p =
      (Memᴰ (p.id, VoteMultiplicity.single p.precommit p.signature) votes
        × Descends chain f_hash p.precommit.target_hash)
      ⊎ ((a b : Precommit H × S) × Memᴰ (p.id, VoteMultiplicity.equivocated a b) votes
          × ((a ≡ (p.precommit, p.signature)) ⊎ (b ≡ (p.precommit, p.signature))))

  yield_votes-IsHeld :
      (chain : Chain H) (f_hash : H) (id : VoterId) (m : VoteMultiplicity (Precommit H) S)
      (votes : BTreeMap VoterId (VoteMultiplicity (Precommit H) S))
      → branches_off chain f_hash m ≡ ok true
      → All (IsHeld chain f_hash ((id, m) ∷ votes)) (yield_votes id m)
  unfolding yield_votes branches_off
  yield_votes-IsHeld chain f_hash id (VoteMultiplicity.single v s) votes e =
      (inl (Memᴰ.head refl, is_equal_or_descendent_of-Descends chain f_hash v.target_hash e), tt)
  yield_votes-IsHeld chain f_hash id (VoteMultiplicity.equivocated a b) votes e =
      (inr (a, b, Memᴰ.head refl, inl refl), (inr (a, b, Memᴰ.head refl, inr refl), tt))

  IsHeld-later :
      (chain : Chain H) (f_hash : H) (entry : VoterId × VoteMultiplicity (Precommit H) S)
      (votes : BTreeMap VoterId (VoteMultiplicity (Precommit H) S))
      (p : SignedPrecommit H S VoterId)
      → IsHeld chain f_hash votes p
      → IsHeld chain f_hash (entry ∷ votes) p
  IsHeld-later chain f_hash entry votes p (inl (place, below)) = inl (Memᴰ.tail place, below)
  IsHeld-later chain f_hash entry votes p (inr (a, b, place, which)) =
      inr (a, b, Memᴰ.tail place, which)

  find_valid_precommits-IsHeld :
      (chain : Chain H) (f_hash : H) (votes : BTreeMap VoterId (VoteMultiplicity (Precommit H) S))
      → Ensures (All (IsHeld chain f_hash votes)) (find_valid_precommits chain f_hash votes)
  unfolding find_valid_precommits
  find_valid_precommits-IsHeld chain f_hash [] = tt
  find_valid_precommits-IsHeld chain f_hash ((id, m) ∷ votes) =
      elim (Outcome-cases (branches_off chain f_hash m)) [
        | inr (inl (x, e)) ↦ rw e tt
        | inr (inr e) ↦ rw e tt
        | inl (taken, e) ↦ rw e (
            Ensures->>= (All (IsHeld chain f_hash votes))
              (All (IsHeld chain f_hash ((id, m) ∷ votes)))
              (find_valid_precommits chain f_hash votes) _
              (find_valid_precommits-IsHeld chain f_hash votes)
              λ rest held.
                let later = All-imp (IsHeld-later chain f_hash (id, m) votes) rest held in
                with_taken taken e rest later)
      ]
    where
      with_taken :
          (taken : Bool)
          → branches_off chain f_hash m ≡ ok taken
          → (rest : List (SignedPrecommit H S VoterId))
          → All (IsHeld chain f_hash ((id, m) ∷ votes)) rest
          → All
              (IsHeld chain f_hash ((id, m) ∷ votes))
              (elim taken [ true ↦ yield_votes id m ++ rest | false ↦ rest ])
      with_taken true off rest later =
          All-append _ (yield_votes id m) rest (yield_votes-IsHeld chain f_hash id m votes off)
            later
      with_taken false off rest later = later

  -- The precommits of `finalizing_precommits`, in a round that has finalized a block, are ones that
  -- the round holds for their voters: a single one for the block or a descendent of it, or one of
  -- the two of an equivocator.
  pub finalizing_precommits-IsHeld :
      (r : Round VoterId H S) (chain : Chain H) (f : H × ℕ)
      (ps : List (SignedPrecommit H S VoterId))
      → r.finalized ≡ some f
      → finalizing_precommits r chain ≡ ok (some ps)
      → All (IsHeld chain (f.0) r.precommit.votes) ps
  unfolding finalizing_precommits
  finalizing_precommits-IsHeld r chain f ps finalized e =
      let held =
        Ensures->>= (All (IsHeld chain (f.0) r.precommit.votes)) (Held (f.0))
          (find_valid_precommits chain (f.0) r.precommit.votes) (λ votes. ok (some votes))
          (find_valid_precommits-IsHeld chain (f.0) r.precommit.votes) (λ votes h. h) in
      let computes : finalizing_precommits r chain
          ≡ (find_valid_precommits chain (f.0) r.precommit.votes >>= λ votes. ok (some votes)) =
        rw finalized in
      Ensures-ok (Held (f.0))
        (find_valid_precommits chain (f.0) r.precommit.votes >>= λ votes. ok (some votes)) (some ps)
        (sym computes ∙ e) held
    where
      Held : H → Option (List (SignedPrecommit H S VoterId)) → Type (ℓ ⊔ κ ⊔ μ)
      Held h none = Unit
      Held h (some qs) = All (IsHeld chain h r.precommit.votes) qs
