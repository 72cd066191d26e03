-- ===== src/Commit/Valid.antt =====
-- What a valid result of `validate_commit` says of the precommits of the commit.
use finality_grandpa.Base.{
  ℕ, ◌≤◌, Bool, true, false, ◌||◌, Option, none, some, List, [], ◌∷◌, Ord, Eq, eqb, eqb_refl, ◌≡◌,
  refl, sym, ap, ◌∙◌, subst, arith, ok, ◌>>=◌, done, failed, Ensures, Ensures-imp, Ensures-all,
  Ensures-both, Ensures->>=, Ensures-ok, anything, Option-cases, Bool-cases, Outcome-cases, inl,
  inr, leb→le, All, keep, map,
}
use finality_grandpa.Weights.{reaches}
use finality_grandpa.Base.BTreeSet
use finality_grandpa.Base.BTreeSet.{BTreeSet}
use finality_grandpa.VoterSet
use finality_grandpa.VoterSet.{VoterSet}
use finality_grandpa.VoterSet.Valid.{IsValid}
use finality_grandpa.Chain.{Chain}
use finality_grandpa.Messages.{precommit_eq, Precommit, SignedPrecommit, Commit}
use finality_grandpa.Base.BTreeMap
use finality_grandpa.Round.Context
use finality_grandpa.Round.Tracker.{VoteTracker}
use finality_grandpa.Round.Tracker.Signers.{
  KeysAmong, add_vote-KeysAmong, weight_among, weight_of_keys-among,
}
use finality_grandpa.Round.State
use finality_grandpa.Round.State.{node_data, Round, threshold}
use finality_grandpa.Round.Import.{import_precommit}
use finality_grandpa.Round.Import.Weighted.{import_precommit-Tracks}
use finality_grandpa.Round.Import.Counted.{IsCounted, import_precommit-IsCounted, new-IsCounted}
use finality_grandpa.Commit.{
  CommitValidationResult, of_voters, all_descend, import_all, check_target, validate_commit, lowest,
}

module _ {ℓ κ μ} {VoterId : Type ℓ} {H : Type κ} {S : Type μ} ⦃oi : Ord VoterId⦄ where
  -- Whether one of the precommits is signed in the name of the id.
  abbrev pub signed_by : List (SignedPrecommit H S VoterId) → VoterId → Bool
  signed_by [] id = false
  signed_by (s ∷ ps) id = eqb s.id id || signed_by ps id

  kept_signed :
      (test : SignedPrecommit H S VoterId → Bool) (ps qs : List (SignedPrecommit H S VoterId))
      → ((j : VoterId) → signed_by ps j ≡ true → signed_by qs j ≡ true)
      → All (λ s. signed_by qs s.id ≡ true) (keep test ps)
  kept_signed test [] qs h = tt
  kept_signed test (s ∷ ps) qs h =
      let signed : signed_by qs s.id ≡ true = ground (arith, h s.id, eqb_refl s.id) in
      let rest = kept_signed test ps qs (λ j e. h j (ground (arith, e))) in
      elim (Bool-cases (test s)) [ inl e ↦ rw e (signed, rest) | inr e ↦ rw e rest ]

module _ {ℓ} {VoterId : Type ℓ} where
  -- What a result says, given the precommits of the commit.
  abbrev pub Reaches : VoterSet VoterId → (VoterId → Bool) → CommitValidationResult → Type 0
  Reaches vs ids result = result.valid ≡ true → vs.threshold ≤ weight_among ids vs.voters

module _ {ℓ κ μ} {VoterId : Type ℓ} {H : Type κ} {S : Type μ} ⦃oi : Ord VoterId⦄ ⦃oh : Ord H⦄
    ⦃es : Eq S⦄ where
  -- A round of the voters that counts precommits of the ids alone, before `precommit_ghost`.
  pub record Counts (vs : VoterSet VoterId) (ids : VoterId → Bool) (r : Round VoterId H S)
      : Type (ℓ ⊔ κ) where
    pub counted : IsCounted r
    pub voters : r.context.voters ≡ vs
    pub ghost : r.precommit_ghost ≡ none
    pub signers : KeysAmong ids r.precommit.votes

  import_precommit-Counts :
      (vs : VoterSet VoterId) (ids : VoterId → Bool) (chain : Chain H) (r : Round VoterId H S)
      (v : Precommit H) (signer : VoterId) (signature : S)
      → ids signer ≡ true
      → Counts vs ids r
      → Ensures (λ p. Counts vs ids (p.0)) (import_precommit chain r v signer signature)
  unfolding import_precommit
  import_precommit-Counts vs ids chain r v signer signature signed h =
      elim (Option-cases (VoterSet.get r.context.voters signer)) [
        | inl e ↦ rw (e, import_precommit) h
        | inr (info, e) ↦
            Ensures-imp (import_precommit chain r v signer signature)
              (Ensures-both _ _ (import_precommit chain r v signer signature)
                (import_precommit-IsCounted chain r v signer signature h.counted)
                (import_precommit-Tracks chain r v signer signature info e))
              (λ p (counted, t). record {
                counted = counted;
                voters = t.voters ∙ h.voters;
                ghost = t.ghost ∙ h.ghost;
                signers =
                    subst (λ (u : VoteTracker VoterId (Precommit H) S). KeysAmong ids u.votes)
                      (sym t.precommits_eq)
                      (add_vote-KeysAmong ids r.precommit signer v signature info.weight signed
                        h.signers);
              })
      ]

  abbrev pub CountsIfAny :
      VoterSet VoterId → (VoterId → Bool) → Option (Round VoterId H S) → Type (ℓ ⊔ κ)
  CountsIfAny vs ids none = Unit
  CountsIfAny vs ids (some r) = Counts vs ids r

  -- Not valid so far, and the round, if the loop ended, counts precommits of the ids alone.
  abbrev pub Imported :
      VoterSet VoterId
      → (VoterId → Bool)
      → CommitValidationResult × Option (Round VoterId H S)
      → Type (ℓ ⊔ κ)
  Imported vs ids p = (p.0.valid ≡ false) × CountsIfAny vs ids (p.1)

  import_all-Imported :
      (vs : VoterSet VoterId) (ids : VoterId → Bool) (chain : Chain H)
      (ps : List (SignedPrecommit H S VoterId)) (r : Round VoterId H S)
      (result : CommitValidationResult) (equivocated : BTreeSet VoterId)
      → All (λ s. ids s.id ≡ true) ps
      → result.valid ≡ false
      → Counts vs ids r
      → Ensures (Imported vs ids) (import_all chain ps r result equivocated)
  unfolding import_all
  import_all-Imported vs ids chain [] r result equivocated signed e h = (e, h)
  import_all-Imported vs ids chain (s ∷ ps) r result equivocated signed e h =
      let step = import_precommit-Counts vs ids chain r s.precommit s.id s.signature signed.0 h in
      elim (Outcome-cases (import_precommit chain r s.precommit s.id s.signature)) [
        | inl ((r', failed x), q) ↦ rw (q, import_all) tt
        | inl ((r', done imported), q) ↦
            let h' = Ensures-ok (λ p. Counts vs ids (p.0)) _ _ q step in
            elim (Option-cases imported.equivocation) [
              | inl none_new ↦
                  rw (q, import_all)
                    (rw none_new (
                      import_all-Imported vs ids chain ps r' _ equivocated signed.1
                        (ground (arith, e)) h'))
              | inr (x, new) ↦ elim (Bool-cases (BTreeSet.contains equivocated s.id)) [
                | inl old ↦ rw (q, import_all) (rw new (rw old (e, tt)))
                | inr first ↦
                    rw (q, import_all)
                      (rw new (rw first (import_all-Imported vs ids chain ps r' _ _ signed.1 e h')))
              ]
            ]
        | inr (inl (x, q)) ↦ rw (q, import_all) tt
        | inr (inr q) ↦ rw (q, import_all) tt
      ]

  check_target-Reaches :
      (vs : VoterSet VoterId) (ids : VoterId → Bool) (commit : Commit H S VoterId)
      (p : CommitValidationResult × Option (Round VoterId H S))
      → Imported vs ids p
      → Ensures (Reaches vs ids) (check_target commit p)
  unfolding check_target State.precommit_ghost
  check_target-Reaches vs ids commit (result, none) h = λ valid. cc
  check_target-Reaches vs ids commit (result, some r) (e, h) =
      elim (Bool-cases (reaches r.precommit.current_weight (threshold r))) [
        | inr few ↦
            rw (few, State.precommit_ghost)
              (let none_yet : r.precommit_ghost ≡ none = h.ghost in simp none_yet (λ valid. cc))
        | inl enough ↦ Ensures-all {P = Reaches vs ids} _ λ result' valid.
            let holds : r.context.voters.threshold ≤ r.precommit.current_weight =
              leb→le _ _ enough in
            omega (
              arith,
              ap (λ (u : VoterSet VoterId). u.threshold) h.voters,
              h.counted.precommits,
              holds,
              ap (λ (u : VoterSet VoterId). weight_among ids u.voters) h.voters,
              weight_of_keys-among ids r.precommit.votes r.context.voters.voters h.signers,
            )
      ]

  new-Counts :
      (vs : VoterSet VoterId) (ids : VoterId → Bool) (base : H × ℕ)
      → IsValid vs
      → Counts vs ids (State.new {S = S} (record { round_number = 0; voters = vs; base = base }))
  unfolding State.new Context.new BTreeMap.get
  new-Counts vs ids base valid = record {
    counted = new-IsCounted (record { round_number = 0; voters = vs; base = base }) valid;
    voters = refl;
    ghost = refl;
    signers = λ j h. cc;
  }

  of_voters_signed :
      (vs : VoterSet VoterId) (ps : List (SignedPrecommit H S VoterId))
      → All (λ s. signed_by ps s.id ≡ true) (of_voters vs ps)
  unfolding of_voters
  of_voters_signed vs ps = kept_signed _ ps ps (λ j h. h)

  after_descend :
      (commit : Commit H S VoterId) (vs : VoterSet VoterId) (chain : Chain H)
      (result : CommitValidationResult) (base : H × ℕ) (descend : Bool)
      → IsValid vs
      → result.valid ≡ false
      → Ensures (Reaches vs (signed_by commit.precommits)) (elim descend [
        | false ↦ ok result
        | true ↦
            import_all chain
              (of_voters vs commit.precommits)
              (State.new (record { round_number = 0; voters = vs; base = base }))
              result
              []
            >>= check_target commit
      ])
  after_descend commit vs chain result base false valid e = λ v. cc
  after_descend commit vs chain result base true valid e =
      let ids = signed_by commit.precommits in
      Ensures->>= (Imported vs ids) (Reaches vs ids) _ (check_target commit)
        (import_all-Imported vs ids chain (of_voters vs commit.precommits) _ result []
          (of_voters_signed vs commit.precommits) e (new-Counts vs ids base valid))
        (check_target-Reaches vs ids commit)

  -- A commit that `validate_commit` finds valid, for a valid voter set, has precommits in the name
  -- of voters whose weights, each voter counted once, reach the threshold of the set.
  pub validate_commit-Reaches :
      (commit : Commit H S VoterId) (vs : VoterSet VoterId) (chain : Chain H)
      (result : CommitValidationResult)
      → IsValid vs
      → validate_commit commit vs chain ≡ ok result
      → result.valid ≡ true
      → vs.threshold ≤ weight_among (signed_by commit.precommits) vs.voters
  unfolding validate_commit
  validate_commit-Reaches commit vs chain result voters e valid =
      Ensures-ok (Reaches vs ids) (validate_commit commit vs chain) result e validated valid
    where
      ids : VoterId → Bool
      ids = signed_by commit.precommits

      validated : Ensures (Reaches vs ids) (validate_commit commit vs chain)
      validated =
          elim (Option-cases (lowest (map (λ s. s.precommit) (of_voters vs commit.precommits)))) [
            | inl e ↦ rw (e, validate_commit) (λ v. cc)
            | inr (base, e) ↦
                rw (e, validate_commit)
                  (Ensures->>= (λ _. Unit {0}) (Reaches vs ids)
                    (all_descend chain base.target_hash (of_voters vs commit.precommits)) _
                    (anything _)
                    λ descend _.
                      after_descend commit vs chain _ (base.target_hash, base.target_number) descend
                        voters refl)
          ]
