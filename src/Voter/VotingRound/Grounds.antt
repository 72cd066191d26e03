-- ===== src/Voter/VotingRound/Grounds.antt =====
-- On what grounds a round casts a precommit.
use finality_grandpa.Base.{
  ℕ, Bool, true, false, Option, none, some, List, [], ◌∷◌, ◌++◌, ◌≡◌, ◌⊎◌, inl, inr, refl, ap,
  arith, Ord, eqb_iff, Bool-cases, ok, err, panic, Outcome, expect,
}
use finality_grandpa.Chain.{Descends, is_equal_or_descendent_of-Descends}
use finality_grandpa.Messages.{Message}
use finality_grandpa.Round.State as RoundState
use finality_grandpa.Round.State.{same_block}
use finality_grandpa.Voter.Call.{
  Poll, ready, pending, Answer, fine, fault, Call, Leaves, ◌>>=◌, ◌>>◌, lift, answer, pure,
}
use finality_grandpa.Voter.Environment.{Environment, Told, Polled}
use finality_grandpa.Voter.VotingRound.{State, Voting, Running, is_active, change, set_state}
use finality_grandpa.Voter.VotingRound.Construct.{construct_precommit, ghost_reached}
use finality_grandpa.Voter.VotingRound.Cast.{
  push_message, is_over, elapsed, should_precommit, cast_precommit, precommit_when, precommit_from,
  precommit,
}

module _ {ℓ} {VoterId H S T W O X : Type ℓ} ⦃oh : Ord H⦄ (env : Environment VoterId H T W O X)
    (polled : Polled VoterId H S T W O X) (last : RoundState.State H)
    (s : Running VoterId H S T W O) where
  -- The only call after those of `s` is a precommit for the prevote-GHOST, which is the estimate of
  -- the last round or a block that the chain has an ancestry of, back to the estimate.
  abbrev pub IsGrounded : List (Told VoterId H S) → Type ℓ
  IsGrounded calls =
      (estimate ghost : H × ℕ) × (last.estimate ≡ some estimate)
      × (s.round.votes.prevote_ghost ≡ some ghost)
      × Descends env.chain (estimate.0) (ghost.0)
      × (calls
          ≡ s.shared.calls
            ++ Told.precommitted s.round.votes.round_number
                (record { target_hash = ghost.0; target_number = ghost.1 })
              ∷ [])

  ghost_reached-some :
      (estimate : H × ℕ) (ghost : Option (H × ℕ))
      → ghost_reached env.chain estimate ghost ≡ ok true
      → (g : H × ℕ) × (ghost ≡ some g)
  unfolding ghost_reached
  ghost_reached-some estimate none e = ground arith
  ghost_reached-some estimate (some g) e = (g, refl)

  ghost_reached-Descends :
      (estimate ghost : H × ℕ)
      → ghost_reached env.chain estimate (some ghost) ≡ ok true
      → Descends env.chain (estimate.0) (ghost.0)
  unfolding ghost_reached
  ghost_reached-Descends estimate ghost e = elim (Bool-cases (same_block ghost estimate)) [
    | inl same ↦ inl (ground (arith, same, eqb_iff (ghost.0) (estimate.0)))
    | inr other ↦
        is_equal_or_descendent_of-Descends env.chain (estimate.0) (ghost.0)
          (rw (other, ghost_reached) at e)
  ]

  -- The state of the round when its state has been taken.
  abbrev taken : Running VoterId H S T W O
  taken = record s { round = record s.round { state = none } }

  cast : Told VoterId H S
  cast = Told.precommitted s.round.votes.round_number (construct_precommit taken.round)

  cast_lem :
      (ghost : H × ℕ)
      → s.round.votes.prevote_ghost ≡ some ghost
      → cast
        ≡ Told.precommitted s.round.votes.round_number
            (record { target_hash = ghost.0; target_number = ghost.1 })
  unfolding cast construct_precommit
  cast_lem ghost e = rw e

  cast-IsGrounded :
      (estimate : H × ℕ)
      → last.estimate ≡ some estimate
      → ghost_reached env.chain estimate s.round.votes.prevote_ghost ≡ ok true
      → IsGrounded (s.shared.calls ++ cast ∷ [])
  cast-IsGrounded estimate e reached =
      let (ghost, e') = ghost_reached-some estimate s.round.votes.prevote_ghost reached in
      let reached' : ghost_reached env.chain estimate (some ghost) ≡ ok true = rw e' at reached in
      (
        estimate,
        ghost,
        e,
        e',
        ghost_reached-Descends estimate ghost reached',
        ap (λ c. s.shared.calls ++ c ∷ []) (cast_lem ghost e'),
      )

  told-IsGrounded :
      (estimate : H × ℕ) (a : Answer X (Unit {0}))
      → last.estimate ≡ some estimate
      → ghost_reached env.chain estimate s.round.votes.prevote_ghost ≡ ok true
      → Leaves
          (λ t. (t.shared.calls ≡ s.shared.calls) ⊎ IsGrounded t.shared.calls)
          (((answer a
                >> change (λ r. record r { votes = RoundState.set_precommitted_index r.votes })
                >> push_message (Message.precommit (construct_precommit taken.round)))
              >> set_state (some State.precommitted))
            (record taken { shared = record s.shared { calls = s.shared.calls ++ cast ∷ [] } }))
  told-IsGrounded estimate (fine _) e reached = inr (cast-IsGrounded estimate e reached)
  told-IsGrounded estimate (fault x) e reached = inr (cast-IsGrounded estimate e reached)

  cast_precommit-IsGrounded :
      (estimate : H × ℕ) (voting : Voting)
      → last.estimate ≡ some estimate
      → ghost_reached env.chain estimate s.round.votes.prevote_ghost ≡ ok true
      → Leaves
          (λ t. (t.shared.calls ≡ s.shared.calls) ⊎ IsGrounded t.shared.calls)
          ((cast_precommit polled voting >> set_state (some State.precommitted)) taken)
  unfolding cast_precommit is_active cast construct_precommit
  cast_precommit-IsGrounded estimate Voting.no e reached = inl refl
  cast_precommit-IsGrounded estimate Voting.yes e reached =
      told-IsGrounded estimate (polled.told cast) e reached
  cast_precommit-IsGrounded estimate Voting.primary e reached =
      told-IsGrounded estimate (polled.told cast) e reached

  precommit_when-IsGrounded :
      (u : T) (estimate : H × ℕ) (due : Bool)
      → last.estimate ≡ some estimate
      → ghost_reached env.chain estimate s.round.votes.prevote_ghost ≡ ok true
      → Leaves
          (λ t. (t.shared.calls ≡ s.shared.calls) ⊎ IsGrounded t.shared.calls)
          (precommit_when polled u due taken)
  unfolding precommit_when
  precommit_when-IsGrounded u estimate false e reached = inl refl
  precommit_when-IsGrounded u estimate true e reached =
      cast_precommit-IsGrounded estimate s.round.voting e reached

  elapsed-IsGrounded :
      (u : T) (estimate : H × ℕ) (over : Poll (Answer X (Unit {0})))
      → last.estimate ≡ some estimate
      → ghost_reached env.chain estimate s.round.votes.prevote_ghost ≡ ok true
      → Leaves
          (λ t. (t.shared.calls ≡ s.shared.calls) ⊎ IsGrounded t.shared.calls)
          ((is_over over >>= precommit_when polled u) taken)
  unfolding is_over
  elapsed-IsGrounded u estimate pending e reached =
      precommit_when-IsGrounded u estimate s.round.votes.completable e reached
  elapsed-IsGrounded u estimate (ready (fine _)) e reached =
      precommit_when-IsGrounded u estimate true e reached
  elapsed-IsGrounded u estimate (ready (fault x)) e reached = inl refl

  prevoted-IsGrounded :
      (u : T) (found : Option (H × ℕ))
      → last.estimate ≡ found
      → Leaves
          (λ t. (t.shared.calls ≡ s.shared.calls) ⊎ IsGrounded t.shared.calls)
          ((lift env.from (expect found) >>= λ estimate.
              should_precommit env polled estimate u >>= precommit_when polled u)
            taken)
  unfolding should_precommit elapsed precommit_when
  prevoted-IsGrounded u none e = tt
  prevoted-IsGrounded u (some estimate) e =
      go (ghost_reached env.chain estimate s.round.votes.prevote_ghost) refl
    where
      go :
          (reached : Outcome Bool)
          → ghost_reached env.chain estimate s.round.votes.prevote_ghost ≡ reached
          → Leaves
              (λ t. (t.shared.calls ≡ s.shared.calls) ⊎ IsGrounded t.shared.calls)
              (((lift env.from reached >>= λ b.
                    elim b as (λ x. Call X (Running VoterId H S T W O) Bool) [
                      | true ↦ elapsed polled u
                      | false ↦ pure false
                    ])
                  >>= precommit_when polled u)
                taken)
      go panic e' = tt
      go (err x) e' = inl refl
      go (ok false) e' = inl refl
      go (ok true) e' = elapsed-IsGrounded u estimate (polled.timer u) e e'

  -- `precommit` tells the environment nothing, or of one precommit for the prevote-GHOST of the
  -- round, when that is the estimate of the last round or descends from it by the chain.
  pub precommit-IsGrounded :
      Leaves
        (λ t. (t.shared.calls ≡ s.shared.calls) ⊎ IsGrounded t.shared.calls)
        (precommit env polled last s)
  unfolding precommit precommit_from
  precommit-IsGrounded = go s.round.state
    where
      go :
          (state : Option (State T (H × W)))
          → Leaves
              (λ t. (t.shared.calls ≡ s.shared.calls) ⊎ IsGrounded t.shared.calls)
              (precommit_from env polled last state taken)
      go none = inl refl
      go (some (State.start _ _)) = inl refl
      go (some (State.proposed _ _)) = inl refl
      go (some (State.prevoting _ _)) = inl refl
      go (some State.precommitted) = inl refl
      go (some (State.prevoted u)) = prevoted-IsGrounded u last.estimate refl
