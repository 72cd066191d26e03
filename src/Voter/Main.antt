-- ===== src/Voter/Main.antt =====
-- `Voter` of src/voter/mod.rs: the best round, the past rounds and what has been finalized. Locks and
-- wakers are left out.
pub mod Finality
pub mod Start
use finality_grandpa.Base.{
  ℕ, ◌+◌, Bool, true, false, ltb, Option, none, some, List, [], ◌∷◌, ◌++◌, Ord, Eq, if◌then◌else◌,
}
use finality_grandpa.Messages.{Commit}
use finality_grandpa.VoterSet.{VoterSet}
use finality_grandpa.Round.State as RoundState
use finality_grandpa.Voter.Call.{
  Poll, ready, pending, Answer, Reply, returned, raised, panicked, Call, pure, gets, modify, answer,
  lift, ◌>>=◌, ◌>>◌,
}
use finality_grandpa.Voter.Buffered
use finality_grandpa.Voter.Buffered.{Buffered}
use finality_grandpa.Voter.Bridge.{LatterView}
use finality_grandpa.Voter.Environment.{Environment, Told, Polled, Shared, FinalizedNotification}
use finality_grandpa.Voter.VotingRound.{VotingRound}
use finality_grandpa.Voter.VotingRound as Rounds
use finality_grandpa.Voter.VotingRound.Construct as Construct
use finality_grandpa.Voter.PastRounds as PastRounds
use finality_grandpa.Voter.PastRounds.{PastRounds, Past}

-- `Voter`, with the `InnerVoterState`. The receiver of the notifications is among what the rounds
-- share, and a `CommunicationOut` is a commit with the number of its round.
pub record Voter {ℓ} (VoterId H S T W O G : Type ℓ) : Type ℓ where
  pub voters : VoterSet VoterId
  pub best_round : VotingRound VoterId H S T W O
  pub past_rounds : PastRounds VoterId H S T W O
  pub last_finalized_number : ℕ
  pub global_out : Buffered G (ℕ × Commit H S VoterId)
  pub last_finalized_in_rounds : H × ℕ
  pub shared : Shared VoterId H S

module _ {ℓ} {VoterId H S T W O G : Type ℓ} where
  unfoldable pub raised_to : Voter VoterId H S T W O G → ℕ → Bool → Bool × Voter VoterId H S T W O G
  raised_to v finalized_number true = (true, record v { last_finalized_number = finalized_number })
  raised_to v finalized_number false = (false, v)

  -- `Voter::set_last_finalized_number`
  unfoldable pub set_last_finalized_number :
      Voter VoterId H S T W O G → ℕ → Bool × Voter VoterId H S T W O G
  unfolding raised_to
  set_last_finalized_number v finalized_number =
      raised_to v finalized_number (ltb v.last_finalized_number finalized_number)

module _ {ℓ} {VoterId H S T W O G X : Type ℓ} where
  abbrev pub tell :
      (Told VoterId H S → Answer X (Unit {0}))
      → Told VoterId H S
      → Call X (Voter VoterId H S T W O G) (Unit {0})
  tell answers told =
      modify (λ v. record v { shared = record v.shared { calls = v.shared.calls ++ told ∷ [] } })
      >> answer (answers told)

  -- The environment is told of a finalized block when the number has risen.
  unfoldable pub finalize_when :
      (Told VoterId H S → Answer X (Unit {0}))
      → FinalizedNotification VoterId H S
      → Bool
      → Call X (Voter VoterId H S T W O G) (Unit {0})
  finalize_when answers n false = pure tt
  finalize_when answers n true =
      tell answers (Told.finalize_block n.f_hash n.f_num n.round n.commit)

  unfoldable pub raise_finalized : ℕ → Call X (Voter VoterId H S T W O G) Bool
  unfolding set_last_finalized_number
  raise_finalized number v =
      let (risen, v') = set_last_finalized_number v number in returned risen v'

  unfoldable pub note_in_rounds : H → ℕ → Call X (Voter VoterId H S T W O G) (Unit {0})
  note_in_rounds f_hash f_num = modify (λ v. record v {
    last_finalized_in_rounds =
        if ltb (v.last_finalized_in_rounds.1) f_num
        then (f_hash, f_num)
        else v.last_finalized_in_rounds;
  })

  -- The body of the loop over the notifications of `prune_background_rounds`.
  unfoldable pub on_finalized :
      (Told VoterId H S → Answer X (Unit {0}))
      → FinalizedNotification VoterId H S
      → Call X (Voter VoterId H S T W O G) (Unit {0})
  unfolding finalize_when raise_finalized note_in_rounds PastRounds.update_finalized
  on_finalized answers n =
      modify (λ v. record v { past_rounds = PastRounds.update_finalized v.past_rounds n.f_num })
      >> raise_finalized n.f_num
      >>= λ risen. finalize_when answers n risen >> note_in_rounds n.f_hash n.f_num

  -- The loop over the notifications, which takes each out of the channel.
  unfoldable pub handle_finalized :
      (Told VoterId H S → Answer X (Unit {0}))
      → List (FinalizedNotification VoterId H S)
      → Call X (Voter VoterId H S T W O G) (Unit {0})
  unfolding on_finalized
  handle_finalized answers [] = pure tt
  handle_finalized answers (n ∷ ns) =
      modify (λ v. record v { shared = record v.shared { notifications = ns } })
      >> on_finalized answers n
      >> handle_finalized answers ns

  -- A call of the past rounds.
  unfoldable pub store_past {κ} :
      {A : Type κ}
      → Voter VoterId H S T W O G
      → Reply X (Past VoterId H S T W O) A
      → Reply X (Voter VoterId H S T W O G) A
  store_past v (returned a p) = returned a (record v { past_rounds = p.rounds; shared = p.shared })
  store_past v (raised x p) = raised x (record v { past_rounds = p.rounds; shared = p.shared })
  store_past v panicked = panicked

  unfoldable pub push_commit :
      ℕ × Commit H S VoterId → Call X (Voter VoterId H S T W O G) (Unit {0})
  push_commit sent = modify (λ v. record v { global_out = Buffered.push v.global_out sent })

  -- A commit of a past round is sent and the loop goes on.
  unfoldable pub send_and :
      Call X (Voter VoterId H S T W O G) (Unit {0})
      → Poll (Option (ℕ × Commit H S VoterId))
      → Call X (Voter VoterId H S T W O G) (Unit {0})
  unfolding push_commit
  send_and rest (ready (some sent)) = push_commit sent >> rest
  send_and rest (ready none) = pure tt
  send_and rest pending = pure tt

module _ {ℓ} {VoterId H S T W O G X : Type ℓ} ⦃oi : Ord VoterId⦄ ⦃oh : Ord H⦄ ⦃es : Eq S⦄ where
  unfoldable pub poll_past :
      Environment VoterId H T W O X
      → List (ℕ × Polled VoterId H S T W O X)
      → Call X (Voter VoterId H S T W O G) (Poll (Option (ℕ × Commit H S VoterId)))
  unfolding store_past PastRounds.poll_next
  poll_past env polls v =
      store_past v
        (PastRounds.poll_next env polls (record { rounds = v.past_rounds; shared = v.shared }))

  -- The loop over the commits of the past rounds, with the futures polled each time.
  unfoldable pub send_commits :
      Environment VoterId H T W O X
      → List (List (ℕ × Polled VoterId H S T W O X))
      → Call X (Voter VoterId H S T W O G) (Unit {0})
  unfolding poll_past send_and
  send_commits env [] = pure tt
  send_commits env (polls ∷ more) = poll_past env polls >>= send_and (send_commits env more)

  -- `Voter::prune_background_rounds`
  unfoldable pub prune_background_rounds :
      Environment VoterId H T W O X
      → List (List (ℕ × Polled VoterId H S T W O X))
      → (Told VoterId H S → Answer X (Unit {0}))
      → Call X (Voter VoterId H S T W O G) (Unit {0})
  unfolding send_commits handle_finalized
  prune_background_rounds env polls answers =
      send_commits env polls >> gets (λ v. v.shared.notifications) >>= handle_finalized answers

  -- A call of the best round.
  unfoldable pub bridge_best : Call X (Voter VoterId H S T W O G) LatterView
  unfolding Rounds.bridge_state
  bridge_best v =
      elim (Rounds.bridge_state {X = X} (record { round = v.best_round; shared = v.shared })) [
        | returned view s ↦ returned view (record v { best_round = s.round; shared = s.shared })
        | raised x s ↦ raised x (record v { best_round = s.round; shared = s.shared })
        | panicked ↦ panicked
      ]

  -- The next round takes the place of the best one, which becomes a past round.
  unfoldable pub replace_best :
      Environment VoterId H T W O X
      → VotingRound VoterId H S T W O
      → Call X (Voter VoterId H S T W O G) (Unit {0})
  unfolding PastRounds.push
  replace_best env next_round = modify (λ v. record v {
    best_round = next_round;
    past_rounds = PastRounds.push env v.best_round v.past_rounds;
  })

  -- `Voter::completed_best_round`
  unfoldable pub completed_best_round :
      Environment VoterId H T W O X
      → (Told VoterId H S → Answer X (Unit {0}))
      → Call X (Voter VoterId H S T W O G) (Unit {0})
  unfolding bridge_best replace_best Construct.new RoundState.state
  completed_best_round env answers = gets (λ v. v.best_round.votes) >>= λ votes.
      tell answers (
        Told.completed votes.round_number (RoundState.state votes)
          (votes.graph.base, votes.graph.base_number) votes.historical_votes)
      >> bridge_best
      >>= λ view.
          gets (λ v. (v.voters, v.last_finalized_in_rounds))
          >>= λ (given : VoterSet VoterId × (H × ℕ)).
              lift env.from
                (Construct.new (votes.round_number + 1) (given.0) (given.1) (some view) env)
              >>= replace_best env
