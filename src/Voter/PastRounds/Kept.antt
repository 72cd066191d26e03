-- ===== src/Voter/PastRounds/Kept.antt =====
-- What a poll of the past rounds keeps, and whose commits it sends.
use finality_grandpa.Base.{
  ℕ, ◌+◌, Option, none, some, List, [], ◌∷◌, ◌++◌, ◌≡◌, inl, inr, refl, ◌∙◌, arith, Ord, Eq, length,
  Option-cases,
}
use finality_grandpa.Messages.{Commit, HistoricalVotes}
use finality_grandpa.Round.State as RoundState
use finality_grandpa.Voter.Call.{
  Poll, ready, pending, Answer, fine, fault, Reply, returned, raised, panicked, Leaves, Answers,
  Answers->>=, Answers-imp, answer, pure, ◌>>◌,
}
use finality_grandpa.Voter.Environment.{Environment, Told, Polled}
use finality_grandpa.Voter.Background.{BackgroundRoundChange, Background}
use finality_grandpa.Voter.Background.Commits.{Tells, poll-Tells}
use finality_grandpa.Voter.PastRounds.{
  PastRound, Past, take_future, set_rounds, keep_round, remove_sender, store_polled, after_poll,
  at_end, poll_future, poll_found, unless_sent, poll_next,
}
use finality_grandpa.Voter.PastRounds.Counted.{count_concluded, count_concluded-append, poll-Keeps}

module _ {ℓ} {VoterId H S T W O : Type ℓ} where
  -- The rounds in the set and those that have been told concluded.
  abbrev pub all_rounds : Past VoterId H S T W O → ℕ
  all_rounds s = length s.rounds.past_rounds + count_concluded s.shared.calls

  take_future-length :
      (channel : ℕ) (rs others : List (PastRound VoterId H S T W O))
      (r : PastRound VoterId H S T W O)
      → take_future channel rs ≡ some (r, others)
      → length rs ≡ length others + 1
  unfolding take_future
  take_future-length channel [] others r e = ground arith
  take_future-length channel (q ∷ rs) others r e = elim (Option-cases (take_future channel rs)) [
    | inl e' ↦ ground (arith, e, e')
    | inr ((found, rest), e') ↦ ground (arith, e, e', take_future-length channel rs rest found e')
  ]

  -- A commit that is sent is the finalizing commit of a round in the set, by its number, that has
  -- finalized a block and has no more commit to send.
  abbrev pub IsSent : ℕ → Commit H S VoterId → Past VoterId H S T W O → Type ℓ
  IsSent number commit s =
      (r : PastRound VoterId H S T W O) × (rs : List (PastRound VoterId H S T W O))
      × (s.rounds.past_rounds ≡ r ∷ rs)
      × (number ≡ r.inner.inner.votes.round_number)
      × (r.inner.inner.best_finalized ≡ some commit)
      × ((f : H × ℕ) × (r.inner.inner.votes.finalized ≡ some f))
      × (r.inner.round_committer ≡ none)

  abbrev pub Gives : Option (ℕ × Commit H S VoterId) → Past VoterId H S T W O → Type ℓ
  Gives none s = Unit
  Gives (some (number, commit)) s = IsSent number commit s

  abbrev pub Answered : Poll (Option (ℕ × Commit H S VoterId)) → Past VoterId H S T W O → Type ℓ
  Answered pending s =
      (r : PastRound VoterId H S T W O) × (rs : List (PastRound VoterId H S T W O))
      × (s.rounds.past_rounds ≡ r ∷ rs)
  Answered (ready none) s = s.rounds.past_rounds ≡ []
  Answered (ready (some (number, commit))) s = IsSent number commit s

  -- A future that has been polled, before it goes back to the set or is dropped.
  abbrev IsPolled :
      ℕ
      → Poll (BackgroundRoundChange VoterId H S) × PastRound VoterId H S T W O
      → Past VoterId H S T W O
      → Type ℓ
  IsPolled N p s =
      (all_rounds s + 1 ≡ N) × Tells (p.0) (record { background = (p.1).inner; shared = s.shared })

module _ {ℓ} {VoterId H S T W O X : Type ℓ} where
  store_polled-IsPolled :
      (N channel : ℕ) (s : Past VoterId H S T W O)
      (r : Reply X (Background VoterId H S T W O) (Poll (BackgroundRoundChange VoterId H S)))
      → all_rounds s + 1 ≡ N
      → Leaves (λ b. count_concluded b.shared.calls ≡ count_concluded s.shared.calls) r
      → Answers Tells r
      → Answers (IsPolled N) (store_polled channel s r)
  unfolding store_polled
  store_polled-IsPolled N channel s (returned change b) e kept tells = (go kept, tells)
    where
      go :
          count_concluded b.shared.calls ≡ count_concluded s.shared.calls
          → length s.rounds.past_rounds + count_concluded b.shared.calls + 1 ≡ N
      go k = omega arith
  store_polled-IsPolled N channel s (raised x b) e kept tells = tt
  store_polled-IsPolled N channel s panicked e kept tells = tt

  -- The round is no longer in the set, and has been told concluded.
  told_concluded :
      (number : ℕ) (s : Past VoterId H S T W O) (N n : ℕ) (state : RoundState.State H)
      (base : H × ℕ) (votes : HistoricalVotes H S VoterId)
      → all_rounds s + 1 ≡ N
      → (a : Answer X (Unit {0}))
      → Answers {A = Option (ℕ × Commit H S VoterId)}
          (λ given t. (all_rounds t ≡ N) × Gives given t)
          ((answer a >> remove_sender number >> pure none) (record s {
            shared = record s.shared {
              calls = s.shared.calls ++ Told.concluded n state base votes ∷ [];
            };
          }))
  unfolding remove_sender
  told_concluded number s N n state base votes e (fine _) =
      (go (count_concluded-append s.shared.calls (Told.concluded n state base votes ∷ [])), tt)
    where
      go :
          count_concluded (s.shared.calls ++ Told.concluded n state base votes ∷ [])
            ≡ count_concluded s.shared.calls + (1 + 0)
          → length s.rounds.past_rounds
              + count_concluded (s.shared.calls ++ Told.concluded n state base votes ∷ [])
            ≡ N
      go k = omega arith
  told_concluded number s N n state base votes e (fault x) = tt

  after_poll-Answers :
      (polled : Polled VoterId H S T W O X) (N : ℕ)
      (p : Poll (BackgroundRoundChange VoterId H S) × PastRound VoterId H S T W O)
      (s : Past VoterId H S T W O)
      → IsPolled N p s
      → Answers (λ given t. (all_rounds t ≡ N) × Gives given t) (after_poll polled p s)
  unfolding after_poll keep_round remove_sender
  after_poll-Answers polled N (pending, r) s (e, _) = (omega arith, tt)
  after_poll-Answers polled N (ready (BackgroundRoundChange.concluded number), r) s (e, _) =
      let votes = r.inner.inner.votes in told_concluded number s N _ _ _ _ e (polled.told _)
  after_poll-Answers polled N (ready (BackgroundRoundChange.committed c), r) s
        (e, (gone, shown, f)) =
      (omega arith, (r, s.rounds.past_rounds, refl, refl, shown, f, gone))

module _ {ℓ} {VoterId H S T W O X : Type ℓ} ⦃oi : Ord VoterId⦄ ⦃oh : Ord H⦄ ⦃es : Eq S⦄
    (env : Environment VoterId H T W O X) where
  poll_found-Answers :
      (channel : ℕ) (polled : Polled VoterId H S T W O X)
      (found : Option (PastRound VoterId H S T W O × List (PastRound VoterId H S T W O)))
      (s : Past VoterId H S T W O)
      → take_future channel s.rounds.past_rounds ≡ found
      → Answers
          (λ given t. (all_rounds t ≡ all_rounds s) × Gives given t)
          (poll_found env polled found s)
  unfolding poll_found set_rounds poll_future
  poll_found-Answers channel polled none s e = (refl, tt)
  poll_found-Answers channel polled (some (r, others)) s e =
      let rest : Past VoterId H S T W O = record s {
        rounds = record s.rounds { past_rounds = others };
      } in
      let b : Background VoterId H S T W O = record { background = r.inner; shared = s.shared } in
      Answers->>= (IsPolled (all_rounds s)) _ (poll_future env polled r) (after_poll polled) rest
        (store_polled-IsPolled (all_rounds s) r.channel rest _
          (go (take_future-length channel s.rounds.past_rounds others r e))
          (poll-Keeps env (count_concluded s.shared.calls) polled b refl) (poll-Tells env polled b))
        (λ p t h. after_poll-Answers polled (all_rounds s) p t h)
    where
      go :
          length s.rounds.past_rounds ≡ length others + 1
          → length others + count_concluded s.shared.calls + 1 ≡ all_rounds s
      go k = omega arith

  -- When a poll of the past rounds answers, whichever of them the executor polls, it has lost none:
  -- the rounds in the set and those that
  -- the environment has been told are concluded are as many as before. The stream ends when the set
  -- is empty, is pending when it is not, and a commit that it sends, with the number of a round, is
  -- the finalizing commit of a round in the set with that number, which has finalized a block and
  -- has no more commit to send.
  pub poll_next_lem :
      (polls : List (ℕ × Polled VoterId H S T W O X)) (s : Past VoterId H S T W O)
      → Answers
          (λ given t. (all_rounds t ≡ all_rounds s) × Answered given t)
          (poll_next env polls s)
  unfolding poll_next at_end unless_sent
  poll_next_lem [] s = (refl, go s.rounds.past_rounds refl)
    where
      go :
          (rs : List (PastRound VoterId H S T W O))
          → s.rounds.past_rounds ≡ rs
          → Answered (at_end rs) s
      go [] e = e
      go (r ∷ rs) e = (r, rs, e)
  poll_next_lem ((channel, polled) ∷ more) s =
      Answers->>= (λ given t. (all_rounds t ≡ all_rounds s) × Gives given t) _
        (poll_found env polled (take_future channel s.rounds.past_rounds)) _ s
        (poll_found-Answers channel polled _ s refl) (next (poll_next_lem more))
    where
      next :
          ((t : Past VoterId H S T W O)
            → Answers
                (λ given u. (all_rounds u ≡ all_rounds t) × Answered given u)
                (poll_next env more t))
          → (given : Option (ℕ × Commit H S VoterId)) (t : Past VoterId H S T W O)
          → (all_rounds t ≡ all_rounds s) × Gives given t
          → Answers
              (λ given' u. (all_rounds u ≡ all_rounds s) × Answered given' u)
              (unless_sent (poll_next env more) given t)
      next rest (some sent) t h = h
      next rest none t (e, _) =
          Answers-imp {P = λ given u. (all_rounds u ≡ all_rounds t) × Answered given u} _ (rest t)
            (λ given' u (e', h). (e' ∙ e, h))
