-- ===== src/Voter/PastRounds/Counted.antt =====
-- How many rounds the environment has been told are concluded: no round tells that itself.
use finality_grandpa.Base.{
  ℕ, ◌+◌, Bool, true, false, Option, none, some, List, [], ◌∷◌, ◌++◌, ◌≡◌, refl, ap, ◌∙◌, arith,
  Ord, Eq,
}
use finality_grandpa.Messages.{Commit}
use finality_grandpa.Voter.Call.{
  Poll, ready, pending, Answer, fine, fault, Reply, returned, raised, panicked, Call, Leaves,
  Leaves-imp, Keeps, Keeps->>=, Leaves->>=,
}
use finality_grandpa.Voter.Environment.{Environment, Told, Polled}
use finality_grandpa.Voter.VotingRound.{Running}
use finality_grandpa.Voter.VotingRound.Incoming.{check_and_import_from_commit}
use finality_grandpa.Voter.VotingRound.Notify as VotingRound
use finality_grandpa.Voter.VotingRound.Ballots.{Follows, Kind, kind, FollowsStages}
use finality_grandpa.Voter.VotingRound.Ballots.Incoming.{check_and_import_from_commit-FollowsStages}
use finality_grandpa.Voter.VotingRound.Ballots.Polls.{poll-FollowsStages}
use finality_grandpa.Voter.Background.{
  RoundCommitter, Background, import_unless, import_commit, import_all, commit_when, commit,
  store_inner, on_inner, set_committer, conclude, after_commit, with_committer,
}
use finality_grandpa.Voter.Background as Background

module _ {ℓ} {VoterId H S : Type ℓ} where
  -- How many rounds the environment has been told are concluded.
  abbrev pub concluded : Told VoterId H S → ℕ
  concluded (Told.concluded _ _ _ _) = 1
  concluded _ = 0

  abbrev pub count_concluded : List (Told VoterId H S) → ℕ
  count_concluded [] = 0
  count_concluded (c ∷ cs) = concluded c + count_concluded cs

  pub count_concluded-append :
      (cs ds : List (Told VoterId H S))
      → count_concluded (cs ++ ds) ≡ count_concluded cs + count_concluded ds
  count_concluded-append [] ds = omega arith
  count_concluded-append (c ∷ cs) ds = grind (arith, count_concluded-append cs ds)

  -- Votes and reports conclude no round.
  concluded-vote : (c : Told VoterId H S) (k : ℕ) → kind c ≡ Kind.vote k → concluded c ≡ 0
  unfolding kind
  concluded-vote c k e = ground arith

  concluded-report : (c : Told VoterId H S) → kind c ≡ Kind.report → concluded c ≡ 0
  unfolding kind
  concluded-report c e = ground arith

  count_concluded-Follows :
      {i j : ℕ} (cs : List (Told VoterId H S)) → Follows i cs j → count_concluded cs ≡ 0
  count_concluded-Follows _ (Follows.skips m) = refl
  count_concluded-Follows _ (Follows.casts k c cs e m f) =
      grind (arith, concluded-vote c k e, count_concluded-Follows cs f)
  count_concluded-Follows _ (Follows.reports c cs e f) =
      grind (arith, concluded-report c e, count_concluded-Follows cs f)

module _ {ℓ κ} {VoterId H S T W O X : Type ℓ} {A : Type κ} where
  -- So they do not change the count.
  FollowsStages-Keeps :
      (N : ℕ) (m : Call X (Running VoterId H S T W O) A)
      → FollowsStages m
      → Keeps (λ s. count_concluded s.shared.calls ≡ N) m
  FollowsStages-Keeps N m h s e = Leaves-imp (m s) (h s) (λ t (cs, e', f).
      ap count_concluded e'
      ∙ count_concluded-append s.shared.calls cs
      ∙ ap (λ k. count_concluded s.shared.calls + k) (count_concluded-Follows cs f)
      ∙ plus_zero (count_concluded s.shared.calls)
      ∙ e)
    where
      plus_zero : (n : ℕ) → n + 0 ≡ n
      plus_zero n = omega arith

  store_inner-Keeps :
      (N : ℕ) (b : Background VoterId H S T W O) (r : Reply X (Running VoterId H S T W O) A)
      → Leaves (λ s. count_concluded s.shared.calls ≡ N) r
      → Leaves (λ b'. count_concluded b'.shared.calls ≡ N) (store_inner b r)
  unfolding store_inner
  store_inner-Keeps N b (returned a t) h = h
  store_inner-Keeps N b (raised x t) h = h
  store_inner-Keeps N b panicked h = tt

  on_inner-Keeps :
      (N : ℕ) (m : Call X (Running VoterId H S T W O) A)
      → Keeps (λ s. count_concluded s.shared.calls ≡ N) m
      → Keeps (λ b. count_concluded b.shared.calls ≡ N) (on_inner m)
  unfolding on_inner
  on_inner-Keeps N m h b e =
      store_inner-Keeps N b _ (h (record { round = b.background.inner; shared = b.shared }) e)

module _ {ℓ} {VoterId H S T W O X : Type ℓ} ⦃oi : Ord VoterId⦄ ⦃oh : Ord H⦄ ⦃es : Eq S⦄
    (env : Environment VoterId H T W O X) (N : ℕ) where
  import_unless-Keeps :
      (c : RoundCommitter VoterId H S T) (commit : Commit H S VoterId) (lower : Bool)
      → Keeps {X = X}
          (λ (s : Running VoterId H S T W O). count_concluded s.shared.calls ≡ N)
          (import_unless env c commit lower)
  unfolding import_unless
  import_unless-Keeps c commit true s e = e
  import_unless-Keeps c commit false s e =
      Leaves->>= _ (check_and_import_from_commit env commit) _ s
        (FollowsStages-Keeps N _ (check_and_import_from_commit-FollowsStages env commit) s e)
        (λ base t h. h)

  import_all-Keeps :
      (commits : List (Commit H S VoterId)) (c : RoundCommitter VoterId H S T)
      → Keeps {X = X}
          (λ (s : Running VoterId H S T W O). count_concluded s.shared.calls ≡ N)
          (import_all env commits c)
  unfolding import_all import_commit
  import_all-Keeps [] c s e = e
  import_all-Keeps (commit ∷ more) c s e =
      Leaves->>= _ (import_commit env c commit) _ s (import_unless-Keeps c commit _ s e)
        (λ imported t h. import_all-Keeps more (imported.1) t h)

  commit_when-Keeps :
      (c : RoundCommitter VoterId H S T) (answered : Poll (Answer X (Unit {0})))
      → Keeps {X = X}
          (λ (s : Running VoterId H S T W O). count_concluded s.shared.calls ≡ N)
          (commit_when c answered)
  unfolding commit_when
  commit_when-Keeps c pending s e = e
  commit_when-Keeps c (ready (fault x)) s e = e
  commit_when-Keeps c (ready (fine _)) s e = e

  commit-Keeps :
      (polled : Polled VoterId H S T W O X) (c : RoundCommitter VoterId H S T)
      → Keeps {X = X}
          (λ (s : Running VoterId H S T W O). count_concluded s.shared.calls ≡ N)
          (commit env polled c)
  unfolding commit
  commit-Keeps polled c =
      Keeps->>= _ (import_all env c.import_commits (record c { import_commits = [] })) _
        (import_all-Keeps c.import_commits (record c { import_commits = [] }))
        (λ c'. commit_when-Keeps c' (polled.timer c'.commit_timer))

  after_commit-Keeps :
      (p : Poll (Option (Commit H S VoterId)) × RoundCommitter VoterId H S T)
      → Keeps {X = X}
          (λ (b : Background VoterId H S T W O). count_concluded b.shared.calls ≡ N)
          (after_commit p)
  unfolding after_commit set_committer conclude
  after_commit-Keeps (ready none, c) b e = e
  after_commit-Keeps (ready (some d), c) b e = e
  after_commit-Keeps (pending, c) b e = e

  with_committer-Keeps :
      (polled : Polled VoterId H S T W O X) (c : Option (RoundCommitter VoterId H S T))
      → Keeps {X = X}
          (λ (b : Background VoterId H S T W O). count_concluded b.shared.calls ≡ N)
          (with_committer env polled c)
  unfolding with_committer conclude
  with_committer-Keeps polled none = λ b e. e
  with_committer-Keeps polled (some c) =
      Keeps->>= _ (on_inner (commit env polled c)) _ (on_inner-Keeps N _ (commit-Keeps polled c))
        after_commit-Keeps

  -- A background round never tells that it is concluded: only the collection does.
  pub poll-Keeps :
      (polled : Polled VoterId H S T W O X)
      → Keeps {X = X}
          (λ (b : Background VoterId H S T W O). count_concluded b.shared.calls ≡ N)
          (Background.poll env polled)
  unfolding Background.poll set_committer
  poll-Keeps polled =
      Keeps->>= _ (on_inner (VotingRound.poll env polled)) _
        (on_inner-Keeps N _ (FollowsStages-Keeps N _ (poll-FollowsStages env polled)))
        (λ _ b e. with_committer-Keeps polled b.background.round_committer _ e)
