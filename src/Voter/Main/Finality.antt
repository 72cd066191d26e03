-- ===== src/Voter/Main/Finality.antt =====
-- What the voter tells of finality, and in which order.
use mathlib.Core.List.{append_assoc, append-nil}
use finality_grandpa.Base.{
  ℕ, ◌<◌, Bool, true, false, ltb, ltb→lt, List, [], ◌∷◌, ◌++◌, ◌≡◌, refl, sym, ap, ◌∙◌,
}
use finality_grandpa.Messages.{Commit}
use finality_grandpa.Voter.Call.{Answer, fine, fault, Leaves, Leaves-imp, Leaves->>=, answer, ◌>>◌}
use finality_grandpa.Voter.Environment.{Told, FinalizedNotification}
use finality_grandpa.Voter.PastRounds
use finality_grandpa.Voter.Main.{
  Voter, raised_to, set_last_finalized_number, raise_finalized, finalize_when, note_in_rounds,
  on_finalized, handle_finalized,
}

-- Calls that tell only of finalized blocks, each higher than all before, from a number to a number.
pub data Rises {ℓ} {VoterId H S : Type ℓ} : ℕ → List (Told VoterId H S) → ℕ → Type ℓ where
  stays : (n : ℕ) → Rises n [] n
  finalizes :
      {n k : ℕ} (h : H) (m round : ℕ) (commit : Commit H S VoterId) (cs : List (Told VoterId H S))
      → n < m
      → Rises m cs k
      → Rises n (Told.finalize_block h m round commit ∷ cs) k

module _ {ℓ} {VoterId H S : Type ℓ} where
  Rises-append :
      {i j k : ℕ} (cs ds : List (Told VoterId H S))
      → Rises i cs j
      → Rises j ds k
      → Rises i (cs ++ ds) k
  Rises-append _ ds (Rises.stays n) g = g
  Rises-append _ ds (Rises.finalizes h m r c cs l f) g =
      Rises.finalizes h m r c (cs ++ ds) l (Rises-append cs ds f g)

module _ {ℓ} {VoterId H S T W O G : Type ℓ} where
  -- What has been told since is of rising numbers, up to the last finalized number.
  abbrev pub HasRisen : ℕ → List (Told VoterId H S) → Voter VoterId H S T W O G → Type ℓ
  HasRisen n calls t =
      (cs : List (Told VoterId H S)) × (t.shared.calls ≡ calls ++ cs)
      × Rises n cs t.last_finalized_number

  HasRisen-trans :
      (n : ℕ) (calls : List (Told VoterId H S)) (s t : Voter VoterId H S T W O G)
      → HasRisen n calls s
      → HasRisen s.last_finalized_number s.shared.calls t
      → HasRisen n calls t
  HasRisen-trans n calls s t (cs, e, f) (ds, e', g) =
      (cs ++ ds, e' ∙ ap (λ l. l ++ ds) e ∙ append_assoc calls cs ds, Rises-append cs ds f g)

module _ {ℓ} {VoterId H S T W O G X : Type ℓ}
    (answers : Told VoterId H S → Answer X (Unit {0})) where
  finalize-HasRisen :
      (n : FinalizedNotification VoterId H S) (v : Voter VoterId H S T W O G) (risen : Bool)
      → ltb v.last_finalized_number n.f_num ≡ risen
      → Leaves (HasRisen v.last_finalized_number v.shared.calls) (
          (finalize_when answers n ((raised_to v n.f_num risen).0)
              >> note_in_rounds n.f_hash n.f_num)
            ((raised_to v n.f_num risen).1))
  unfolding finalize_when raised_to note_in_rounds
  finalize-HasRisen n v false e = ([], sym (append-nil v.shared.calls), Rises.stays _)
  finalize-HasRisen n v true e =
      told (answers (Told.finalize_block n.f_hash n.f_num n.round n.commit))
    where
      told :
          (a : Answer X (Unit {0}))
          → Leaves (HasRisen v.last_finalized_number v.shared.calls) (
              (answer a >> note_in_rounds n.f_hash n.f_num) (record v {
                last_finalized_number = n.f_num;
                shared = record v.shared {
                  calls =
                      v.shared.calls ++ Told.finalize_block n.f_hash n.f_num n.round n.commit ∷ [];
                };
              }))
      told (fine _) = (_, refl, Rises.finalizes _ _ _ _ [] (ltb→lt _ _ e) (Rises.stays _))
      told (fault x) = (_, refl, Rises.finalizes _ _ _ _ [] (ltb→lt _ _ e) (Rises.stays _))

  on_finalized-HasRisen :
      (n : FinalizedNotification VoterId H S) (v : Voter VoterId H S T W O G)
      → Leaves (HasRisen v.last_finalized_number v.shared.calls) (on_finalized answers n v)
  unfolding on_finalized raise_finalized set_last_finalized_number
  on_finalized-HasRisen n v =
      finalize-HasRisen n
        (record v { past_rounds = PastRounds.update_finalized v.past_rounds n.f_num }) _ refl

  -- However the work of the voter on the notifications of finalized blocks ends, short of a panic,
  -- the environment has been told only of finalized blocks, each with a higher number than all before
  -- and than the last finalized number was, and the last finalized number is that of the last of
  -- them, or as before if there is none.
  pub handle_finalized-HasRisen :
      (ns : List (FinalizedNotification VoterId H S)) (v : Voter VoterId H S T W O G)
      → Leaves (HasRisen v.last_finalized_number v.shared.calls) (handle_finalized answers ns v)
  unfolding handle_finalized
  handle_finalized-HasRisen [] v = ([], sym (append-nil v.shared.calls), Rises.stays _)
  handle_finalized-HasRisen (n ∷ ns) v =
      Leaves->>= (HasRisen v.last_finalized_number v.shared.calls) (on_finalized answers n) _
        (record v { shared = record v.shared { notifications = ns } })
        (on_finalized-HasRisen n (record v { shared = record v.shared { notifications = ns } }))
        (λ _ t risen.
          Leaves-imp (handle_finalized answers ns t) (handle_finalized-HasRisen ns t)
            (λ u. HasRisen-trans _ _ t u risen))
