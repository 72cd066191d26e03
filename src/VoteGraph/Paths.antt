-- ===== src/VoteGraph/Paths.antt =====
-- Loops that go from vote-node to vote-node. A loop that ends comes to no vote-node twice, so as many
-- rounds as there are vote-nodes are enough.
use finality_grandpa.Base.{
  ℕ, zero, suc, ◌<◌, ◌≡◌, Bool, true, false, Option, none, some, [], length, Ord, arith, refl, ap,
  sym, subst, ◌∙◌, inl, inr, Option-cases, Bool-cases,
}
use finality_grandpa.Base.BTreeMap
use finality_grandpa.Base.BTreeMap.{BTreeMap}
use finality_grandpa.Base.BTreeSet
use finality_grandpa.Base.BTreeSet.{BTreeSet, contains-insert}
use finality_grandpa.VoteGraph.{Entry}
use finality_grandpa.VoteGraph.Search.Terminates.{
  unvisited, unvisited-le-length, unvisited-insert-lt,
}

false≢true : false ≡ true → ⊥
false≢true e = cc

-- What a round says: it fails, ends the loop, or goes on.
abbrev pub after {ℓ} : {H : Type ℓ} → (H → Bool) → Option (Option H) → Bool
after rest none = false
after rest (some none) = true
after rest (some (some p)) = rest p

pub after-imp {ℓ} :
    {H : Type ℓ} (f g : H → Bool)
    → ((p : H) → f p ≡ true → g p ≡ true)
    → (next : Option (Option H)) → after f next ≡ true
    → after g next ≡ true
after-imp f g h none e = e
after-imp f g h (some none) e = e
after-imp f g h (some (some p)) e = h p e

module _ {ℓ} {H : Type ℓ} (step : H → Option (Option H)) where
  -- Whether a loop ends within a number of rounds.
  unfoldable pub ends : ℕ → H → Bool
  ends zero h = false
  ends (suc n) h = after (ends n) (step h)

  pub ends_at :
      (n : ℕ) (h : H) (next : Option (Option H))
      → step h ≡ next
      → ends (suc n) h ≡ after (ends n) next
  unfolding ends
  ends_at n h next q = ap (after (ends n)) q

  ends-suc : (n : ℕ) (h : H) → ends n h ≡ true → ends (suc n) h ≡ true
  unfolding ends
  ends-suc zero h e = ground arith
  ends-suc (suc n) h e = after-imp (ends n) (ends (suc n)) (ends-suc n) (step h) e

  ends-less : (n : ℕ) (h : H) → ends (suc n) h ≡ false → ends n h ≡ false
  ends-less n h e = elim (Bool-cases (ends n h)) [
    | inl t ↦ ground (arith, e, ends-suc n h t)
    | inr f ↦ f
  ]

module _ {ℓ κ} {H : Type ℓ} {V : Type κ} ⦃o : Ord H⦄ (m : BTreeMap H (Entry H V))
    (step : H → Option (Option H))
    (at_nodes : (h p : H)
      → step h ≡ some (some p)
      → (e : Entry H V) × (BTreeMap.get m h ≡ some e)) where
  insert-ends :
      (n : ℕ) (h : H) (visited : BTreeSet H)
      → ends step n h ≡ false
      → ((v : H) → BTreeSet.contains visited v ≡ true → ends step n v ≡ false)
      → (v : H) → BTreeSet.contains (BTreeSet.insert visited h) v ≡ true
      → ends step n v ≡ false
  insert-ends n h visited e before v there =
      ground (arith, e, before v, there, contains-insert visited h v, o.cmp_eq v h)

  -- The nodes visited so far are those from which the loop takes more rounds.
  ends-unvisited :
      (n : ℕ) (h : H) (visited : BTreeSet H) (k : ℕ)
      → ends step n h ≡ true
      → ((v : H) → BTreeSet.contains visited v ≡ true → ends step n v ≡ false)
      → unvisited m visited < k
      → ends step k h ≡ true
  unfolding ends
  ends-unvisited zero h visited k e before less = ground arith
  ends-unvisited (suc n) h visited zero e before less = ground arith
  ends-unvisited (suc n) h visited (suc k) e before less = elim (Bool-cases (ends step n h)) [
    | inl t ↦
        ends-unvisited n h visited (suc k) t (λ v there. ends-less step n v (before v there)) less
    | inr f ↦ elim (Option-cases (step h)) [
      | inl q ↦ absurd (false≢true (subst (λ x. after (ends step n) x ≡ true) q e))
      | inr (none, q) ↦ subst (λ x. after (ends step k) x ≡ true) (sym q) refl
      | inr (some p, q) ↦
          subst (λ x. after (ends step k) x ≡ true) (sym q)
            (ends-unvisited n p (BTreeSet.insert visited h) k
              (subst (λ x. after (ends step n) x ≡ true) q e)
              (insert-ends n h visited f (λ v there. ends-less step n v (before v there)))
              (fewer p q))
    ]
  ]
    where
      new : BTreeSet.contains visited h ≡ false
      new = elim (Bool-cases (BTreeSet.contains visited h)) [
        | inl old ↦ absurd (false≢true (sym (before h old) ∙ e))
        | inr fresh ↦ fresh
      ]

      fewer : (p : H) → step h ≡ some (some p) → unvisited m (BTreeSet.insert visited h) < k
      fewer p q =
          let (entry, found) = at_nodes h p q in
          omega (arith, less, unvisited-insert-lt m visited h entry found new)

  -- A loop that ends within some number of rounds ends within one round for each vote-node and one
  -- more.
  pub ends-length : (n : ℕ) (h : H) → ends step n h ≡ true → ends step (suc (length m)) h ≡ true
  unfolding BTreeSet.contains
  ends-length n h e =
      ends-unvisited n h [] (suc (length m)) e (λ v there. none_visited v there)
        (omega (arith, unvisited-le-length m []))
    where
      none_visited : (v : H) → BTreeSet.contains [] v ≡ true → ends step n v ≡ false
      none_visited v there = ground arith
