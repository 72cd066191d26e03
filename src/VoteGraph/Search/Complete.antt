-- ===== src/VoteGraph/Search/Complete.antt =====
-- The search for containing nodes finds all of them that it can reach, and no other.
use mathlib.Core.List.{Memᴰ}
use finality_grandpa.Base.{
  ℕ, zero, suc, ◌-◌, ◌≤◌, ◌<◌, ◌≡◌, ◌⊎◌, inl, inr, refl, sym, ◌∙◌, subst, arith, true, false, leb,
  Option, none, some, List, [], ◌∷◌, length, last, get_elem?, Ord, eqb_iff, Outcome, ok, err, panic,
  ◌↔◌, ◌>>=◌, Bool-cases, Option-cases, All, All-append, Ensures, Ensures->>=,
}
use finality_grandpa.Base.BTreeMap
use finality_grandpa.Base.BTreeMap.{BTreeMap}
use finality_grandpa.Base.BTreeSet
use finality_grandpa.Base.BTreeSet.{BTreeSet}
use finality_grandpa.VoteGraph.{VoteGraph, Entry, in_direct_ancestry, ancestor_block, ancestor_node}
use finality_grandpa.VoteGraph.Search.{walk, walk_heads, find_containing_nodes}
use finality_grandpa.VoteGraph.Search.Sound.{Contains, find_containing_nodes_lem}
use finality_grandpa.VoteGraph.Search.Closed.{
  none≢some, Covered, IsClosed, WalkedAll, walk_heads-IsClosed,
}

module _ {ℓ κ} {A : Type ℓ} (P : A → Type κ) where
  All-Mem : (x : A) (xs : List A) → All P xs → Memᴰ x xs → P x
  All-Mem x _ h (Memᴰ.head q) = subst P (sym q) (h.0)
  All-Mem x _ h (Memᴰ.tail there) = All-Mem x _ h.1 there

module _ {ℓ κ} {H : Type ℓ} {V : Type κ} where
  -- The ancestors of a node that go on beyond it do not say which block has the number.
  abbrev pub IsUndecided : Entry H V → ℕ → Type ℓ
  IsUndecided e number =
      ((_ : Unit {ℓ}) × (e.number ≤ number))
      ⊎ (get_elem? e.ancestors (e.number - number - 1) ≡ none)

module _ {ℓ κ} {H : Type ℓ} {V : Type κ} ⦃o : Ord H⦄ where
  -- The heads, and the ancestor node of a node that does not decide the question.
  pub data Reached (g : VoteGraph H V) (number : ℕ) : H → Type (ℓ ⊔ κ) where
    head : {key : H} → Memᴰ key g.heads → Reached g number key
    back :
        {key : H} (e : Entry H V) {p : H}
        → Reached g number key
        → BTreeMap.get g.entries key ≡ some e
        → IsUndecided e number
        → last e.ancestors ≡ some p
        → Reached g number p

  undecided :
      (e : Entry H V) (hash : H) (number : ℕ)
      → in_direct_ancestry e hash number ≡ none
      → IsUndecided e number
  unfolding in_direct_ancestry ancestor_block
  undecided e hash number h = elim (Bool-cases (leb e.number number)) [
    | inl below ↦ inl (tt, ground (arith, below))
    | inr above ↦ inr (elim (Option-cases (get_elem? e.ancestors (e.number - number - 1))) [
      | inl missing ↦ missing
      | inr (x, there) ↦ ground (arith, above, there, h)
    ])
  ]

  undecided-none :
      (e : Entry H V) (hash : H) (number : ℕ)
      → IsUndecided e number
      → in_direct_ancestry e hash number ≡ none
  unfolding in_direct_ancestry ancestor_block
  undecided-none e hash number (inl (_, le)) = ground (arith, le)
  undecided-none e hash number (inr missing) = ground (arith, missing)

  contains_direct :
      (m : BTreeMap H (Entry H V)) (hash : H) (number : ℕ) (key : H) (e : Entry H V)
      → number < e.number
      → get_elem? e.ancestors (e.number - number - 1) ≡ some hash
      → in_direct_ancestry e hash number ≡ some true
  unfolding in_direct_ancestry ancestor_block
  contains_direct m hash number key e above here =
      ground (arith, above, here, (eqb_iff hash hash).1 refl)

module _ {ℓ κ} {H : Type ℓ} {V : Type κ} ⦃o : Ord H⦄ (g : VoteGraph H V) (hash : H)
    (number : ℕ) where
  -- Only nodes that are reached are found.
  walk-Reached :
      (fuel : ℕ) (cur : H) (keys : List H) (visited : BTreeSet H)
      → Reached g number cur
      → All (Reached g number) keys
      → Ensures (λ r. All (Reached g number) r.0) (walk fuel g.entries hash number cur keys visited)
  unfolding walk ancestor_node
  walk-Reached zero cur keys visited there h = tt
  walk-Reached (suc fuel) cur keys visited there h =
      elim (Option-cases (BTreeMap.get g.entries cur)) [
        | inl missing ↦ rw (missing, walk) h
        | inr (e, got) ↦ elim (Bool-cases (BTreeSet.contains visited cur)) [
          | inl old ↦ rw (got, walk) (rw (old, walk) h)
          | inr new ↦ elim (Option-cases (in_direct_ancestry e hash number)) [
            | inl open_ended ↦ elim (Option-cases (last e.ancestors)) [
              | inl first ↦ rw (got, new, open_ended, first, walk) h
              | inr (prev, leads) ↦
                  rw (got, new, open_ended, leads, walk)
                    (walk-Reached fuel prev keys (BTreeSet.insert visited cur)
                      (Reached.back e there got (undecided e hash number open_ended) leads) h)
            ]
            | inr (true, hit) ↦
                rw (got, new, hit, walk)
                  (All-append (Reached g number) keys (cur ∷ []) h (there, tt))
            | inr (false, miss) ↦ rw (got, new, miss, walk) h
          ]
        ]
      ]

  walk_heads-Reached :
      (heads : List H) (keys : List H) (visited : BTreeSet H)
      → ((h : H) → Memᴰ h heads → Reached g number h)
      → All (Reached g number) keys
      → Ensures
          (λ r. All (Reached g number) r.0)
          (walk_heads heads g.entries hash number keys visited)
  unfolding walk_heads
  walk_heads-Reached [] keys visited from h = h
  walk_heads-Reached (cur ∷ heads) keys visited from h =
      Ensures->>= (λ r. All (Reached g number) r.0) (λ r. All (Reached g number) r.0)
        (walk (suc (length g.entries)) g.entries hash number cur keys visited) _
        (walk-Reached (suc (length g.entries)) cur keys visited (from cur (Memᴰ.head refl)) h)
        (λ r h'. walk_heads-Reached heads r.0 r.1 (λ k there. from k (Memᴰ.tail there)) h')

  Reached-Covered :
      (keys : List H) (visited : BTreeSet H)
      → IsClosed g.entries hash number keys visited none
      → ((h : H) → Memᴰ h g.heads → Covered g.entries hash number visited h)
      → (key : H) → Reached g number key
      → Covered g.entries hash number visited key
  Reached-Covered keys visited inv heads _ (Reached.head there) = heads _ there
  Reached-Covered keys visited inv heads _ (Reached.back {key} e {p} before got open_ended leads) =
      elim (Reached-Covered keys visited inv heads key before) [
        | inl missing ↦ absurd (none≢some (sym missing ∙ got))
        | inr (_, seen) ↦
            elim (inv.closed key p e seen got (undecided-none e hash number open_ended) leads) [
              | inl covered ↦ covered
              | inr (_, q) ↦ absurd (none≢some (sym q))
            ]
      ]

  -- At the start nothing has been visited.
  start_closed : IsClosed g.entries hash number [] [] none
  unfolding BTreeSet.contains
  start_closed = record {
    found = λ v e seen got direct. absurd (unseen seen);
    closed = λ v p e seen got direct leads. absurd (unseen seen);
  }
    where
      unseen : false ≡ true → ⊥
      unseen e = cc

  -- What holds of the result of the walks.
  with_keys :
      (keys : List H) (walked : Outcome (List H × BTreeSet H))
      → (walked >>= λ r. ok (some r.0)) ≡ ok (some keys)
      → Ensures (WalkedAll g.entries hash number g.heads []) walked
      → Ensures (λ r. All (Reached g number) r.0) walked
      → (visited : BTreeSet H) × WalkedAll g.entries hash number g.heads [] (keys, visited)
        × All (Reached g number) keys
  with_keys keys (ok (found, visited)) e all reached = (
    visited,
    subst (λ x. WalkedAll g.entries hash number g.heads [] (x, visited)) (same e) all,
    subst (All (Reached g number)) (same e) reached,
  )
    where
      same : ok (some found) ≡ ok (some keys) → found ≡ keys
      same q = cc
  with_keys keys (err x) e all reached = ground arith
  with_keys keys panic e all reached = ground arith

  contained_found :
      (keys : List H) (visited : BTreeSet H)
      → IsClosed g.entries hash number keys visited none
      → (key : H) (e : Entry H V) → BTreeMap.get g.entries key ≡ some e
      → in_direct_ancestry e hash number ≡ some true
      → Covered g.entries hash number visited key
      → Memᴰ key keys
  contained_found keys visited inv key e got direct (inl missing) =
      absurd (none≢some (sym missing ∙ got))
  contained_found keys visited inv key e got direct (inr (_, seen)) =
      inv.found key e seen got direct

  -- What a search says of a node.
  abbrev pub FindsAll : H → Option (List H) → Type (ℓ ⊔ κ)
  FindsAll key none = (e : Entry H V) × (BTreeMap.get g.entries hash ≡ some e)
  FindsAll key (some keys) =
      (BTreeMap.get g.entries hash ≡ none)
      × (Memᴰ key keys ↔ (Reached g number key × Contains g.entries hash number key))

  -- When the search returns `none`, the block has a vote-node. When it returns nodes, the block has
  -- none, and they are all the vote-nodes that have the block in their ancestors at its number, of
  -- those that are reached from the heads by going back to the ancestor node of a node whose
  -- ancestors do not go back to the number.
  pub find_containing_nodes_iff :
      (key : H) (r : Option (List H)) → find_containing_nodes g hash number ≡ ok r → FindsAll key r
  unfolding find_containing_nodes BTreeSet.contains
  find_containing_nodes_iff key none e = find_containing_nodes_lem g hash number none e
  find_containing_nodes_iff key (some keys) e =
      let (missing, contained) = find_containing_nodes_lem g hash number (some keys) e in
      let computes : (walk_heads g.heads g.entries hash number [] [] >>= λ r. ok (some r.0))
          ≡ ok (some keys) =
        rw (missing, find_containing_nodes) at e in
      let (visited, (inv, heads, _), reached) =
        with_keys keys (walk_heads g.heads g.entries hash number [] []) computes
          (walk_heads-IsClosed g.entries hash number g.heads [] [] start_closed)
          (walk_heads-Reached g.heads [] [] (λ h there. Reached.head there) tt) in
      (
        missing,
        (
          λ there. (
            All-Mem (Reached g number) key keys reached there,
            All-Mem (Contains g.entries hash number) key keys contained there,
          ),
          λ (from, (x, got, above, here)).
              contained_found keys visited inv key x got
                (contains_direct g.entries hash number key x above here)
                (Reached-Covered keys visited inv heads key from),
        ),
      )
