-- ===== src/VoteGraph/Ancestor/Walk.antt =====
-- What `VoteGraph::find_ancestor` finds.
use finality_grandpa.Base.{
  ℕ, zero, suc, ◌≡◌, sym, ◌∙◌, Bool, true, false, none, some, List, [], ◌∷◌, Ord, Outcome, ok,
  expect, ◌⊎◌, inl, inr, subst, Option-cases, Bool-cases, Outcome-cases, Ensures, Ensures->>=,
  anything, Ensures-ok, first, last, get_elem?, ◌-◌, ◌+◌, ◌<◌, arith, refl, Option, All, All-last,
}
use finality_grandpa.Base.BTreeMap
use finality_grandpa.Base.BTreeMap.{BTreeMap}
use finality_grandpa.VoteGraph.{VoteGraph, VoteData, Entry}
use finality_grandpa.VoteGraph.Search.{find_containing_nodes}
use finality_grandpa.VoteGraph.Search.Sound.{Contains, find_containing_nodes_lem}
use finality_grandpa.VoteGraph.Ancestor.{
  Round, finished, parent, sum_votes, cumulative_vote, at_node, at_edge, ancestor_round,
  find_ancestor_from, rounds, find_ancestor, step_to,
}

pub ok-injective {ℓ} : {A : Type ℓ} {x y : A} → ok x ≡ ok y → x ≡ y
ok-injective e = cc

true≢false : true ≡ false → ⊥
true≢false e = cc

some-injective {ℓ} : {A : Type ℓ} {x y : A} → some x ≡ some y → x ≡ y
some-injective e = cc

expect-Ensures {ℓ} : {A : Type ℓ} (x : Option A) → Ensures (λ a. x ≡ some a) (expect x)
expect-Ensures none = tt
expect-Ensures (some a) = refl

module _ {ℓ κ} {H : Type ℓ} {V : Type κ} ⦃o : Ord H⦄ where
  -- The parent of a block in the graph, one number below it: that of a vote-node is the first of its
  -- ancestors, and that of a block between vote-nodes stands next to it in the ancestors of a
  -- vote-node, at the place of its number.
  abbrev pub IsParent : VoteGraph H V → H × ℕ → H × ℕ → Type (ℓ ⊔ κ)
  IsParent g (h, n) (h', n') =
      ((e : Entry H V) × (BTreeMap.get g.entries h ≡ some e)
        × (first e.ancestors ≡ some h')
        × (e.number ≡ n' + 1))
      ⊎ ((key : H) × (e : Entry H V) × (BTreeMap.get g.entries h ≡ none)
          × (BTreeMap.get g.entries key ≡ some e)
          × (n < e.number)
          × (get_elem? e.ancestors (e.number - n - 1) ≡ some h)
          × (get_elem? e.ancestors (e.number - n) ≡ some h')
          × (n ≡ n' + 1))

  -- A round whose condition fails finds no block, and goes on only at the parent.
  abbrev StepsBack : VoteGraph H V → H → ℕ → Round H → Type (ℓ ⊔ κ)
  StepsBack g h n (finished none) = Unit
  StepsBack g h n (finished (some b)) = ⊥ × IsParent g (h, n) b
  StepsBack g h n (parent h' n') = IsParent g (h, n) (h', n')

  edge-IsParent :
      (g : VoteGraph H V) (key h h' : H) (n n' : ℕ) (e : Entry H V)
      → BTreeMap.get g.entries h ≡ none
      → BTreeMap.get g.entries key ≡ some e
      → get_elem? e.ancestors (e.number - n) ≡ some h'
      → n ≡ n' + 1
      → Contains g.entries h n key
      → IsParent g (h, n) (h', n')
  edge-IsParent g key h h' n n' e missing found there q (e', found', above, here) =
      let same : e' ≡ e = some-injective (sym found' ∙ found) in
      inr (key, e, missing, found, rw same at above, rw same at here, there, q)

module _ {ℓ κ} {H : Type ℓ} {V : Type κ} ⦃o : Ord H⦄ ⦃d : VoteData V⦄ where
  -- A round of the loop whose condition fails.
  abbrev pub back : VoteGraph H V → H → ℕ → Outcome (Round H)
  back g hash number = ancestor_round g hash number (λ _. false)

  -- A round tests the cumulative vote of the block, or it does not depend on the condition.
  abbrev pub RoundCases : VoteGraph H V → H → ℕ → Type (ℓ ⊔ κ)
  RoundCases g hash number =
      ((v : V) × (cumulative_vote g hash number ≡ ok v)
        × ((c : V → Bool)
            → c v ≡ true
            → ancestor_round g hash number c ≡ ok (finished (some (hash, number))))
        × ((c : V → Bool) → c v ≡ false → ancestor_round g hash number c ≡ back g hash number))
      ⊎ ((c : V → Bool) → ancestor_round g hash number c ≡ back g hash number)

  node_cases :
      (g : VoteGraph H V) (hash : H) (number : ℕ)
      → find_containing_nodes g hash number ≡ ok none
      → RoundCases g hash number
  unfolding ancestor_round cumulative_vote at_node
  node_cases g hash number e = elim (Option-cases (BTreeMap.get g.entries hash)) [
    | inl missing ↦ inr (λ c. rw (e, missing))
    | inr (node, found) ↦ inl (
      node.cumulative_vote,
      rw (e, found),
      λ c yes. rw (e, found, yes, at_node),
      λ c no. rw (e, found, no, at_node),
    )
  ]

  edge_cases :
      (g : VoteGraph H V) (hash : H) (number : ℕ) (children : List H)
      → find_containing_nodes g hash number ≡ ok (some children)
      → RoundCases g hash number
  unfolding ancestor_round cumulative_vote
  edge_cases g hash number [] e = inr (λ c. rw e)
  edge_cases g hash number (x ∷ xs) e =
      elim (Outcome-cases (sum_votes g.entries d.default (x ∷ xs))) [
        | inl (v, sum) ↦ inl (v, rw (e, sum), λ c yes. rw (e, sum, yes), λ c no. rw (e, sum, no))
        | inr (inl (x, sum)) ↦ inr (λ c. rw (e, sum))
        | inr (inr sum) ↦ inr (λ c. rw (e, sum))
      ]

  pub round_cases : (g : VoteGraph H V) (hash : H) (number : ℕ) → RoundCases g hash number
  unfolding ancestor_round
  round_cases g hash number = elim (Outcome-cases (find_containing_nodes g hash number)) [
    | inl (none, e) ↦ node_cases g hash number e
    | inl (some children, e) ↦ edge_cases g hash number children e
    | inr (inl (x, e)) ↦ inr (λ c. rw (e, ancestor_round))
    | inr (inr e) ↦ inr (λ c. rw (e, ancestor_round))
  ]

  step_to-StepsBack :
      (g : VoteGraph H V) (h a : H) (n k : ℕ)
      → ((n' : ℕ) → k ≡ n' + 1 → IsParent g (h, n) (a, n'))
      → Ensures (StepsBack g h n) (step_to a k)
  unfolding step_to
  step_to-StepsBack g h a n zero p = tt
  step_to-StepsBack g h a n (suc k) p = p k (omega arith)

  at_node-StepsBack :
      (g : VoteGraph H V) (node : Entry H V) (h : H) (n : ℕ)
      → BTreeMap.get g.entries h ≡ some node
      → Ensures (StepsBack g h n) (at_node node h n (λ _. false))
  unfolding at_node
  at_node-StepsBack g node h n found = elim (Option-cases (first node.ancestors)) [
    | inl e ↦ rw (at_node, e) tt
    | inr (a, e) ↦
        rw (at_node, e) (step_to-StepsBack g h a n node.number (λ n' q. inl (node, found, e, q)))
  ]

  at_edge-StepsBack :
      (g : VoteGraph H V) (children : List H) (h : H) (n : ℕ)
      → BTreeMap.get g.entries h ≡ none
      → All (Contains g.entries h n) children
      → Ensures (StepsBack g h n) (at_edge g.entries children h n (λ _. false))
  unfolding at_edge
  at_edge-StepsBack g [] h n missing contained = tt
  at_edge-StepsBack g (c ∷ children) h n missing contained =
      Ensures->>= (λ _. Unit {0}) (StepsBack g h n) (sum_votes g.entries d.default (c ∷ children)) _
        (anything _)
        λ v _.
          Ensures->>= (λ child. last (c ∷ children) ≡ some child) (StepsBack g h n)
            (expect (last (c ∷ children))) _ (expect-Ensures _)
            λ child is_last.
              Ensures->>= (λ entry. BTreeMap.get g.entries child ≡ some entry) (StepsBack g h n)
                (expect (BTreeMap.get g.entries child)) _ (expect-Ensures _)
                λ entry found. elim (Option-cases (get_elem? entry.ancestors (entry.number - n))) [
                  | inl e ↦ rw e tt
                  | inr (a, e) ↦ rw e (
                      step_to-StepsBack g h a n n (λ n' q.
                        edge-IsParent g child h a n n' entry missing found e q (
                          All-last (Contains g.entries h n) (c ∷ children) child contained
                            is_last)))
                ]

  back-StepsBack : (g : VoteGraph H V) (h : H) (n : ℕ) → Ensures (StepsBack g h n) (back g h n)
  unfolding ancestor_round
  back-StepsBack g h n = elim (Outcome-cases (find_containing_nodes g h n)) [
    | inl (none, e) ↦ elim (Option-cases (BTreeMap.get g.entries h)) [
      | inl missing ↦ rw (e, missing) tt
      | inr (node, found) ↦ rw (e, found) (at_node-StepsBack g node h n found)
    ]
    | inl (some children, e) ↦
        let (missing, contained) = find_containing_nodes_lem g h n (some children) e in
        rw e (at_edge-StepsBack g children h n missing contained)
    | inr (inl (x, e)) ↦ rw e tt
    | inr (inr e) ↦ rw e tt
  ]

  pub back-IsParent :
      (g : VoteGraph H V) (h h' : H) (n n' : ℕ)
      → back g h n ≡ ok (parent h' n')
      → IsParent g (h, n) (h', n')
  back-IsParent g h h' n n' q = Ensures-ok (StepsBack g h n) _ _ q (back-StepsBack g h n)

  -- The block is the other one or comes before it: it is reached by going from parent to parent.
  pub data LeadsTo (g : VoteGraph H V) : H × ℕ → H × ℕ → Type (ℓ ⊔ κ) where
    here : {b : H × ℕ} → LeadsTo g b b
    up :
        {h : H} {n : ℕ} {h' : H} {n' : ℕ} {b : H × ℕ}
        → IsParent g (h, n) (h', n')
        → LeadsTo g (h', n') b
        → LeadsTo g (h, n) b

  -- A search that goes on after a round finds what it finds from the parent.
  goes_on :
      (fuel : ℕ) (g : VoteGraph H V) (h : H) (n : ℕ) (c : V → Bool) (b : H × ℕ)
      → ancestor_round g h n c ≡ back g h n
      → find_ancestor_from (suc fuel) g h n c ≡ ok (some b)
      → (h' : H) × (n' : ℕ) × (back g h n ≡ ok (parent h' n'))
        × (find_ancestor_from fuel g h' n' c ≡ ok (some b))
  unfolding find_ancestor_from
  goes_on fuel g h n c b same e = elim (Outcome-cases (back g h n)) [
    | inl (finished none, q) ↦ absurd (let e' = rw (same ∙ q, find_ancestor_from) at e in cc)
    | inl (finished (some x), q) ↦
        absurd ((Ensures-ok (StepsBack g h n) _ _ q (back-StepsBack g h n)).0)
    | inl (parent h' n', q) ↦ (h', n', q, rw (same ∙ q, find_ancestor_from) at e)
    | inr (inl (x, q)) ↦ absurd (let e' = rw (same ∙ q, find_ancestor_from) at e in cc)
    | inr (inr q) ↦ absurd (let e' = rw (same ∙ q, find_ancestor_from) at e in cc)
  ]

  -- The block has a cumulative vote that meets the condition, and the loop comes to it.
  abbrev pub IsFound : VoteGraph H V → (V → Bool) → H × ℕ → H × ℕ → Type (ℓ ⊔ κ)
  IsFound g c start b =
      ((v : V) × (cumulative_vote g (b.0) (b.1) ≡ ok v) × (c v ≡ true)) × LeadsTo g start b

  find_ancestor_from-IsFound :
      (fuel : ℕ) (g : VoteGraph H V) (h : H) (n : ℕ) (c : V → Bool) (b : H × ℕ)
      → find_ancestor_from fuel g h n c ≡ ok (some b)
      → IsFound g c (h, n) b
  unfolding find_ancestor_from
  find_ancestor_from-IsFound zero g h n c b e = absurd cc
  find_ancestor_from-IsFound (suc fuel) g h n c b e =
      let further : ancestor_round g h n c ≡ back g h n → IsFound g c (h, n) b = λ same.
        let (h', n', q, rest) = goes_on fuel g h n c b same e in
        let (vote, way) = find_ancestor_from-IsFound fuel g h' n' c b rest in
        (vote, LeadsTo.up (back-IsParent g h h' n n' q) way) in
      elim (round_cases g h n) [
        | inr same ↦ further (same c)
        | inl (v, vote, stops, goes) ↦ elim (Bool-cases (c v)) [
          | inr fails ↦ further (goes c fails)
          | inl meets ↦
              let found : some (h, n) ≡ some b =
                ok-injective (rw (stops c meets, find_ancestor_from) at e) in
              subst (IsFound g c (h, n)) (some-injective found) ((v, vote, meets), LeadsTo.here)
        ]
      ]

  find_ancestor_from_weaker :
      (fuel : ℕ) (g : VoteGraph H V) (h : H) (n : ℕ) (c c' : V → Bool) (b : H × ℕ)
      → ((v : V) → c v ≡ true → c' v ≡ true)
      → find_ancestor_from fuel g h n c ≡ ok (some b)
      → (b' : H × ℕ) × (find_ancestor_from fuel g h n c' ≡ ok (some b')) × LeadsTo g b' b
  unfolding find_ancestor_from
  find_ancestor_from_weaker zero g h n c c' b weaker e = absurd cc
  find_ancestor_from_weaker (suc fuel) g h n c c' b weaker e =
      let further : ancestor_round g h n c ≡ back g h n
          → ancestor_round g h n c' ≡ back g h n
          → (b' : H × ℕ) × (find_ancestor_from (suc fuel) g h n c' ≡ ok (some b'))
            × LeadsTo g b' b =
        λ same same'.
          let (h', n', q, rest) = goes_on fuel g h n c b same e in
          let (b', found, way) = find_ancestor_from_weaker fuel g h' n' c c' b weaker rest in
          (b', rw (same' ∙ q, find_ancestor_from) found, way) in
      elim (round_cases g h n) [
        | inr same ↦ further (same c) (same c')
        | inl (v, vote, stops, goes) ↦ elim (Bool-cases (c' v)) [
          | inl meets ↦ (
            (h, n),
            rw (stops c' meets, find_ancestor_from),
            (find_ancestor_from-IsFound (suc fuel) g h n c b e).1,
          )
          | inr fails ↦
              further
                (goes c (elim (Bool-cases (c v)) [
                  | inr e' ↦ e'
                  | inl e' ↦ absurd (true≢false (sym (weaker v e') ∙ fails))
                ]))
                (goes c' fails)
        ]
      ]

  -- When `find_ancestor` finds a block, the cumulative vote of the block meets the condition, and the
  -- block is the start of the search or is reached from it by going from parent to parent.
  pub find_ancestor-IsFound :
      (g : VoteGraph H V) (h : H) (n : ℕ) (c : V → Bool) (b : H × ℕ)
      → find_ancestor g h n c ≡ ok (some b)
      → IsFound g c (h, n) b
  unfolding find_ancestor
  find_ancestor-IsFound g h n c b e = find_ancestor_from-IsFound (rounds g n) g h n c b e

  -- When `find_ancestor` finds a block, then with a weaker condition it finds a block too, from which
  -- going from parent to parent leads to the first.
  pub find_ancestor_weaker :
      (g : VoteGraph H V) (h : H) (n : ℕ) (c c' : V → Bool) (b : H × ℕ)
      → ((v : V) → c v ≡ true → c' v ≡ true)
      → find_ancestor g h n c ≡ ok (some b)
      → (b' : H × ℕ) × (find_ancestor g h n c' ≡ ok (some b')) × LeadsTo g b' b
  unfolding find_ancestor
  find_ancestor_weaker g h n c c' b weaker e =
      find_ancestor_from_weaker (rounds g n) g h n c c' b weaker e
