-- ===== src/Graph/Neighbors.antt =====
-- `neighbors` and `neighbor_count`.
use mathlib.Core.Bool.{false≢true}
use solana_whale_intelligenc.Prelude.{
  In-snoc, both→and, ◌≡◌, ◌≢◌, refl, sym, ap, ◌∙◌, subst, ◌⊎◌, ◌↔◌, inl, inr, Bool, true, false,
  not, ◌||◌, List, [], ◌∷◌, String, In, All, any, each, each-keeps, filter, str_eq, if-keeps, arith,
  str_eq→≡, ≡→str_eq, In-any, In-filter, In→filter, and→both, Bool-cases,
}
use solana_whale_intelligenc.Prelude.Sort.{Apart, Apart-snoc}
use solana_whale_intelligenc.Graph.{EdgeType, EntityNode, EntityEdge, is_edge}
use solana_whale_intelligenc.Graph.Readings.{other_ends, touches, add_key, insert_ends, neighbors}

add_key-In : (set : List String) (k u : String) → In u (add_key set k) ↔ (In u set ⊎ (u ≡ k))
unfolding add_key
add_key-In set k u =
    if-keeps (λ l. In u l ↔ (In u set ⊎ (u ≡ k))) (any set (λ l. str_eq l k))
      (λ a. (
        inl,
        elim [
          | inl i ↦ i
          | inr e ↦
              let (v, i, q) = In-any (λ l. str_eq l k) set a in
              subst (λ x. In x set) (str_eq→≡ v k q ∙ sym e) i
        ],
      ))
      (λ _. In-snoc set u k)

insert_all-In :
    (ks set : List String) (u : String) → In u (each add_key set ks) ↔ (In u set ⊎ In u ks)
insert_all-In [] set u = (inl, elim [ inl i ↦ i | inr i ↦ absurd i ])
insert_all-In (k ∷ ks) set u =
    let (f, g) = insert_all-In ks (add_key set k) u in
    let (h, l) = add_key-In set k u in
    (
      λ i. elim (f i) [
        | inr j ↦ inr (inr j)
        | inl j ↦ elim (h j) [ inl m ↦ inl m | inr e ↦ inr (inl e) ]
      ],
      elim [
        | inl i ↦ g (inl (l (inl i)))
        | inr (inl e) ↦ g (inl (l (inr e)))
        | inr (inr j) ↦ g (inr j)
      ],
    )

distinct :
    (node : EntityNode) (k : String) → k ≢ node.entity_key → not (str_eq k node.entity_key) ≡ true
distinct node k n = elim (Bool-cases (str_eq k node.entity_key)) [
  | inl e ↦ absurd (n (str_eq→≡ k node.entity_key e))
  | inr e ↦ ap not e
]

or_cases : (a b : Bool) → (a || b) ≡ true → (a ≡ true) ⊎ (b ≡ true)
or_cases true b h = inl refl
or_cases false b h = inr h

module _ {F : Type 0} (node : EntityNode) where
  insert_ends-In :
      (es : List (EntityEdge F)) (set : List String) (u : String)
      → In u (each (insert_ends node) set es)
        ↔ (In u set ⊎ ((e : EntityEdge F) × In e es × In u (other_ends node e)))
  unfolding insert_ends
  insert_ends-In [] set u = (inl, elim [ inl i ↦ i | inr (e, i, _) ↦ absurd i ])
  insert_ends-In (e ∷ es) set u =
      let (f, g) = insert_ends-In es (insert_ends node set e) u in
      let (h, l) = insert_all-In (other_ends node e) set u in
      (
        λ i. elim (f i) [
          | inr (d, j, q) ↦ inr (d, inr j, q)
          | inl j ↦ elim (h j) [ inl m ↦ inl m | inr q ↦ inr (e, inl refl, q) ]
        ],
        elim [
          | inl i ↦ g (inl (l (inl i)))
          | inr (d, inl q, j) ↦ g (inl (l (inr (subst (λ x. In u (other_ends node x)) q j))))
          | inr (d, inr j, q) ↦ g (inr (d, j, q))
        ],
      )

  -- An edge of the type between the node and another key.
  pub record Joins (edge_type : EdgeType) (k : String) (e : EntityEdge F) : Type 0 where
    typed : is_edge e.edge_type edge_type ≡ true
    other : k ≢ node.entity_key
    ends :
        ((e.from_entity_key ≡ node.entity_key) × (e.to_entity_key ≡ k))
        ⊎ ((e.to_entity_key ≡ node.entity_key) × (e.from_entity_key ≡ k))

  ends_of :
      (k : String) (e : EntityEdge F)
      → k ≢ node.entity_key
      → (e.from_entity_key ≡ node.entity_key) ⊎ (e.to_entity_key ≡ node.entity_key)
      → In k (e.from_entity_key ∷ e.to_entity_key ∷ [])
      → ((e.from_entity_key ≡ node.entity_key) × (e.to_entity_key ≡ k))
        ⊎ ((e.to_entity_key ≡ node.entity_key) × (e.from_entity_key ≡ k))
  ends_of k e n (inl f) (inl q) = absurd (n (q ∙ f))
  ends_of k e n (inl f) (inr (inl q)) = inl (f, sym q)
  ends_of k e n (inr t) (inl q) = inr (t, sym q)
  ends_of k e n (inr t) (inr (inl q)) = absurd (n (q ∙ t))
  ends_of k e n (inl f) (inr (inr i)) = absurd i
  ends_of k e n (inr t) (inr (inr i)) = absurd i

  joins :
      (edge_type : EdgeType) (k : String) (e : EntityEdge F)
      → touches node edge_type e ≡ true
      → In k (other_ends node e)
      → Joins edge_type k e
  unfolding touches other_ends
  joins edge_type k e t i =
      let (j, q) =
        In-filter (λ k. not (str_eq k node.entity_key)) (e.from_entity_key ∷ e.to_entity_key ∷ [])
          i in
      let (a, b) = and→both _ _ t in
      let n : k ≢ node.entity_key =
        λ x. false≢true (ap not (sym (≡→str_eq k node.entity_key x)) ∙ q) in
      record {
        typed = a;
        other = n;
        ends =
            ends_of k e n
              (elim (or_cases _ _ b) [
                | inl f ↦ inl (str_eq→≡ e.from_entity_key node.entity_key f)
                | inr t ↦ inr (str_eq→≡ e.to_entity_key node.entity_key t)
              ])
              j;
      }

  at_an_end :
      (k : String) (e : EntityEdge F)
      → ((e.from_entity_key ≡ node.entity_key) × (e.to_entity_key ≡ k))
        ⊎ ((e.to_entity_key ≡ node.entity_key) × (e.from_entity_key ≡ k))
      → ((str_eq e.from_entity_key node.entity_key || str_eq e.to_entity_key node.entity_key)
          ≡ true)
        × In k (e.from_entity_key ∷ e.to_entity_key ∷ [])
  at_an_end k e (inl (f, t)) =
      (ground (arith, ≡→str_eq e.from_entity_key node.entity_key f), inr (inl (sym t)))
  at_an_end k e (inr (t, f)) =
      (ground (arith, ≡→str_eq e.to_entity_key node.entity_key t), inl (sym f))

  joined :
      (edge_type : EdgeType) (k : String) (e : EntityEdge F)
      → Joins edge_type k e
      → (touches node edge_type e ≡ true) × In k (other_ends node e)
  unfolding touches other_ends
  joined edge_type k e j =
      let (a, i) = at_an_end k e j.ends in
      (
        both→and j.typed a,
        In→filter (λ k. not (str_eq k node.entity_key)) (e.from_entity_key ∷ e.to_entity_key ∷ []) i
            (distinct node k j.other),
      )

  -- The neighbors that are counted are the keys other than the node's that an edge of the type joins
  -- to it, in either direction.
  pub neighbors-Joins :
      (edges : List (EntityEdge F)) (edge_type : EdgeType) (k : String)
      → In k (neighbors node edges edge_type)
        ↔ ((e : EntityEdge F) × In e edges × Joins edge_type k e)
  unfolding neighbors
  neighbors-Joins edges edge_type k =
      let (f, g) = insert_ends-In (filter (touches node edge_type) edges) [] k in
      (
        λ i. elim (f i) [
          | inl j ↦ absurd j
          | inr (e, j, l) ↦
              let (m, t) = In-filter (touches node edge_type) edges j in
              (e, m, joins edge_type k e t l)
        ],
        λ (e, i, j).
            let (t, l) = joined edge_type k e j in
            g (inr (e, In→filter (touches node edge_type) edges i t, l)),
      )

absent_everywhere :
    (set : List String) (k : String) → any set (λ l. str_eq l k) ≡ false → All (λ l. l ≢ k) set
absent_everywhere [] k h = tt
absent_everywhere (l ∷ set) k h = (
  (λ e. false≢true (sym (ground arith) ∙ ≡→str_eq l k e)),
  absent_everywhere set k (ground arith),
)

add_key-Apart :
    (set : List String) (k : String)
    → Apart (λ s t. s ≢ t) set
    → Apart (λ s t. s ≢ t) (add_key set k)
unfolding add_key
add_key-Apart set k h =
    if-keeps (Apart (λ s t. s ≢ t)) (any set (λ l. str_eq l k)) (λ _. h)
      (λ n. Apart-snoc (λ s t. s ≢ t) set k h (absent_everywhere set k n))

-- And each of them is counted once.
pub neighbors-Apart :
    {F : Type 0} (node : EntityNode) (edges : List (EntityEdge F)) (edge_type : EdgeType)
    → Apart (λ s t. s ≢ t) (neighbors node edges edge_type)
unfolding neighbors insert_ends
neighbors-Apart node edges edge_type =
    each-keeps (Apart (λ s t. s ≢ t)) (insert_ends node) (filter (touches node edge_type) edges)
      (λ set e _.
        each-keeps (Apart (λ s t. s ≢ t)) add_key (other_ends node e) (λ l k _. add_key-Apart l k)
          set)
      [] tt
