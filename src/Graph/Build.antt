-- ===== src/Graph/Build.antt =====
-- The graph that `has_cycles` of graph.rs builds: its edges are the relations, and every child is a
-- node.
use mathlib.Core.List.Memᴰ
use mathlib.Core.List.{foldl}
use dytor.Common.{
  ◌≡◌, ◌↔◌, sym, ap, subst, true, List, [], ◌∷◌, Memᴰ, none, some, arith, ◌==◌, if◌then◌else◌,
  Memᴰ-cons, Option-cases, Bool-cases, ℕ_discrete, inl, inr, ◌⊎◌, ⊎_elim,
}
use dytor.Graph.{
  ActorId, Graph, DependenceRelation, contains, insert_child, entry_insert, entry_default,
  add_relation, build, get,
}
use dytor.Graph.Chain.{Edge}
use dytor.Graph.Answers.{IsKey, IsWhole}

contains-mem : (a : ActorId) (cs : List ActorId) → contains a cs ≡ true → Memᴰ a cs
contains-mem a [] h = absurd (cc)
contains-mem a (c ∷ cs) h = elim (ℕ_discrete a c) [
  | yes same ↦ Memᴰ.head same
  | no other ↦ Memᴰ.tail (contains-mem a cs (ground arith))
]

mem-insert_child :
    (x a : ActorId) (cs : List ActorId) → Memᴰ x (insert_child a cs) ↔ ((x ≡ a) ⊎ Memᴰ x cs)
unfolding insert_child
mem-insert_child x a cs = elim (Bool-cases (contains a cs)) [
  | inl old ↦ rw old (inr, ⊎_elim (λ e. Memᴰ.cast e (contains-mem a cs old)) (λ m. m))
  | inr new ↦ rw new (Memᴰ-cons x a cs)
]

-- What the map says of a node after either use of an entry.
get-entry_default :
    (a v : ActorId) (g : Graph)
    → get v (entry_default a g)
      ≡ elim (get v g) [ some cs ↦ some cs | none ↦ if a == v then some [] else none ]
unfolding entry_default
get-entry_default a v [] = ground arith
get-entry_default a v ((k, cs) ∷ g) = ground (arith, get-entry_default a v g)

get-entry_insert :
    (a b v : ActorId) (g : Graph)
    → get v (entry_insert a b g) ≡ (
        if a == v
        then some (insert_child b (elim (get v g) [ some cs ↦ cs | none ↦ [] ]))
        else get v g)
unfolding entry_insert
get-entry_insert a b v [] = ground arith
get-entry_insert a b v ((k, cs) ∷ g) = ground (arith, get-entry_insert a b v g)

Edge-default : (g : Graph) (a x y : ActorId) → Edge (entry_default a g) x y ↔ Edge g x y
Edge-default g a x y = (forth, back)
  where
    forth : Edge (entry_default a g) x y → Edge g x y
    forth (cs, e, m) = elim (Option-cases (get x g)) [
      | inr (ds, f) ↦ (cs, ground (arith, get-entry_default a x g), m)
      | inl f ↦ elim (ℕ_discrete a x) [
        | yes same ↦
            let none_of : cs ≡ [] = ground (arith, get-entry_default a x g) in
            absurd (Memᴰ.not-nil (subst (Memᴰ y) none_of m))
        | no other ↦ absurd (ground (arith, get-entry_default a x g))
      ]
    ]

    back : Edge g x y → Edge (entry_default a g) x y
    back (cs, e, m) = (cs, ground (arith, get-entry_default a x g), m)

Edge-insert :
    (g : Graph) (a b x y : ActorId)
    → Edge (entry_insert a b g) x y ↔ (Edge g x y ⊎ ((x ≡ a) × (y ≡ b)))
Edge-insert g a b x y = (forth, ⊎_elim old new)
  where
    forth : Edge (entry_insert a b g) x y → Edge g x y ⊎ ((x ≡ a) × (y ≡ b))
    forth (cs, e, m) = elim (ℕ_discrete a x) [
      | no other ↦ inl (cs, ground (arith, get-entry_insert a b x g), m)
      | yes same ↦ elim (Option-cases (get x g)) [
        | inl f ↦
            let is : cs ≡ insert_child b [] = ground (arith, get-entry_insert a b x g) in
            elim ((mem-insert_child y b []).0 (subst (Memᴰ y) is m)) [
              | inl q ↦ inr (sym same, q)
              | inr r ↦ absurd (Memᴰ.not-nil r)
            ]
        | inr (ds, f) ↦
            let is : cs ≡ insert_child b ds = ground (arith, get-entry_insert a b x g) in
            elim ((mem-insert_child y b ds).0 (subst (Memᴰ y) is m)) [
              | inl q ↦ inr (sym same, q)
              | inr r ↦ inl (ds, f, r)
            ]
      ]
    ]

    old : Edge g x y → Edge (entry_insert a b g) x y
    old (cs, e, m) = elim (ℕ_discrete a x) [
      | no other ↦ (cs, ground (arith, get-entry_insert a b x g), m)
      | yes same ↦ (
        insert_child b cs,
        ground (arith, get-entry_insert a b x g),
        (mem-insert_child y b cs).1 (inr m),
      )
    ]

    new : (x ≡ a) × (y ≡ b) → Edge (entry_insert a b g) x y
    new (p, q) = elim (Option-cases (get x g)) [
      | inl f ↦ (
        insert_child b [],
        ground (arith, get-entry_insert a b x g),
        (mem-insert_child y b []).1 (inl q),
      )
      | inr (ds, f) ↦ (
        insert_child b ds,
        ground (arith, get-entry_insert a b x g),
        (mem-insert_child y b ds).1 (inl q),
      )
    ]

-- One round adds the edge of its relation.
Edge-add_relation :
    (g : Graph) (r : DependenceRelation) (x y : ActorId)
    → Edge (add_relation g r) x y ↔ (Edge g x y ⊎ ((x ≡ r.from) × (y ≡ r.to)))
unfolding add_relation
Edge-add_relation g r x y =
    let d = Edge-default (entry_insert r.from r.to g) r.to x y in
    let i = Edge-insert g r.from r.to x y in (λ e. i.0 (d.0 e), λ e. d.1 (i.1 e))

IsKey-add_relation :
    (g : Graph) (r : DependenceRelation) (v : ActorId)
    → (IsKey g v ⊎ (v ≡ r.to))
    → IsKey (add_relation g r) v
unfolding add_relation
IsKey-add_relation g r v h = elim (Option-cases (get v (entry_insert r.from r.to g))) [
  | inr (cs, e) ↦ (cs, ground (arith, get-entry_default r.to v (entry_insert r.from r.to g)))
  | inl e ↦ elim h [
    | inl (cs, k) ↦ absurd (ground (arith, get-entry_insert r.from r.to v g))
    | inr same ↦ ([], ground (arith, get-entry_default r.to v (entry_insert r.from r.to g)))
  ]
]

IsWhole-add_relation : (g : Graph) (r : DependenceRelation) → IsWhole g → IsWhole (add_relation g r)
IsWhole-add_relation g r w a b e = elim ((Edge-add_relation g r a b).0 e) [
  | inl old ↦ IsKey-add_relation g r b (inl (w a b old))
  | inr new ↦ IsKey-add_relation g r b (inr new.1)
]

abbrev pub Depends : List DependenceRelation → ActorId → ActorId → Type 0
Depends rs a b = Memᴰ (record { from = a; to = b }) rs

Edge-foldl :
    (g : Graph) (rs : List DependenceRelation) (x y : ActorId)
    → Edge (foldl add_relation g rs) x y ↔ (Edge g x y ⊎ Depends rs x y)
Edge-foldl g [] x y = (inl, ⊎_elim (λ e. e) (λ m. absurd (Memᴰ.not-nil m)))
Edge-foldl g (r ∷ rs) x y =
    let rest = Edge-foldl (add_relation g r) rs x y in
    let one = Edge-add_relation g r x y in
    (
      λ e. elim (rest.0 e) [
        | inl before ↦ elim (one.0 before) [
          | inl old ↦ inl old
          | inr (p, q) ↦ inr (Memᴰ.head (ground arith))
        ]
        | inr later ↦ inr (Memᴰ.tail later)
      ],
      λ e. elim e [
        | inl old ↦ rest.1 (inl (one.1 (inl old)))
        | inr m ↦ elim (Memᴰ.cases_cons m) [
          | inl same ↦ rest.1 (
              inl (
                one.1 (
                  inr (
                    ap (λ (q : DependenceRelation). q.from) same,
                    ap (λ (q : DependenceRelation). q.to) same,
                  ))))
          | inr later ↦ rest.1 (inr later)
        ]
      ],
    )

IsWhole-foldl :
    (g : Graph) (rs : List DependenceRelation) → IsWhole g → IsWhole (foldl add_relation g rs)
IsWhole-foldl g [] w = w
IsWhole-foldl g (r ∷ rs) w = IsWhole-foldl (add_relation g r) rs (IsWhole-add_relation g r w)

-- The edges of the graph are the relations.
pub Edge-build :
    (rs : List DependenceRelation) (x y : ActorId) → Edge (build rs) x y ↔ Depends rs x y
unfolding build
Edge-build rs x y =
    let f = Edge-foldl [] rs x y in
    (λ e. ⊎_elim (λ old. absurd (cc (old.1))) (λ m. m) (f.0 e), λ m. f.1 (inr m))

pub IsWhole-build : (rs : List DependenceRelation) → IsWhole (build rs)
unfolding build
IsWhole-build rs = IsWhole-foldl [] rs (λ a b e. absurd (cc (e.1)))
