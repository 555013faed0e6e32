-- ===== src/Dht/RoutingTable/Closest.antt =====
-- src/dht/routing_table.rs: `closest_nodes`.
use moviehouse.Prelude.{
  ℕ, suc, ◌≡◌, refl, ap, ◌∙◌, arith, List, [], ◌∷◌, ◌++◌, true, false, min, length, length-take,
  drop, take-append-drop, All, All-map, Bool-cases, inl, inr,
}
use mathlib.Core.List.{Permᴰ}
use mathlib.Core.List.Permᴰ
use moviehouse.Dht.RoutingTable.{
  NodeId, NodeEntry, RoutingTable, distance, leb_bytes, insert_by_distance, sort_by_distance,
  all_nodes, closest_nodes,
}

leb_bytes_total : (as' bs : List ℕ) → leb_bytes as' bs ≡ false → leb_bytes bs as' ≡ true
unfolding leb_bytes
leb_bytes_total [] bs off = absurd (cc off)
leb_bytes_total (a ∷ as') [] off = refl
leb_bytes_total (a ∷ as') (b ∷ bs) off = ground (arith, leb_bytes_total as' bs)

leb_bytes_trans :
    (as' bs cs : List ℕ)
    → leb_bytes as' bs ≡ true
    → leb_bytes bs cs ≡ true
    → leb_bytes as' cs ≡ true
unfolding leb_bytes
leb_bytes_trans [] bs cs h k = refl
leb_bytes_trans (a ∷ as') [] cs h k = absurd (cc h)
leb_bytes_trans (a ∷ as') (b ∷ bs) [] h k = absurd (cc k)
leb_bytes_trans (a ∷ as') (b ∷ bs) (c ∷ cs) h k = ground (arith, leb_bytes_trans as' bs cs)

-- At most as far from the target.
abbrev pub Closer : NodeId → NodeEntry → NodeEntry → Type 0
Closer target n m = leb_bytes (distance n.id target) (distance m.id target) ≡ true

-- Each node is at most as far as all that follow.
abbrev pub Ordered : NodeId → List NodeEntry → Type 0
Ordered target [] = Unit
Ordered target (n ∷ nodes) = All (Closer target n) nodes × Ordered target nodes

module _ (target : NodeId) where
  All-insert :
      (P : NodeEntry → Type 0) (n : NodeEntry) (nodes : List NodeEntry)
      → P n
      → All P nodes
      → All P (insert_by_distance target n nodes)
  unfolding insert_by_distance
  All-insert P n [] p h = (p, h)
  All-insert P n (m ∷ nodes) p h =
      elim (Bool-cases (leb_bytes (distance n.id target) (distance m.id target))) [
        | inl first ↦ rw first (p, h)
        | inr later ↦ rw later (h.0, All-insert P n nodes p h.1)
      ]

  insert-Ordered :
      (n : NodeEntry) (nodes : List NodeEntry)
      → Ordered target nodes
      → Ordered target (insert_by_distance target n nodes)
  unfolding insert_by_distance
  insert-Ordered n [] h = (tt, tt)
  insert-Ordered n (m ∷ nodes) h =
      elim (Bool-cases (leb_bytes (distance n.id target) (distance m.id target))) [
        | inl first ↦ rw first (
          (first, All-map nodes (λ x mx. leb_bytes_trans (distance n.id target) _ _ first mx) h.0),
          h,
        )
        | inr later ↦ rw later (
          All-insert (Closer target m) n nodes
              (leb_bytes_total (distance n.id target) (distance m.id target) later) h.0,
          insert-Ordered n nodes h.1,
        )
      ]

  sort-Ordered : (nodes : List NodeEntry) → Ordered target (sort_by_distance target nodes)
  unfolding sort_by_distance
  sort-Ordered [] = tt
  sort-Ordered (n ∷ nodes) = insert-Ordered n (sort_by_distance target nodes) (sort-Ordered nodes)

  insert-Perm :
      (n : NodeEntry) (nodes : List NodeEntry)
      → Permᴰ (n ∷ nodes) (insert_by_distance target n nodes)
  unfolding insert_by_distance
  insert-Perm n [] = Permᴰ.refl (n ∷ [])
  insert-Perm n (m ∷ nodes) =
      elim (Bool-cases (leb_bytes (distance n.id target) (distance m.id target))) [
        | inl first ↦ rw first (Permᴰ.refl (n ∷ m ∷ nodes))
        | inr later ↦
            rw later (Permᴰ.trans (Permᴰ.swap refl refl) (Permᴰ.cons refl (insert-Perm n nodes)))
      ]

  sort-Perm : (nodes : List NodeEntry) → Permᴰ nodes (sort_by_distance target nodes)
  unfolding sort_by_distance
  sort-Perm [] = Permᴰ.nil
  sort-Perm (n ∷ nodes) =
      Permᴰ.trans (Permᴰ.cons refl (sort-Perm nodes))
        (insert-Perm n (sort_by_distance target nodes))

length-Perm : (xs ys : List NodeEntry) → Permᴰ xs ys → length xs ≡ length ys
length-Perm xs ys Permᴰ.nil = refl
length-Perm xs ys (Permᴰ.cons {l₁ = l₁} {l₂ = l₂} e d) = ap suc (length-Perm l₁ l₂ d)
length-Perm xs ys (Permᴰ.swap e e') = refl
length-Perm xs ys (Permᴰ.trans {l₁ = l₁} {l₂ = l₂} {l₃ = l₃} d d') =
    length-Perm l₁ l₂ d ∙ length-Perm l₂ l₃ d'

-- `closest_nodes` returns the closest nodes of the table that are not bad, the closest first: with
-- those that it leaves out, which are at most as close, they are just these nodes, and it returns
-- `count` of them, or all when there are fewer.
pub closest_nodes-Closest :
    (t : RoutingTable) (target : NodeId) (count : ℕ)
    → (others : List NodeEntry) × Permᴰ
        (all_nodes t.buckets)
        (closest_nodes t target count ++ others)
      × Ordered target (closest_nodes t target count ++ others)
      × (length (closest_nodes t target count) ≡ min count (length (all_nodes t.buckets)))
unfolding closest_nodes
closest_nodes-Closest t target count =
    let all = all_nodes t.buckets in
    let sorted = sort_by_distance target all in
    let perm = sort-Perm target all in
    (
      drop count sorted,
      rw (take-append-drop count sorted) perm,
      rw (take-append-drop count sorted) (sort-Ordered target all),
      omega (arith, length-take count sorted, length-Perm all sorted perm),
    )
