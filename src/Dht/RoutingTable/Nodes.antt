-- ===== src/Dht/RoutingTable/Nodes.antt =====
-- src/dht/routing_table.rs: the nodes of one bucket.
use moviehouse.Prelude.{
  ℕ, ◌≡◌, refl, ap, suc, arith, List, [], ◌∷◌, ◌++◌, true, false, some, length, All, eq_bytes,
  eq_bytes→eq, eq_bytes_refl, if◌then◌else◌, Bool-cases, Option-cases, inl, inr,
}
use mathlib.Core.Path.{subst}
use moviehouse.Dht.RoutingTable.{NodeId, NodeEntry, is_bad, has_node, update_node, replace_bad}

-- No two nodes have one id.
abbrev pub Distinct : List NodeEntry → Type 0
Distinct [] = Unit
Distinct (n ∷ nodes) = (has_node n.id nodes ≡ false) × Distinct nodes

-- A write that keeps the id.
abbrev pub KeepsId : (NodeEntry → NodeEntry) → Type 0
KeepsId f = (n : NodeEntry) → (f n).id ≡ n.id

module _ (id : NodeId) (f : NodeEntry → NodeEntry) (keeps : KeepsId f) where
  pub length-update_node : (nodes : List NodeEntry) → length (update_node id f nodes) ≡ length nodes
  unfolding update_node
  length-update_node [] = refl
  length-update_node (n ∷ nodes) = ground (arith, length-update_node nodes)

  has_node-update_node :
      (j : NodeId) (nodes : List NodeEntry) → has_node j (update_node id f nodes) ≡ has_node j nodes
  unfolding has_node update_node
  has_node-update_node j [] = refl
  has_node-update_node j (n ∷ nodes) = elim (Bool-cases (eq_bytes n.id id)) [
    | inl same ↦ rw (same, keeps n) refl
    | inr other ↦ rw (other, has_node-update_node j nodes) refl
  ]

  pub Distinct-update_node :
      (nodes : List NodeEntry) → Distinct nodes → Distinct (update_node id f nodes)
  unfolding update_node
  Distinct-update_node [] h = h
  Distinct-update_node (n ∷ nodes) h = elim (Bool-cases (eq_bytes n.id id)) [
    | inl same ↦ rw (same, keeps n) h
    | inr other ↦ rw (other, has_node-update_node n.id nodes) (h.0, Distinct-update_node nodes h.1)
  ]

  pub All-update_node :
      (P : NodeEntry → Type 0) (nodes : List NodeEntry)
      → ((n : NodeEntry) → P n → P (f n))
      → All P nodes
      → All P (update_node id f nodes)
  unfolding update_node
  All-update_node P [] step h = h
  All-update_node P (n ∷ nodes) step h = elim (Bool-cases (eq_bytes n.id id)) [
    | inl same ↦ rw same (step n h.0, h.1)
    | inr other ↦ rw other (h.0, All-update_node P nodes step h.1)
  ]

eq_bytes_sym : (a b : List ℕ) → eq_bytes a b ≡ false → eq_bytes b a ≡ false
eq_bytes_sym a b off = elim (Bool-cases (eq_bytes b a)) [
  | inr apart ↦ apart
  | inl same ↦
      let e : b ≡ a = eq_bytes→eq b a same in
      let off' : eq_bytes a a ≡ false = rw e at off in absurd (cc (off', eq_bytes_refl a))
]

-- A new node at the end.
has_node-append :
    (j : NodeId) (nodes : List NodeEntry) (e : NodeEntry)
    → has_node j (nodes ++ e ∷ [])
      ≡ (if has_node j nodes then true else if eq_bytes e.id j then true else false)
unfolding has_node
has_node-append j [] e = refl
has_node-append j (n ∷ nodes) e = ground (arith, has_node-append j nodes e)

pub Distinct-append :
    (nodes : List NodeEntry) (e : NodeEntry)
    → Distinct nodes
    → has_node e.id nodes ≡ false
    → Distinct (nodes ++ e ∷ [])
unfolding has_node
Distinct-append [] e h new = (refl, tt)
Distinct-append (n ∷ nodes) e h new =
    let apart : eq_bytes n.id e.id ≡ false = ground arith in
    (
      ground (arith, has_node-append n.id nodes e, eq_bytes_sym n.id e.id apart, h.0),
      Distinct-append nodes e h.1 (ground arith),
    )

-- One node of a list gives way to another.
pub data Replaced (e : NodeEntry) : List NodeEntry → List NodeEntry → Type 0 where
  here : (n : NodeEntry) (nodes : List NodeEntry) → Replaced e (n ∷ nodes) (e ∷ nodes)
  later :
      (n : NodeEntry) (nodes nodes' : List NodeEntry)
      → Replaced e nodes nodes'
      → Replaced e (n ∷ nodes) (n ∷ nodes')

pub replace_bad-Replaced :
    (e : NodeEntry) (nodes nodes' : List NodeEntry)
    → replace_bad e nodes ≡ some nodes'
    → Replaced e nodes nodes'
unfolding replace_bad
replace_bad-Replaced e [] nodes' h = absurd (cc h)
replace_bad-Replaced e (n ∷ nodes) nodes' h = elim (Bool-cases (is_bad n.status)) [
  | inl out ↦
      subst (Replaced e (n ∷ nodes)) {x = e ∷ nodes} {y = nodes'} (cc (rw out at h)) (here n nodes)
  | inr kept ↦ elim (Option-cases (replace_bad e nodes)) [
    | inl nothing ↦ absurd (cc (rw (kept, nothing, replace_bad) at h))
    | inr (rest, at) ↦
        subst (Replaced e (n ∷ nodes)) {x = n ∷ rest} {y = nodes'}
          (cc (rw (kept, at, replace_bad) at h))
          (later n nodes rest (replace_bad-Replaced e nodes rest at))
  ]
]

module _ (e : NodeEntry) where
  pub length-Replaced :
      (nodes nodes' : List NodeEntry) → Replaced e nodes nodes' → length nodes' ≡ length nodes
  length-Replaced nodes nodes' (here n rest) = refl
  length-Replaced nodes nodes' (later n rest rest' r) = ap suc (length-Replaced rest rest' r)

  pub All-Replaced :
      (P : NodeEntry → Type 0) (nodes nodes' : List NodeEntry)
      → Replaced e nodes nodes'
      → P e
      → All P nodes
      → All P nodes'
  All-Replaced P nodes nodes' (here n rest) p h = (p, h.1)
  All-Replaced P nodes nodes' (later n rest rest' r) p h = (h.0, All-Replaced P rest rest' r p h.1)

  has_node-Replaced :
      (j : NodeId) (nodes nodes' : List NodeEntry)
      → Replaced e nodes nodes'
      → has_node j nodes ≡ false
      → eq_bytes e.id j ≡ false
      → has_node j nodes' ≡ false
  unfolding has_node
  has_node-Replaced j nodes nodes' (here n rest) h new = ground arith
  has_node-Replaced j nodes nodes' (later n rest rest' r) h new =
      let tail : has_node j rest ≡ false = ground arith in
      ground (arith, has_node-Replaced j rest rest' r tail new)

  pub Distinct-Replaced :
      (nodes nodes' : List NodeEntry)
      → Replaced e nodes nodes'
      → has_node e.id nodes ≡ false
      → Distinct nodes
      → Distinct nodes'
  unfolding has_node
  Distinct-Replaced nodes nodes' (here n rest) new h = (ground arith, h.1)
  Distinct-Replaced nodes nodes' (later n rest rest' r) new h =
      let apart : eq_bytes n.id e.id ≡ false = ground arith in
      let tail : has_node e.id rest ≡ false = ground arith in
      (
        has_node-Replaced n.id rest rest' r h.0 (eq_bytes_sym n.id e.id apart),
        Distinct-Replaced rest rest' r tail h.1,
      )
