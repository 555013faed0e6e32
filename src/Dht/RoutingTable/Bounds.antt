-- ===== src/Dht/RoutingTable/Bounds.antt =====
-- src/dht/routing_table.rs: the buckets, in every state of the table.
use moviehouse.Dht.Address.{SocketAddr}
use moviehouse.Prelude.{
  ℕ, zero, suc, ◌+◌, ◌≤◌, ◌<◌, ◌≡◌, refl, arith, List, [], ◌∷◌, false, ltb, length, length-append,
  length-set, length-replicate, get_or, set, replicate, All, All-append, eq_bytes, Bool-cases,
  Option-cases, inl, inr,
}
use moviehouse.Dht.RoutingTable.{
  NodeId, NodeEntry, KBucket, RoutingTable, bucket_size, num_buckets, empty_bucket, new,
  bucket_index, has_node, update_node, replace_bad, new_entry, renewed, insert_into, bucket_of,
  with_bucket, insert_or_update, update_in, mark_good, failed_once, mark_failed,
}
use moviehouse.Dht.RoutingTable.Nodes.{
  Distinct, KeepsId, length-update_node, Distinct-update_node, All-update_node, Distinct-append,
  replace_bad-Replaced, length-Replaced, All-Replaced, Distinct-Replaced,
}

-- The index that an id has in the table of `own`.
abbrev pub index_of : NodeId → NodeId → ℕ
index_of own id = bucket_index (record { own_id = own; buckets = [] }) id

-- The node belongs to bucket `i` of the table of `own`, and is another node.
abbrev pub Belongs : NodeId → ℕ → NodeEntry → Type 0
Belongs own i n = (index_of own n.id ≡ i) × (eq_bytes n.id own ≡ false)

-- At most eight nodes, each of which belongs there, without repetition, and as many to replace them.
pub record BucketFits (own : NodeId) (i : ℕ) (b : KBucket) : Type 0 where
  pub few : length b.nodes ≤ bucket_size
  pub few_cached : length b.replacement_cache ≤ bucket_size
  pub placed : All (Belongs own i) b.nodes
  pub distinct : Distinct b.nodes

insert_into-Fits :
    (own id : NodeId) (addr : SocketAddr) (i : ℕ) (b : KBucket)
    → index_of own id ≡ i
    → eq_bytes id own ≡ false
    → BucketFits own i b
    → BucketFits own i (insert_into id addr b).0
unfolding insert_into
insert_into-Fits own id addr i b at other h = elim (Bool-cases (has_node id b.nodes)) [
  | inl known ↦ rw known (record {
    few = omega (arith, h.few, length-update_node id (renewed addr) (λ n. refl) b.nodes);
    few_cached = h.few_cached;
    placed =
        All-update_node id (renewed addr) (λ n. refl) (Belongs own i) b.nodes (λ n p. p) h.placed;
    distinct = Distinct-update_node id (renewed addr) (λ n. refl) b.nodes h.distinct;
  })
  | inr unknown ↦ elim (Bool-cases (ltb (length b.nodes) bucket_size)) [
    | inl room ↦
        rw (unknown, room)
          (record {
            few = ground (arith, length-append b.nodes (new_entry id addr ∷ []));
            few_cached = h.few_cached;
            placed =
                All-append (Belongs own i) b.nodes (new_entry id addr ∷ []) h.placed
                  ((at, other), tt);
            distinct = Distinct-append b.nodes (new_entry id addr) h.distinct unknown;
          })
    | inr full ↦ elim (Option-cases (replace_bad (new_entry id addr) b.nodes)) [
      | inr (nodes', e) ↦
          let r = replace_bad-Replaced (new_entry id addr) b.nodes nodes' e in
          rw (unknown, full, e, insert_into)
            (record {
              few = omega (arith, h.few, length-Replaced (new_entry id addr) b.nodes nodes' r);
              few_cached = h.few_cached;
              placed =
                  All-Replaced (new_entry id addr) (Belongs own i) b.nodes nodes' r (at, other)
                    h.placed;
              distinct = Distinct-Replaced (new_entry id addr) b.nodes nodes' r unknown h.distinct;
            })
      | inl none_bad ↦ elim (Bool-cases (ltb (length b.replacement_cache) bucket_size)) [
        | inl room ↦
            rw (unknown, full, none_bad, room, insert_into)
              (record {
                few = h.few;
                few_cached =
                    ground (arith, length-append b.replacement_cache (new_entry id addr ∷ []));
                placed = h.placed;
                distinct = h.distinct;
              })
        | inr crowded ↦ rw (unknown, full, none_bad, crowded, insert_into) h
      ]
    ]
  ]
]

update_node-Fits :
    (own id : NodeId) (f : NodeEntry → NodeEntry) (i : ℕ) (b : KBucket)
    → KeepsId f
    → BucketFits own i b
    → BucketFits own i (record b { nodes = update_node id f b.nodes })
update_node-Fits own id f i b keeps h = record {
  few = omega (arith, h.few, length-update_node id f keeps b.nodes);
  few_cached = h.few_cached;
  placed = All-update_node id f keeps (Belongs own i) b.nodes (λ n p. rw (keeps n) p) h.placed;
  distinct = Distinct-update_node id f keeps b.nodes h.distinct;
}

-- The buckets from the one of index `i` on.
abbrev pub AllFit : NodeId → ℕ → List KBucket → Type 0
AllFit own i [] = Unit
AllFit own i (b ∷ buckets) = BucketFits own i b × AllFit own (suc i) buckets

empty-Fits : (own : NodeId) (i : ℕ) → BucketFits own i empty_bucket
empty-Fits own i = record {
  few = omega arith;
  few_cached = omega arith;
  placed = tt;
  distinct = tt;
}

AllFit-replicate : (own : NodeId) (i n : ℕ) → AllFit own i (replicate n empty_bucket)
AllFit-replicate own i zero = tt
AllFit-replicate own i (suc n) = (empty-Fits own i, AllFit-replicate own (suc i) n)

get-Fits :
    (own : NodeId) (i k j : ℕ) (buckets : List KBucket)
    → j ≡ i + k
    → AllFit own i buckets
    → BucketFits own j (get_or buckets k empty_bucket)
get-Fits own i k j [] at h = empty-Fits own j
get-Fits own i zero j (b ∷ buckets) at h = let e : j ≡ i = omega arith in rw e h.0
get-Fits own i (suc k) j (b ∷ buckets) at h = get-Fits own (suc i) k j buckets (omega arith) h.1

set-AllFit :
    (own : NodeId) (i k j : ℕ) (b : KBucket) (buckets : List KBucket)
    → j ≡ i + k
    → AllFit own i buckets
    → BucketFits own j b
    → AllFit own i (set buckets k b)
set-AllFit own i k j b [] at h fits = tt
set-AllFit own i zero j b (c ∷ buckets) at h fits =
    let e : j ≡ i = omega arith in ((rw e at fits), h.1)
set-AllFit own i (suc k) j b (c ∷ buckets) at h fits =
    (h.0, set-AllFit own (suc i) k j b buckets (omega arith) h.1 fits)

-- A table is valid when it has 160 buckets, each of which holds at most eight nodes, all different and
-- all at the distance of the bucket from the node itself, which is not among them.
pub record IsTable (t : RoutingTable) : Type 0 where
  pub size : length t.buckets ≡ num_buckets
  pub all_fit : AllFit t.own_id 0 t.buckets

pub bucket_index-lt : (t : RoutingTable) (id : NodeId) → bucket_index t id < num_buckets
unfolding bucket_index
bucket_index-lt t id = ground arith

same_index : (t : RoutingTable) (id : NodeId) → index_of t.own_id id ≡ bucket_index t id
unfolding bucket_index
same_index t id = refl

bucket_of-Fits :
    (t : RoutingTable) (id : NodeId)
    → IsTable t
    → BucketFits t.own_id (bucket_index t id) (bucket_of t id)
bucket_of-Fits t id v =
    get-Fits t.own_id 0 (bucket_index t id) (bucket_index t id) t.buckets (omega arith) v.all_fit

with_bucket-IsTable :
    (t : RoutingTable) (id : NodeId) (b : KBucket)
    → IsTable t
    → BucketFits t.own_id (bucket_index t id) b
    → IsTable (with_bucket t id b)
with_bucket-IsTable t id b v fits = record {
  size = rw length-set v.size;
  all_fit =
      set-AllFit t.own_id 0 (bucket_index t id) (bucket_index t id) b t.buckets (omega arith)
        v.all_fit fits;
}

new-IsTable : (own : NodeId) → IsTable (new own)
unfolding new
new-IsTable own = record {
  size = length-replicate num_buckets empty_bucket;
  all_fit = AllFit-replicate own 0 num_buckets;
}

insert_or_update-IsTable :
    (t : RoutingTable) (id : NodeId) (addr : SocketAddr)
    → IsTable t
    → IsTable (insert_or_update t id addr).0
unfolding insert_or_update
insert_or_update-IsTable t id addr v = elim (Bool-cases (eq_bytes id t.own_id)) [
  | inl own ↦ rw own v
  | inr other ↦ rw other (
      with_bucket-IsTable t id _ v (
        insert_into-Fits t.own_id id addr (bucket_index t id) (bucket_of t id) (same_index t id)
          other (bucket_of-Fits t id v)))
]

update_in-IsTable :
    (id : NodeId) (f : NodeEntry → NodeEntry) (t : RoutingTable)
    → KeepsId f
    → IsTable t
    → IsTable (update_in id f t)
unfolding update_in
update_in-IsTable id f t keeps v = with_bucket-IsTable t id _ v (
    update_node-Fits t.own_id id f (bucket_index t id) (bucket_of t id) keeps
      (bucket_of-Fits t id v))

-- The states of the table under its operations, in any order.
pub data Reachable : RoutingTable → Type 0 where
  started : (own : NodeId) → Reachable (new own)
  added :
      (t : RoutingTable) (id : NodeId) (addr : SocketAddr)
      → Reachable t
      → Reachable (insert_or_update t id addr).0
  succeeded : (t : RoutingTable) (id : NodeId) → Reachable t → Reachable (mark_good t id)
  given_up : (t : RoutingTable) (id : NodeId) → Reachable t → Reachable (mark_failed t id)

-- In every state that the routing table reaches, it has 160 buckets, so that no index is out of
-- bounds; each bucket holds at most eight nodes and at most eight to replace them; no node stands in
-- a bucket twice; and each stands in the bucket of its distance from the node itself, which is not
-- in the table.
pub Reachable-IsTable : (t : RoutingTable) → Reachable t → IsTable t
unfolding mark_good mark_failed
Reachable-IsTable t (started own) = new-IsTable own
Reachable-IsTable t (added t₀ id addr r) =
    insert_or_update-IsTable t₀ id addr (Reachable-IsTable t₀ r)
Reachable-IsTable t (succeeded t₀ id r) =
    update_in-IsTable id _ t₀ (λ n. refl) (Reachable-IsTable t₀ r)
Reachable-IsTable t (given_up t₀ id r) =
    update_in-IsTable id failed_once t₀ (λ n. refl) (Reachable-IsTable t₀ r)
