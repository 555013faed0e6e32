-- ===== src/Dht/RoutingTable.antt =====
-- src/dht/routing_table.rs: the nodes that are known, in 160 buckets by their distance. Times are
-- left out.
pub mod Nodes
pub mod Bounds
pub mod Closest
use Prim.Native.Nat.{bit_xor}
use moviehouse.Dht.Address.{SocketAddr}
use moviehouse.Prelude.{
  ℕ, zero, suc, ◌+◌, ◌-◌, ◌%◌, ◌^◌, List, [], ◌∷◌, ◌++◌, Bool, true, false, not, Option, none, some,
  leb, ltb, ◌==◌, if◌then◌else◌, length, get_or, set, take, replicate, eq_bytes,
}

-- The bytes of a `NodeId`.
abbrev pub NodeId : Type 0
NodeId = List ℕ

unfoldable pub distance : NodeId → NodeId → NodeId
distance [] _ = []
distance (a ∷ as') [] = []
distance (a ∷ as') (b ∷ bs) = bit_xor a b ∷ distance as' bs

-- `byte.leading_zeros()`
abbrev pub leading_zeros : ℕ → ℕ
leading_zeros byte =
    if leb 128 byte
    then 0
    else if leb 64 byte
    then 1
    else if leb 32 byte
    then 2
    else if leb 16 byte
    then 3
    else if leb 8 byte
    then 4
    else if leb 4 byte
    then 5
    else if leb 2 byte
    then 6
    else if leb 1 byte
    then 7
    else 8

-- The loop over the bytes of the distance.
unfoldable pub zeros_of : NodeId → ℕ
zeros_of [] = 0
zeros_of (byte ∷ dist) =
    let rest = zeros_of dist in if byte == 0 then 8 + rest else leading_zeros byte

unfoldable pub distance_leading_zeros : NodeId → NodeId → ℕ
unfolding distance zeros_of
distance_leading_zeros a b = zeros_of (distance a b)

abbrev pub bucket_size : ℕ
bucket_size = 8

abbrev pub num_buckets : ℕ
num_buckets = 160

pub data NodeStatus : Type 0 where
  good questionable bad : NodeStatus

pub record NodeEntry : Type 0 where
  pub id : NodeId
  pub addr : SocketAddr
  pub status : NodeStatus
  pub failed_queries : ℕ

pub record KBucket : Type 0 where
  pub nodes : List NodeEntry
  pub replacement_cache : List NodeEntry

pub record RoutingTable : Type 0 where
  pub own_id : NodeId
  pub buckets : List KBucket

pub data InsertResult : Type 0 where
  inserted updated bucket_full : InsertResult

abbrev pub empty_bucket : KBucket
empty_bucket = record { nodes = []; replacement_cache = [] }

unfoldable pub new : NodeId → RoutingTable
new own_id = record { own_id = own_id; buckets = replicate num_buckets empty_bucket }

unfoldable pub bucket_index : RoutingTable → NodeId → ℕ
unfolding distance_leading_zeros
bucket_index t id =
    let zeros = distance_leading_zeros t.own_id id in
    if leb num_buckets zeros then num_buckets - 1 else (num_buckets - 1) - zeros

-- `nodes.iter_mut().find(|n| n.id == id)`: is there one, and a write to it.
unfoldable pub has_node : NodeId → List NodeEntry → Bool
has_node id [] = false
has_node id (n ∷ nodes) = if eq_bytes n.id id then true else has_node id nodes

unfoldable pub update_node : NodeId → (NodeEntry → NodeEntry) → List NodeEntry → List NodeEntry
update_node id f [] = []
update_node id f (n ∷ nodes) =
    let rest = update_node id f nodes in if eq_bytes n.id id then f n ∷ nodes else n ∷ rest

abbrev pub is_bad : NodeStatus → Bool
is_bad good = false
is_bad questionable = false
is_bad bad = true

abbrev pub is_good : NodeStatus → Bool
is_good good = true
is_good questionable = false
is_good bad = false

-- `position(|n| n.status == NodeStatus::Bad)`, and the write there.
unfoldable pub replace_bad : NodeEntry → List NodeEntry → Option (List NodeEntry)
replace_bad entry [] = none
replace_bad entry (n ∷ nodes) =
    let rest = replace_bad entry nodes in
    if is_bad n.status
    then some (entry ∷ nodes)
    else elim rest [ none ↦ none | some nodes' ↦ some (n ∷ nodes') ]

abbrev pub new_entry : NodeId → SocketAddr → NodeEntry
new_entry id addr = record { id = id; addr = addr; status = good; failed_queries = 0 }

-- The write to a node that is there.
abbrev pub renewed : SocketAddr → NodeEntry → NodeEntry
renewed addr n = record n { addr = addr; status = good; failed_queries = 0 }

-- What `insert_or_update` does to the bucket of the node.
unfoldable pub insert_into : NodeId → SocketAddr → KBucket → KBucket × InsertResult
unfolding has_node update_node replace_bad
insert_into id addr bucket =
    if has_node id bucket.nodes
    then (record bucket { nodes = update_node id (renewed addr) bucket.nodes }, updated)
    else if ltb (length bucket.nodes) bucket_size
    then (record bucket { nodes = bucket.nodes ++ new_entry id addr ∷ [] }, inserted)
    else elim (replace_bad (new_entry id addr) bucket.nodes) [
      | some nodes' ↦ (record bucket { nodes = nodes' }, inserted)
      | none ↦
          if ltb (length bucket.replacement_cache) bucket_size
          then (
            record bucket {
              replacement_cache = bucket.replacement_cache ++ new_entry id addr ∷ [];
            },
            bucket_full,
          )
          else (bucket, bucket_full)
    ]

abbrev pub bucket_of : RoutingTable → NodeId → KBucket
bucket_of t id = get_or t.buckets (bucket_index t id) empty_bucket

abbrev pub with_bucket : RoutingTable → NodeId → KBucket → RoutingTable
with_bucket t id bucket = record t { buckets = set t.buckets (bucket_index t id) bucket }

unfoldable pub insert_or_update : RoutingTable → NodeId → SocketAddr → RoutingTable × InsertResult
unfolding insert_into
insert_or_update t id addr =
    let (bucket, result) = insert_into id addr (bucket_of t id) in
    if eq_bytes id t.own_id then (t, updated) else (with_bucket t id bucket, result)

unfoldable pub update_in : NodeId → (NodeEntry → NodeEntry) → RoutingTable → RoutingTable
unfolding update_node
update_in id f t =
    let bucket = bucket_of t id in
    with_bucket t id (record bucket { nodes = update_node id f bucket.nodes })

unfoldable pub mark_good : RoutingTable → NodeId → RoutingTable
mark_good t id = update_in id (λ n. record n { status = good; failed_queries = 0 }) t

abbrev pub failed_once : NodeEntry → NodeEntry
failed_once n =
    let failures = (n.failed_queries + 1) % 2 ^ 8 in
    record n { failed_queries = failures; status = if leb 3 failures then bad else questionable }

unfoldable pub mark_failed : RoutingTable → NodeId → RoutingTable
mark_failed t id = update_in id failed_once t

-- The nodes that are not bad, of one bucket and of all.
unfoldable pub not_bad : List NodeEntry → List NodeEntry
not_bad [] = []
not_bad (n ∷ nodes) = let rest = not_bad nodes in if is_bad n.status then rest else n ∷ rest

unfoldable pub all_nodes : List KBucket → List NodeEntry
unfolding not_bad
all_nodes [] = []
all_nodes (b ∷ buckets) = not_bad b.nodes ++ all_nodes buckets

-- The order of arrays of bytes.
unfoldable pub leb_bytes : List ℕ → List ℕ → Bool
leb_bytes [] _ = true
leb_bytes (a ∷ as') [] = false
leb_bytes (a ∷ as') (b ∷ bs) =
    let rest = leb_bytes as' bs in if ltb a b then true else if a == b then rest else false

-- `sort_by_key`, which is stable.
unfoldable pub insert_by_distance : NodeId → NodeEntry → List NodeEntry → List NodeEntry
unfolding distance leb_bytes
insert_by_distance target n [] = n ∷ []
insert_by_distance target n (m ∷ nodes) =
    let later = insert_by_distance target n nodes in
    if leb_bytes (distance n.id target) (distance m.id target) then n ∷ m ∷ nodes else m ∷ later

unfoldable pub sort_by_distance : NodeId → List NodeEntry → List NodeEntry
unfolding insert_by_distance
sort_by_distance target [] = []
sort_by_distance target (n ∷ nodes) = insert_by_distance target n (sort_by_distance target nodes)

unfoldable pub closest_nodes : RoutingTable → NodeId → ℕ → List NodeEntry
unfolding all_nodes sort_by_distance
closest_nodes t target count = take count (sort_by_distance target (all_nodes t.buckets))

unfoldable pub good_in : List NodeEntry → ℕ
good_in [] = 0
good_in (n ∷ nodes) = let rest = good_in nodes in if is_good n.status then rest + 1 else rest

unfoldable pub good_of : List KBucket → ℕ
unfolding good_in
good_of [] = 0
good_of (b ∷ buckets) = good_in b.nodes + good_of buckets

unfoldable pub node_count : RoutingTable → ℕ
unfolding good_of
node_count t = good_of t.buckets
