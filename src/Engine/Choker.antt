-- ===== src/Engine/Choker.antt =====
-- src/engine/choker.rs: which peers may ask for blocks. The random choice among the choked peers is an
-- argument.
pub mod Slots
use moviehouse.Prelude.{
  ℕ, zero, suc, ◌+◌, List, [], ◌∷◌, ◌++◌, Bool, true, false, leb, ◌==◌, if◌then◌else◌, take, drop,
  map, Option, none, some,
}
use moviehouse.Peer.Manager.{PeerState, PeerManager, contains}

-- The commands of src/peer/connection.rs; an extension handshake is left out of its command.
pub data PeerCommand : Type 0 where
  request_block cancel_block : ℕ → ℕ → ℕ → PeerCommand
  send_interested send_not_interested send_choke send_unchoke : PeerCommand
  send_have : ℕ → PeerCommand
  send_extended_handshake : PeerCommand
  send_metadata_request : ℕ → ℕ → PeerCommand
  disconnect : PeerCommand

abbrev pub unchoke_slots : ℕ
unchoke_slots = 4

-- The pairs of an address and what was downloaded from it.
unfoldable pub rates : List (ℕ × PeerState) → List (ℕ × ℕ)
rates [] = []
rates ((addr, s) ∷ peers) = (addr, s.bytes_downloaded) ∷ rates peers

-- `sort_by_key` with `Reverse`, which is stable: an entry goes before those with less.
unfoldable pub insert_by_rate : ℕ × ℕ → List (ℕ × ℕ) → List (ℕ × ℕ)
insert_by_rate x [] = x ∷ []
insert_by_rate x (y ∷ ys) =
    let later = insert_by_rate x ys in if leb y.1 x.1 then x ∷ y ∷ ys else y ∷ later

unfoldable pub ranked : List (ℕ × ℕ) → List (ℕ × ℕ)
unfolding insert_by_rate
ranked [] = []
ranked (x ∷ xs) = insert_by_rate x (ranked xs)

abbrev pub addrs_of : List (ℕ × ℕ) → List ℕ
addrs_of [] = []
addrs_of ((addr, _) ∷ l) = addr ∷ addrs_of l

abbrev pub command_all : PeerCommand → List ℕ → List (ℕ × PeerCommand)
command_all cmd [] = []
command_all cmd (addr ∷ l) = (addr, cmd) ∷ command_all cmd l

-- The peers of the second list that are not in the first.
unfoldable pub others : List ℕ → List ℕ → List ℕ
others unchoked [] = []
others unchoked (addr ∷ l) =
    let rest = others unchoked l in if contains addr unchoked then rest else addr ∷ rest

-- The optimistic unchoke.
unfoldable pub optimistic : (List ℕ → Option ℕ) → Bool → List ℕ → List ℕ
optimistic choose round addrs =
    if round
    then elim (choose (drop unchoke_slots addrs)) [ none ↦ [] | some addr ↦ addr ∷ [] ]
    else []

unfoldable pub run_choking_algorithm :
    (List ℕ → Option ℕ) → PeerManager → Bool → List (ℕ × PeerCommand)
unfolding rates ranked optimistic others
run_choking_algorithm choose m round =
    let addrs = addrs_of (ranked (rates m.peers)) in
    let unchoked = take unchoke_slots addrs ++ optimistic choose round addrs in
    command_all send_unchoke unchoked ++ command_all send_choke (others unchoked addrs)
