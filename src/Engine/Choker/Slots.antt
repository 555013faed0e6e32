-- ===== src/Engine/Choker/Slots.antt =====
-- src/engine/choker.rs: the commands of `run_choking_algorithm`.
use moviehouse.Prelude.{
  ℕ, ◌+◌, ◌≤◌, ◌≡◌, min, List, [], ◌∷◌, ◌++◌, Bool, true, false, not, ◌&&◌, ◌||◌, All, ◌==◌,
  if◌then◌else◌, length,
}
use mathlib.Core.List.{Permᴰ}
use mathlib.Core.List.Permᴰ
use moviehouse.Peer.Manager.{PeerManager}
use moviehouse.Prelude.Assoc.{contains_key}
use moviehouse.Engine.Choker.{PeerCommand, send_choke, send_unchoke, unchoke_slots, rates}

abbrev pub is_unchoke : PeerCommand → Bool
is_unchoke send_unchoke = true
is_unchoke _ = false

-- How many commands unchoke a peer.
abbrev pub unchokes : List (ℕ × PeerCommand) → ℕ
unchokes [] = 0
unchokes ((_, cmd) ∷ l) = if is_unchoke cmd then unchokes l + 1 else unchokes l

abbrev pub is_choke : PeerCommand → Bool
is_choke send_choke = true
is_choke _ = false

-- Does the peer get a command of the kind?
abbrev pub gets : (PeerCommand → Bool) → ℕ → List (ℕ × PeerCommand) → Bool
gets kind a [] = false
gets kind a ((b, cmd) ∷ l) = b == a && kind cmd || gets kind a l

-- Each entry has at least as much as all that follow.
abbrev Falling : List (ℕ × ℕ) → Type 0
Falling [] = Unit
Falling (x ∷ l) = All (λ y. y.1 ≤ x.1) l × Falling l

-- What the commands are: `best` are the peers that have sent the most and `rest` the others.
pub record Slots (m : PeerManager) (round : Bool) (cmds : List (ℕ × PeerCommand)) : Type 0 where
  pub best : List (ℕ × ℕ)
  pub rest : List (ℕ × ℕ)
  pub all_peers : Permᴰ (rates m.peers) (best ++ rest)
  pub fastest : All (λ x. All (λ y. y.1 ≤ x.1) rest) best
  pub slots : length best ≡ min unchoke_slots (length m.peers)
  pub best_unchoked : All (λ x. gets is_unchoke x.0 cmds ≡ true) best
  pub no_more : unchokes cmds ≤ length best + (if round then 1 else 0)
  pub one_each :
      (a : ℕ) → contains_key a m.peers ≡ true → gets is_choke a cmds ≡ not (gets is_unchoke a cmds)
