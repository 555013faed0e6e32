-- ===== src/Dht/Token.antt =====
-- src/dht/token.rs: the tokens of `announce_peer`. Times are numbers, and the new secret of a rotation
-- is an argument.
use moviehouse.Prelude.{
  ℕ, ◌+◌, ◌-◌, ◌≤◌, ◌≡◌, ◌⊎◌, refl, arith, List, [], ◌∷◌, ◌++◌, Bool, true, ltb, if◌then◌else◌,
  eq_bytes, eq_bytes_refl, All, Bool-cases, inl, inr,
}
use moviehouse.Dht.Address.{IpAddr, octets}

pub record TokenManager : Type 0 where
  pub current_secret : List ℕ
  pub previous_secret : List ℕ
  pub last_rotation : ℕ
  pub rotation_interval : ℕ

module _ (sha1 : List ℕ → List ℕ) where
  unfoldable pub generate_with_secret : IpAddr → List ℕ → List ℕ
  generate_with_secret addr secret = sha1 (octets addr ++ secret)

  unfoldable pub generate : TokenManager → IpAddr → List ℕ
  generate m addr = sha1 (octets addr ++ m.current_secret)

  unfoldable pub verify : TokenManager → IpAddr → List ℕ → Bool
  unfolding generate_with_secret
  verify m addr token =
      if eq_bytes token (generate_with_secret addr m.current_secret)
      then true
      else eq_bytes token (generate_with_secret addr m.previous_secret)

-- `elapsed` is the time from the last rotation, or zero.
unfoldable pub maybe_rotate : ℕ → List ℕ → TokenManager → TokenManager
maybe_rotate now secret m =
    if ltb m.rotation_interval (now - m.last_rotation)
    then record m {
      previous_secret = m.current_secret;
      current_secret = secret;
      last_rotation = now;
    }
    else m

-- Calls of `maybe_rotate`, each with its time and the secret that is drawn.
unfoldable pub rotations : List (ℕ × List ℕ) → TokenManager → TokenManager
unfolding maybe_rotate
rotations [] m = m
rotations ((now, secret) ∷ calls) m = rotations calls (maybe_rotate now secret m)

-- Between the time `t` and one interval later.
abbrev pub Within : ℕ → ℕ → List (ℕ × List ℕ) → Type 0
Within t interval calls = All (λ (now, _). (t ≤ now) × (now ≤ t + interval)) calls

-- The secret of the token is one of the two, and is the current one if there was no rotation yet.
record Keeps (t : ℕ) (secret : List ℕ) (interval : ℕ) (m : TokenManager) : Type 0 where
  pub same_interval : m.rotation_interval ≡ interval
  pub kept : (m.current_secret ≡ secret) ⊎ ((m.previous_secret ≡ secret) × (t ≤ m.last_rotation))

rotations-Keeps :
    (t : ℕ) (secret : List ℕ) (interval : ℕ) (calls : List (ℕ × List ℕ)) (m : TokenManager)
    → Within t interval calls
    → Keeps t secret interval m
    → Keeps t secret interval (rotations calls m)
unfolding rotations
rotations-Keeps t secret interval [] m h k = k
rotations-Keeps t secret interval ((now, fresh) ∷ calls) m h k =
    rotations-Keeps t secret interval calls (maybe_rotate now fresh m) h.1
      (elim (Bool-cases (ltb m.rotation_interval (now - m.last_rotation))) [
        | inr early ↦ rw early k
        | inl late ↦ rw late (elim k.kept [
          | inl current ↦ record { same_interval = k.same_interval; kept = inr (current, h.0.0) }
          | inr (previous, after) ↦ absurd (ground (arith, k.same_interval))
        ])
      ])

module _ (sha1 : List ℕ → List ℕ) where
  Keeps-verify :
      (t : ℕ) (secret : List ℕ) (interval : ℕ) (m : TokenManager) (addr : IpAddr)
      → Keeps t secret interval m
      → verify sha1 m addr (sha1 (octets addr ++ secret)) ≡ true
  unfolding verify
  Keeps-verify t secret interval m addr k = elim k.kept [
    | inl current ↦ rw (current, eq_bytes_refl (sha1 (octets addr ++ secret))) refl
    | inr (previous, _) ↦ rw previous (ground (arith, eq_bytes_refl (sha1 (octets addr ++ secret))))
  ]

  pub generate-verify :
      (m : TokenManager) (addr : IpAddr) (t : ℕ) (calls : List (ℕ × List ℕ))
      → Within t m.rotation_interval calls
      → verify sha1 (rotations calls m) addr (generate sha1 m addr) ≡ true
  unfolding generate
  generate-verify m addr t calls within =
      Keeps-verify t m.current_secret m.rotation_interval (rotations calls m) addr (
        rotations-Keeps t m.current_secret m.rotation_interval calls m within
          (record { same_interval = refl; kept = inl refl }))
