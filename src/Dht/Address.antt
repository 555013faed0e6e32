-- ===== src/Dht/Address.antt =====
-- `std::net::IpAddr` and `SocketAddr`, for src/dht/: the octets of an address, and a port.
use moviehouse.Prelude.{ℕ, List}

pub data IpAddr : Type 0 where
  ip4 ip6 : List ℕ → IpAddr

pub data SocketAddr : Type 0 where
  v4 v6 : List ℕ → ℕ → SocketAddr

-- `octets` and `ip`
abbrev pub octets : IpAddr → List ℕ
octets (ip4 octs) = octs
octets (ip6 octs) = octs

abbrev pub ip_of : SocketAddr → IpAddr
ip_of (v4 octs _) = ip4 octs
ip_of (v6 octs _) = ip6 octs
