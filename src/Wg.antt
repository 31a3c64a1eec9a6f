-- ===== src/Wg.antt =====
-- wgctrl-rs: keys, the description of a device, and the builders that change one.
pub mod PeerBuilder
pub mod DeviceBuilder
pub mod Userspace
pub mod Kernel
use innernet.Prelude.{
  ℕ, zero, suc, String, ◌≡◌, ◌↔◌, Bool, true, false, ◌&&◌, Option, none, some, List, [], ◌∷◌, arith,
  if◌then◌else◌, PartialEq, ◌==◌, nat_eq, string_eq, option_eq, length,
}
use innernet.Net.{IpAddr, v4, v6, SocketAddr}

-- A key is any 32 bytes.
pub record Key : Type 0 where
  pub bytes : List ℕ

abbrev pub bytes_beq : List ℕ → List ℕ → Bool
bytes_beq [] [] = true
bytes_beq (a ∷ xs) (b ∷ bs) = (a == b) && bytes_beq xs bs
bytes_beq _ _ = false

pub bytes_beq_iff : (a b : List ℕ) → (bytes_beq a b ≡ true) ↔ (a ≡ b)
bytes_beq_iff [] [] = ground arith
bytes_beq_iff [] (b ∷ bs) = ground arith
bytes_beq_iff (a ∷ xs) [] = ground arith
bytes_beq_iff (a ∷ xs) (b ∷ bs) = ground (arith, bytes_beq_iff xs bs)

abbrev pub key_beq : Key → Key → Bool
key_beq a b = bytes_beq a.bytes b.bytes

pub key_beq_iff : (a b : Key) → (key_beq a b ≡ true) ↔ (a ≡ b)
key_beq_iff a b = ground (arith, bytes_beq_iff a.bytes b.bytes)

instance abbrev pub key_eq : PartialEq Key
key_eq = record { same = key_beq; same_iff = key_beq_iff }

abbrev zeros : ℕ → List ℕ
zeros zero = []
zeros (suc n) = 0 ∷ zeros n

-- `Key::zero` and `Key::is_zero`.
pub zero_key : Key
zero_key = record { bytes = zeros 32 }

pub is_zero : Key → Bool
is_zero k = key_beq k zero_key

-- The `base64` package, and the key agreement of `x25519_dalek`: parameters.
pub record Base64 : Type 0 where
  pub encode : List ℕ → String
  pub decode : String → Option (List ℕ)

-- What is encoded is decoded again.
pub record Base64Laws (b : Base64) : Type 0 where
  pub decode-encode : (bytes : List ℕ) → b.decode (b.encode bytes) ≡ some bytes

module _ (base64 : Base64) where
  unfoldable pub to_base64 : Key → String
  to_base64 k = base64.encode k.bytes

  -- `none` is `InvalidKey`: no base64, or not 32 bytes.
  unfoldable pub from_base64 : String → Option Key
  from_base64 s = elim (base64.decode s) [
    | none ↦ none
    | some bytes ↦ if length bytes == 32 then some (record { bytes = bytes }) else none
  ]

  -- A key of 32 bytes survives being written and read.
  pub from_base64-to_base64 :
      (laws : Base64Laws base64) (k : Key)
      → length k.bytes ≡ 32
      → from_base64 (to_base64 k) ≡ some k
  unfolding from_base64 to_base64
  from_base64-to_base64 laws k h = ground (arith, laws.decode-encode k.bytes, h)

  -- Whatever text it is read from, a key has 32 bytes.
  pub from_base64-length : (s : String) (k : Key) → from_base64 s ≡ some k → length k.bytes ≡ 32
  unfolding from_base64
  from_base64-length s k h = ground arith

pub record KeyPair : Type 0 where
  pub private : Key
  pub public : Key

pub record AllowedIp : Type 0 where
  pub address : IpAddr
  pub cidr : ℕ

pub record PeerConfig : Type 0 where
  pub public_key : Key
  pub preshared_key : Option Key
  pub endpoint : Option SocketAddr
  pub persistent_keepalive_interval : Option ℕ
  pub allowed_ips : List AllowedIp

-- A time is in nanoseconds since the epoch.
pub record PeerStats : Type 0 where
  pub last_handshake_time : Option ℕ
  pub rx_bytes : ℕ
  pub tx_bytes : ℕ

pub record PeerInfo : Type 0 where
  pub config : PeerConfig
  pub stats : PeerStats

pub record DeviceInfo : Type 0 where
  pub name : String
  pub public_key : Option Key
  pub private_key : Option Key
  pub fwmark : Option ℕ
  pub listen_port : Option ℕ
  pub peers : List PeerInfo
  pub linked_name : Option String
