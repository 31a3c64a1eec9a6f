-- ===== src/Client/Show/Texts.antt =====
-- client/src/main.rs: the lines of `show` for a device and for a peer of it, and client/src/util.rs:
-- durations and sizes.
use innernet.Prelude.{
  ℕ, ◌-◌, ◌/◌, ◌%◌, String, Bool, true, false, ◌||◌, Option, none, some, List, [], ◌∷◌, ltb,
  if◌then◌else◌,
}
use innernet.Net.{IpAddr}
use innernet.Shared.{Peer}
use innernet.Wg.{Base64, AllowedIp, PeerInfo, DeviceInfo, to_base64}

-- How a function that prints ends: what it printed, an error, or a panic.
pub data Printed (A : Type 0) : Type 0 where
  shown : A → Printed A
  failed panicked : Printed A

-- `human_duration`, less the words.
pub data Ago : Type 0 where
  just_now : Ago
  seconds_ago : ℕ → Ago
  minutes_ago : ℕ → ℕ → Ago
  hours_ago : ℕ → ℕ → Ago

unfoldable pub human_duration : ℕ → Ago
human_duration n =
    if ltb n 1
    then just_now
    else if ltb n 60
    then seconds_ago n
    else if ltb n 3600
    then minutes_ago (n / 60) (n % 60)
    else hours_ago (n / 3600) ((n / 60) % 60)

-- A number of bytes, to be divided by the unit and printed with two decimals.
pub data SizeUnit : Type 0 where
  bare kib mib gib tib : SizeUnit

unfoldable pub human_size : ℕ → ℕ × SizeUnit
human_size n =
    if ltb n 2048
    then (n, bare)
    else if ltb n 2097152
    then (n, kib)
    else if ltb n 2147483648
    then (n, mib)
    else if ltb n 2199023255552
    then (n, gib)
    else (n, tib)

pub record InterfaceRow : Type 0 where
  pub name : String
  pub public_key : String
  pub listen_port : Option ℕ
  pub me : Peer

pub data PeerRow : Type 0 where
  short_row : IpAddr → Peer → PeerRow
  long_row : Peer → Option Ago → Option ((ℕ × SizeUnit) × (ℕ × SizeUnit)) → PeerRow

module _ (base64 : Base64) where
  -- The port is left out where the line is short.
  unfoldable pub print_interface : DeviceInfo → Peer → Bool → Printed InterfaceRow
  print_interface device_info me short = elim device_info.public_key [
    | none ↦ failed
    | some key ↦ shown (record {
      name = device_info.name;
      public_key = to_base64 base64 key;
      listen_port = if short then none else device_info.listen_port;
      me = me;
    })
  ]

  -- `elapsed` is an error when the time has not come yet; times are nanoseconds.
  unfoldable pub ago : ℕ → Option ℕ → Printed (Option Ago)
  unfolding human_duration
  ago now none = shown none
  ago now (some last_handshake) =
      if ltb now last_handshake
      then failed
      else shown (some (human_duration ((now - last_handshake) / 1000000000)))

  unfoldable pub transfer : PeerInfo → Option ((ℕ × SizeUnit) × (ℕ × SizeUnit))
  unfolding human_size
  transfer peer =
      if ltb 0 peer.stats.tx_bytes || ltb 0 peer.stats.rx_bytes
      then some (human_size peer.stats.rx_bytes, human_size peer.stats.tx_bytes)
      else none

  abbrev pub first_address : List AllowedIp → Printed IpAddr
  first_address [] = panicked
  first_address (ip ∷ ips) = shown ip.address

  unfoldable pub print_peer : ℕ → Peer → PeerInfo → Bool → Printed PeerRow
  unfolding ago transfer
  print_peer now our_peer peer true = elim (first_address peer.config.allowed_ips) [
    | shown address ↦ shown (short_row address our_peer)
    | failed ↦ failed
    | panicked ↦ panicked
  ]
  print_peer now our_peer peer false = elim (ago now peer.stats.last_handshake_time) [
    | shown last ↦ shown (long_row our_peer last (transfer peer))
    | failed ↦ failed
    | panicked ↦ panicked
  ]
