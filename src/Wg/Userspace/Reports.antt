-- ===== src/Wg/Userspace/Reports.antt =====
-- Which peers the parser reports.
pub mod Ends
use mathlib.Core.List.{append_assoc, append-nil}
use innernet.Prelude.{
  ◌*◌, String, ◌≡◌, refl, sym, ap, ◌∙◌, inl, inr, Option, none, some, List, [], ◌∷◌, ◌++◌, map,
  arith, ltb, Bool-cases, Option-cases, ◌==◌, nat_eq, string_eq, option_eq, append_assoc,
  append-nil,
}
use innernet.Wg.{Key, PeerInfo, DeviceInfo}
use innernet.Wg.Userspace
use innernet.Wg.Userspace.{
  Parsers, Parsed, done, invalid_data, panicked, os_error, ConfigParser, Field, new, new_peer_info,
  private_key, listen_port, fwmark, public_key, preshared_key, tx_bytes, rx_bytes,
  last_handshake_time_sec, allowed_ip, persistent_keepalive_interval, endpoint, errno, ignored,
  field, finish, from_hex, parse_allowed_ip, change_peer, or_invalid, end_stream, add_field,
  add_pair, add_line, add_lines, set_config, set_stats,
}

abbrev pub key_of : PeerInfo → Key
key_of peer = peer.config.public_key

abbrev pub current_key : Option PeerInfo → List Key
current_key none = []
current_key (some peer) = key_of peer ∷ []

-- The keys of all peers, finished or not.
abbrev pub listed : ConfigParser → List Key
listed p = map key_of p.device_info.peers ++ current_key p.current_peer

-- The keys that the lines `public_key=…` name.
abbrev named_by : Field → Option Key → List Key
named_by public_key (some key) = key ∷ []
named_by _ _ = []

abbrev pub named_in : Parsers → Option (String × String) → List Key
named_in s none = []
named_in s (some pair) = named_by (field pair.0) (from_hex s pair.1)

pub named : Parsers → List String → List Key
named s [] = []
named s (line ∷ rest) = named_in s (s.split_pair line) ++ named s rest

map-append :
    (xs : List PeerInfo) (p : PeerInfo) → map key_of (xs ++ p ∷ []) ≡ map key_of xs ++ key_of p ∷ []
map-append [] p = refl
map-append (x ∷ xs) p = ap (λ ks. key_of x ∷ ks) (map-append xs p)

finished :
    (o : Option PeerInfo) (d : DeviceInfo)
    → map key_of (finish o d).peers ≡ map key_of d.peers ++ current_key o
finished none d = sym (append-nil (map key_of d.peers))
finished (some p) d = map-append d.peers p

-- A change of the current peer that keeps its key.
changed-listed :
    (p p' : ConfigParser) (f : PeerInfo → PeerInfo)
    → ((peer : PeerInfo) → key_of (f peer) ≡ key_of peer)
    → change_peer p f ≡ done p'
    → listed p' ≡ listed p
changed-listed p p' f keeps h = elim (Option-cases p.current_peer) [
  | inl none_there ↦ ground (arith, h, none_there)
  | inr (peer, there) ↦
      let after : record p { current_peer = some (f peer) } ≡ p' = ground (arith, h, there) in
      let keys : current_key p.current_peer ≡ key_of peer ∷ [] = ap current_key there in
      ap listed (sym after)
      ∙ ap (λ k. map key_of p.device_info.peers ++ k ∷ []) (keeps peer)
      ∙ ap (λ ks. map key_of p.device_info.peers ++ ks) (sym keys)
]

parsed-listed :
    {A : Type 0} (p p' : ConfigParser) (o : Option A) (f : A → PeerInfo → PeerInfo)
    → ((a : A) (peer : PeerInfo) → key_of (f a peer) ≡ key_of peer)
    → or_invalid o (λ a. change_peer p (f a)) ≡ done p'
    → listed p' ≡ listed p
parsed-listed p p' none f keeps h = ground (arith, h)
parsed-listed p p' (some a) f keeps h = changed-listed p p' (f a) (keeps a) h

-- Each line adds the key that it names, if it names one.
add_field-listed :
    (s : Parsers) (f : Field) (value : String) (p p' : ConfigParser)
    → add_field s f value p ≡ done p'
    → listed p' ≡ listed p ++ named_by f (from_hex s value)
unfolding add_field new_peer_info
add_field-listed s private_key value p p' h = elim (Option-cases (from_hex s value)) [
  | inl bad ↦ ground (arith, h, bad)
  | inr (key, good) ↦
      let same : listed p' ≡ listed p = ground (arith, h, good) in
      same ∙ sym (append-nil (listed p))
]
add_field-listed s listen_port value p p' h = elim (Option-cases (s.parse_u16 value)) [
  | inl bad ↦ ground (arith, h, bad)
  | inr (n, good) ↦
      let same : listed p' ≡ listed p = ground (arith, h, good) in
      same ∙ sym (append-nil (listed p))
]
add_field-listed s fwmark value p p' h = elim (Option-cases (s.parse_u32 value)) [
  | inl bad ↦ ground (arith, h, bad)
  | inr (n, good) ↦
      let same : listed p' ≡ listed p = ground (arith, h, good) in
      same ∙ sym (append-nil (listed p))
]
add_field-listed s public_key value p p' h = elim (Option-cases (from_hex s value)) [
  | inl bad ↦ ground (arith, h, bad)
  | inr (key, good) ↦
      let next : ConfigParser = record {
        device_info = finish p.current_peer p.device_info;
        current_peer = some (new_peer_info key);
      } in
      let after : next ≡ p' = ground (arith, h, good) in
      ap listed (sym after)
      ∙ ap (λ ks. ks ++ key ∷ []) (finished p.current_peer p.device_info)
      ∙ ap (λ o. listed p ++ named_by public_key o) (sym good)
]
add_field-listed s preshared_key value p p' h =
    parsed-listed p p' (from_hex s value) _ (λ a peer. refl) h ∙ sym (append-nil (listed p))
add_field-listed s tx_bytes value p p' h =
    parsed-listed p p' (s.parse_u64 value) _ (λ a peer. refl) h ∙ sym (append-nil (listed p))
add_field-listed s rx_bytes value p p' h =
    parsed-listed p p' (s.parse_u64 value) _ (λ a peer. refl) h ∙ sym (append-nil (listed p))
add_field-listed s last_handshake_time_sec value p p' h = elim (Option-cases (s.parse_u64 value)) [
  | inl bad ↦ ground (arith, h, bad)
  | inr (n, good) ↦ elim (Bool-cases (ltb 0 n)) [
    | inl some_time ↦
        let changed : change_peer p
              (set_stats (λ c. record c { last_handshake_time = some (n * 1000000000) }))
            ≡ done p' =
          ground (arith, h, good, some_time) in
        changed-listed p p' _ (λ peer. refl) changed ∙ sym (append-nil (listed p))
    | inr never ↦
        let same : p ≡ p' = ground (arith, h, good, never) in
        ap listed (sym same) ∙ sym (append-nil (listed p))
  ]
]
add_field-listed s allowed_ip value p p' h =
    parsed-listed p p' (parse_allowed_ip s value) _ (λ a peer. refl) h ∙ sym (append-nil (listed p))
add_field-listed s persistent_keepalive_interval value p p' h =
    parsed-listed p p' (s.parse_u16 value) _ (λ a peer. refl) h ∙ sym (append-nil (listed p))
add_field-listed s endpoint value p p' h =
    parsed-listed p p' (s.parse_socket value) _ (λ a peer. refl) h ∙ sym (append-nil (listed p))
add_field-listed s errno value p p' h = elim (Bool-cases (value == "0")) [
  | inr failed ↦ elim (Bool-cases (s.is_errno value)) [
    | inl number ↦ ground (arith, h, failed, number)
    | inr no_number ↦ ground (arith, h, failed, no_number)
  ]
  | inl fine ↦
      let next : ConfigParser = record {
        device_info = finish p.current_peer p.device_info;
        current_peer = none;
      } in
      let after : next ≡ p' = ground (arith, h, fine) in
      ap listed (sym after)
      ∙ append-nil (map key_of next.device_info.peers)
      ∙ finished p.current_peer p.device_info
      ∙ sym (append-nil (listed p))
]
add_field-listed s ignored value p p' h =
    let same : p ≡ p' = ground (arith, h) in ap listed (sym same) ∙ sym (append-nil (listed p))

add_line-listed :
    (s : Parsers) (line : String) (p p' : ConfigParser)
    → add_line s p line ≡ done p'
    → listed p' ≡ listed p ++ named_in s (s.split_pair line)
unfolding add_line add_pair
add_line-listed s line p p' h = elim (Option-cases (s.split_pair line)) [
  | inl no_pair ↦ ground (arith, h, no_pair)
  | inr (pair, split) ↦
      let step : add_field s (field pair.0) pair.1 p ≡ done p' = ground (arith, h, split) in
      add_field-listed s (field pair.0) pair.1 p p' step
      ∙ ap (λ o. listed p ++ named_in s o) (sym split)
]

-- The keys of all peers after some lines are those before, and those that the lines name.
pub add_lines-listed :
    (s : Parsers) (answer : List String) (p p' : ConfigParser)
    → add_lines s answer p ≡ done p'
    → listed p' ≡ listed p ++ named s answer
unfolding add_lines named
add_lines-listed s [] p p' h =
    let same : p ≡ p' = ground (arith, h) in ap listed (sym same) ∙ sym (append-nil (listed p))
add_lines-listed s (line ∷ rest) p p' h =
    first (add_line s p line) (λ q. add_lines-listed s rest q p') refl h
  where
    first :
        (r : Parsed ConfigParser)
        → ((q : ConfigParser) → add_lines s rest q ≡ done p' → listed p' ≡ listed q ++ named s rest)
        → add_line s p line ≡ r
        → Userspace.and_then s r (add_lines s rest) ≡ done p'
        → listed p' ≡ listed p ++ (named_in s (s.split_pair line) ++ named s rest)
    first invalid_data deeper e k = ground (arith, k)
    first panicked deeper e k = ground (arith, k)
    first (os_error n) deeper e k = ground (arith, k)
    first (done q) deeper e k =
        deeper q k
        ∙ ap (λ ks. ks ++ named s rest) (add_line-listed s line p q e)
        ∙ append_assoc (listed p) (named_in s (s.split_pair line)) (named s rest)
