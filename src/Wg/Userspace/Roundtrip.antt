-- ===== src/Wg/Userspace/Roundtrip.antt =====
-- A whole request to a userspace device, read back as the report of one.
use innernet.Prelude.{
  ℕ, String, ◌≡◌, refl, arith, sym, ap, ◌∙◌, Option, none, some, List, [], ◌∷◌, ◌++◌, map, All,
  append_assoc, append-nil,
}
use innernet.Wg.{Key, PeerInfo}
use innernet.Wg.PeerBuilder.{PeerConfigBuilder, into_peer_config}
use innernet.Wg.DeviceBuilder.{DeviceConfigBuilder}
use innernet.Wg.Userspace.{
  Parsers, done, ConfigParser, new, finish, add_pair, add_field, field, add_lines,
}
use innernet.Wg.Userspace.Requests.{
  Printers, text, when, line_of, hex, peer_lines, all_peer_lines, request, reported,
}
use innernet.Wg.Userspace.Answers.{
  feed, feed-append, add_lines-feed, closed, IsPeerRead, IsRead, reading, feed-line_of, feed-when,
  feed-peer_lines,
}

abbrev info : PeerConfigBuilder → PeerInfo
info p = record {
  config = into_peer_config p;
  stats = record { last_handshake_time = none; rx_bytes = 0; tx_bytes = 0 };
}

module _ (s : Parsers) (t : Printers) where
  -- The parser after the lines of some peers.
  after : List PeerConfigBuilder → ConfigParser → ConfigParser
  after [] p = p
  after (b ∷ bs) p = after bs (
      reading s t (finish p.current_peer p.device_info) b.public_key b.preshared_key b.endpoint
        b.persistent_keepalive_interval b.allowed_ips)

  finish-after :
      (bs : List PeerConfigBuilder) (p : ConfigParser)
      → let d = finish p.current_peer p.device_info in
        finish (after bs p).current_peer (after bs p).device_info
        ≡ record d { peers = d.peers ++ map info bs }
  unfolding after into_peer_config
  finish-after [] p =
      let d = finish p.current_peer p.device_info in
      ap (λ l. record d { peers = l }) (sym (append-nil d.peers))
  finish-after (b ∷ bs) p =
      let d = finish p.current_peer p.device_info in
      finish-after bs (
        reading s t d b.public_key b.preshared_key b.endpoint b.persistent_keepalive_interval
          b.allowed_ips)
      ∙ ap (λ l. record d { peers = l }) (append_assoc d.peers (info b ∷ []) (map info bs))

  feed-all_peer_lines :
      (bs : List PeerConfigBuilder) (p : ConfigParser)
      → All (IsPeerRead s t) bs
      → feed s (all_peer_lines t bs) p ≡ done (after bs p)
  unfolding feed all_peer_lines after
  feed-all_peer_lines [] p h = refl
  feed-all_peer_lines (b ∷ bs) p h =
      let next =
        reading s t (finish p.current_peer p.device_info) b.public_key b.preshared_key b.endpoint
          b.persistent_keepalive_interval b.allowed_ips in
      feed-append s (peer_lines t b) (all_peer_lines t bs) p next (feed-peer_lines s t b p h.0)
        (feed-all_peer_lines bs next h.1)

  -- The device of which some things were read, and no peer.
  abbrev device : String → Option String → Option Key → Option ℕ → Option ℕ → ConfigParser
  device name linked_name private_key fwmark listen_port = record {
    device_info = record {
      name = name;
      public_key = elim private_key [ none ↦ none | some key ↦ some (s.generate_public key) ];
      private_key = private_key;
      fwmark = fwmark;
      listen_port = listen_port;
      peers = [];
      linked_name = linked_name;
    };
    current_peer = none;
  }

  -- A request, with the line that closes an answer, is read by the parser of the answers to its end,
  -- and what is read is the configuration: its private key and that key's public one, its mark, its
  -- port, and its peers in their order, each as it was built. Each text that is written must be read
  -- back as what it was made of.
  pub add_lines-request :
      (b : DeviceConfigBuilder) (name : String) (linked_name : Option String)
      → IsRead s t b
      → add_lines s (map text (closed s t b)) (new name linked_name)
        ≡ done (record {
          device_info = reported s.generate_public name linked_name b;
          current_peer = none;
        })
  unfolding feed request new add_pair add_field field reported
  add_lines-request b name linked_name r =
      let p0 = device name linked_name none none none in
      let p1 = device name linked_name b.private_key none none in
      let p2 = device name linked_name b.private_key b.fwmark none in
      let p3 = device name linked_name b.private_key b.fwmark b.listen_port in
      let k = line_of t "private_key" (hex t) b.private_key in
      let f = line_of t "fwmark" t.show b.fwmark in
      let l = line_of t "listen_port" t.show b.listen_port in
      let w = when b.replaces_peers ("replace_peers", "true") in
      let peers = all_peer_lines t b.peers in
      let asked : feed s (request t b) p0 ≡ done (after b.peers p3) =
        feed-append s (("set", "1") ∷ []) (k ++ (f ++ (l ++ (w ++ peers)))) p0 p0 refl (
          feed-append s k (f ++ (l ++ (w ++ peers))) p0 p1
            (feed-line_of s t "private_key" (hex t) b.private_key p0
              (λ o. device name linked_name o none none) refl
              (λ a got. ground (arith, r.private_key a got)))
            (feed-append s f (l ++ (w ++ peers)) p1 p2
              (feed-line_of s t "fwmark" t.show b.fwmark p1
                (λ o. device name linked_name b.private_key o none) refl
                (λ a got. ground (arith, r.fwmark a got)))
              (feed-append s l (w ++ peers) p2 p3
                (feed-line_of s t "listen_port" t.show b.listen_port p2
                  (λ o. device name linked_name b.private_key b.fwmark o) refl
                  (λ a got. ground (arith, r.listen_port a got)))
                (feed-append s w peers p3 p3
                  (feed-when s t b.replaces_peers ("replace_peers", "true") p3 refl)
                  (feed-all_peer_lines b.peers p3 r.peers))))) in
      let ended : feed s (("errno", "0") ∷ []) (after b.peers p3)
          ≡ done (record {
            device_info = finish (after b.peers p3).current_peer (after b.peers p3).device_info;
            current_peer = none;
          }) =
        refl in
      add_lines-feed s (closed s t b) (new name linked_name) r.lines
      ∙ feed-append s (request t b) (("errno", "0") ∷ []) p0 (after b.peers p3) asked ended
      ∙ ap (λ d. done (record { device_info = d; current_peer = none })) (finish-after b.peers p3)
