-- ===== src/Wg/Userspace/Answers.antt =====
-- A request to a userspace device, read back by the parser of the answers of one.
use innernet.Prelude.{
  ℕ, String, ◌≡◌, refl, sym, ap, ◌∙◌, Bool, true, false, Option, none, some, List, [], ◌∷◌, ◌++◌,
  map, arith, All, append_assoc, append-nil,
}
use innernet.Net.{SocketAddr}
use innernet.Wg.{Key, AllowedIp, DeviceInfo}
use innernet.Wg.PeerBuilder.{PeerConfigBuilder}
use innernet.Wg.DeviceBuilder.{DeviceConfigBuilder}
use innernet.Wg.Userspace.{
  Parsers, Parsed, done, invalid_data, panicked, os_error, ConfigParser, new_peer_info, finish,
  from_hex, parse_allowed_ip, add_pair, add_field, field, and_then, add_line, add_lines,
}
use innernet.Wg.Userspace.Requests.{
  Printers, Line, text, when, line_of, hex, show_allowed, allowed_lines, peer_lines, request,
}

module _ (s : Parsers) where
  -- The loop on lines that are cut already.
  unfoldable pub feed : List Line → ConfigParser → Parsed ConfigParser
  unfolding add_pair
  feed [] p = done p
  feed (line ∷ lines) p = and_then s (add_pair s p line.0 line.1) (feed lines)

  pub feed-append :
      (xs ys : List Line) (p q : ConfigParser) {r : Parsed ConfigParser}
      → feed xs p ≡ done q
      → feed ys q ≡ r
      → feed (xs ++ ys) p ≡ r
  unfolding feed
  feed-append [] ys p q h rest = let same : p ≡ q = ground (arith, h) in ap (feed ys) same ∙ rest
  feed-append (x ∷ xs) ys p q {r} h rest =
      settled (add_pair s p x.0 x.1) (λ p' e. feed-append xs ys p' q e rest) h
    where
      settled :
          (o : Parsed ConfigParser)
          → ((p' : ConfigParser) → feed xs p' ≡ done q → feed (xs ++ ys) p' ≡ r)
          → and_then s o (feed xs) ≡ done q
          → and_then s o (feed (xs ++ ys)) ≡ r
      settled (done p') later e = later p' e
      settled invalid_data later e = ground (arith, e)
      settled panicked later e = ground (arith, e)
      settled (os_error n) later e = ground (arith, e)

  pub add_lines-feed :
      (lines : List Line) (p : ConfigParser)
      → All (λ line. s.split_pair (text line) ≡ some line) lines
      → add_lines s (map text lines) p ≡ feed lines p
  unfolding add_lines add_line feed
  add_lines-feed [] p h = refl
  add_lines-feed (x ∷ xs) p h =
      let cut : add_line s p (text x) ≡ add_pair s p x.0 x.1 = ground (arith, h.0) in
      ap (λ o. and_then s o (add_lines s (map text xs))) cut
      ∙ settled (add_pair s p x.0 x.1) (λ p'. add_lines-feed xs p' h.1)
    where
      settled :
          (o : Parsed ConfigParser)
          → ((p' : ConfigParser) → add_lines s (map text xs) p' ≡ feed xs p')
          → and_then s o (add_lines s (map text xs)) ≡ and_then s o (feed xs)
      settled (done p') later = later p'
      settled invalid_data later = refl
      settled panicked later = refl
      settled (os_error n) later = refl

module _ (s : Parsers) (t : Printers) where
  -- The request, closed as an answer is.
  abbrev pub closed : DeviceConfigBuilder → List Line
  closed b = request t b ++ ("errno", "0") ∷ []

  -- What is printed of a peer is read back as what it was.
  pub record IsPeerRead (p : PeerConfigBuilder) : Type 0 where
    pub public_key : from_hex s (hex t p.public_key) ≡ some p.public_key
    pub preshared_key : (k : Key) → p.preshared_key ≡ some k → from_hex s (hex t k) ≡ some k
    pub endpoint : (a : _) → p.endpoint ≡ some a → s.parse_socket (t.show_socket a) ≡ some a
    pub persistent_keepalive_interval :
        (n : ℕ) → p.persistent_keepalive_interval ≡ some n → s.parse_u16 (t.show n) ≡ some n
    pub allowed_ips : All (λ ip. parse_allowed_ip s (show_allowed t ip) ≡ some ip) p.allowed_ips

  pub record IsRead (b : DeviceConfigBuilder) : Type 0 where
    pub lines : All (λ line. s.split_pair (text line) ≡ some line) (closed b)
    pub private_key : (k : Key) → b.private_key ≡ some k → from_hex s (hex t k) ≡ some k
    pub fwmark : (n : ℕ) → b.fwmark ≡ some n → s.parse_u32 (t.show n) ≡ some n
    pub listen_port : (n : ℕ) → b.listen_port ≡ some n → s.parse_u16 (t.show n) ≡ some n
    pub peers : All IsPeerRead b.peers

  -- A peer of which some things were read.
  abbrev pub reading :
      DeviceInfo → Key → Option Key → Option SocketAddr → Option ℕ → List AllowedIp → ConfigParser
  reading d key preshared_key endpoint keepalive ips = record {
    device_info = d;
    current_peer = some (record {
      config = record {
        public_key = key;
        preshared_key = preshared_key;
        endpoint = endpoint;
        persistent_keepalive_interval = keepalive;
        allowed_ips = ips;
      };
      stats = record { last_handshake_time = none; rx_bytes = 0; tx_bytes = 0 };
    });
  }

  pub feed-line_of :
      {A : Type 0} (key : String) (f : A → String) (o : Option A) (p : ConfigParser)
      (after : Option A → ConfigParser)
      → after none ≡ p
      → ((a : A) → o ≡ some a → add_pair s p key (f a) ≡ done (after (some a)))
      → feed s (line_of t key f o) p ≡ done (after o)
  unfolding feed
  feed-line_of key f none p after e h = ap done (sym e)
  feed-line_of key f (some a) p after e h = ground (arith, h a refl)

  pub feed-when :
      (b : Bool) (line : Line) (p : ConfigParser)
      → add_pair s p line.0 line.1 ≡ done p
      → feed s (when b line) p ≡ done p
  unfolding feed
  feed-when false line p h = refl
  feed-when true line p h = ground (arith, h)

  feed-allowed_lines :
      (ips before : List AllowedIp) (d : DeviceInfo) (key : Key) (k : Option Key)
      (e : Option SocketAddr) (n : Option ℕ)
      → All (λ ip. parse_allowed_ip s (show_allowed t ip) ≡ some ip) ips
      → feed s (allowed_lines t ips) (reading d key k e n before)
        ≡ done (reading d key k e n (before ++ ips))
  unfolding feed add_pair add_field field allowed_lines
  feed-allowed_lines [] before d key k e n h =
      ap (λ l. done (reading d key k e n l)) (sym (append-nil before))
  feed-allowed_lines (ip ∷ ips) before d key k e n h =
      let first : add_pair s (reading d key k e n before) "allowed_ip" (show_allowed t ip)
          ≡ done (reading d key k e n (before ++ ip ∷ [])) =
        ground (arith, h.0) in
      ap (λ o. and_then s o (feed s (allowed_lines t ips))) first
      ∙ feed-allowed_lines ips (before ++ ip ∷ []) d key k e n h.1
      ∙ ap (λ l. done (reading d key k e n l)) (append_assoc before (ip ∷ []) ips)

  -- The lines of a peer finish the peer before, and leave this one to be finished.
  pub feed-peer_lines :
      (b : PeerConfigBuilder) (p : ConfigParser)
      → IsPeerRead b
      → feed s (peer_lines t b) p
        ≡ done (
            reading
              (finish p.current_peer p.device_info)
              b.public_key
              b.preshared_key
              b.endpoint
              b.persistent_keepalive_interval
              b.allowed_ips)
  unfolding peer_lines feed add_pair add_field field new_peer_info
  feed-peer_lines b p r =
      let d = finish p.current_peer p.device_info in
      let key = b.public_key in
      let k = b.preshared_key in
      let e = b.endpoint in
      let n = b.persistent_keepalive_interval in
      let start = reading d key none none none [] in
      let opened : add_pair s p "public_key" (hex t key) ≡ done start =
        ground (arith, r.public_key) in
      let put : feed s (("public_key", hex t key) ∷ []) p ≡ done start =
        ap (λ o. and_then s o (feed s [])) opened in
      let first = ("public_key", hex t key) ∷ [] in
      let replaced = when b.replace_allowed_ips ("replace_allowed_ips", "true") in
      let removed = when b.remove_me ("remove", "true") in
      let shared = line_of t "preshared_key" (hex t) k in
      let at = line_of t "endpoint" t.show_socket e in
      let alive = line_of t "persistent_keepalive_interval" t.show n in
      let l5 = allowed_lines t b.allowed_ips in
      let l4 = alive ++ l5 in
      let l3 = at ++ l4 in
      let l2 = shared ++ l3 in
      let l1 = removed ++ l2 in
      feed-append s first (replaced ++ l1) p start put (
        feed-append s replaced l1 start start
          (feed-when b.replace_allowed_ips ("replace_allowed_ips", "true") start refl)
          (feed-append s removed l2 start start
            (feed-when b.remove_me ("remove", "true") start refl)
            (feed-append s shared l3 start (reading d key k none none [])
              (feed-line_of "preshared_key" (hex t) k start (λ o. reading d key o none none []) refl
                (λ a got. ground (arith, r.preshared_key a got)))
              (feed-append s at l4 (reading d key k none none []) (reading d key k e none [])
                (feed-line_of "endpoint" t.show_socket e (reading d key k none none [])
                  (λ o. reading d key k o none []) refl (λ a got. ground (arith, r.endpoint a got)))
                (feed-append s alive l5 (reading d key k e none []) (reading d key k e n [])
                  (feed-line_of "persistent_keepalive_interval" t.show n (reading d key k e none [])
                    (λ o. reading d key k e o []) refl
                    (λ a got. ground (arith, r.persistent_keepalive_interval a got)))
                  (feed-allowed_lines b.allowed_ips [] d key k e n r.allowed_ips))))))
