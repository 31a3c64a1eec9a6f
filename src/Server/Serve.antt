-- ===== src/Server/Serve.antt =====
-- server/src/main.rs, `serve`: the state with which the server starts. The config file that is read,
-- and what the system answers to its commands, are arguments.
use innernet.Prelude.{
  ℕ, String, ◌≡◌, refl, sym, ap, ◌∙◌, ◌≢◌, ◌↔◌, ◌⊎◌, inl, inr, Bool, true, not, ◌&&◌, Option, none,
  some, List, [], ◌∷◌, map, arith, if◌then◌else◌, Bool-cases, Option-cases, In,
}
use innernet.Shared.Commands.{up_config}
use innernet.Wg.{Base64, Key, from_base64}
use innernet.Wg.PeerBuilder.{PeerConfigBuilder}
use innernet.Wg.DeviceBuilder
use innernet.Wg.DeviceBuilder.{DeviceConfigBuilder}
use innernet.Shared.Diff.{peer_builder, peer_builder_describes}
use innernet.Server.Db.{PeerRow, Connection}
use innernet.Server.Db.Peers.{from_row}
use innernet.Server.Api.{ServerState}

-- The pragma that turns foreign keys on.
unfoldable pub with_foreign_keys : Connection → Connection
with_foreign_keys conn = record conn { foreign_keys = true }

-- `.map(|peer| peer.deref().into()).collect()`; `none` is a panic.
unfoldable pub peer_configs : Base64 → List PeerRow → Option (List PeerConfigBuilder)
peer_configs base64 [] = some []
peer_configs base64 (p ∷ ps) =
    let rest = peer_configs base64 ps in
    elim (peer_builder base64 (from_row p)) [
      | none ↦ none
      | some b ↦ elim rest [ none ↦ none | some bs ↦ some (b ∷ bs) ]
    ]

pub data Start : Type 0 where
  started : ServerState → Start
  failed start_panicked : Start

-- The private key and the port are those of the config file. `is_network` says whether its address and
-- prefix are a network, `runs` whether the commands that bring the interface up succeed, and `accepts`
-- whether the interface takes a configuration. `applied` has the configuration after that of
-- `wg::up`, which panics where the private key is none.
unfoldable pub serve :
    Base64 → String → ℕ → Bool → Bool → (DeviceConfigBuilder → Bool) → Connection → Start
serve base64 private_key listen_port is_network runs accepts conn =
    elim (peer_configs base64 conn.peers) [
      | none ↦ start_panicked
      | some configs ↦
          let builder = DeviceBuilder.add_peers DeviceBuilder.new configs in
          if not is_network
          then failed
          else elim (up_config base64 private_key (some listen_port) none) [
            | none ↦ start_panicked
            | some device ↦
                if accepts device && (runs && accepts builder)
                then started (record {
                  conn = with_foreign_keys conn;
                  endpoints = [];
                  applied = builder ∷ [];
                  scheduled = [];
                })
                else failed
          ]
    ]

-- Every row has a key that is one.
abbrev pub HasKeys : Base64 → List PeerRow → Type 0
HasKeys base64 peers = (p : PeerRow) → In p peers → from_base64 base64 p.public_key ≢ none

peer_configs-HasKeys :
    (base64 : Base64) (peers : List PeerRow) (bs : List PeerConfigBuilder)
    → peer_configs base64 peers ≡ some bs
    → HasKeys base64 peers
unfolding peer_configs from_row
peer_configs-HasKeys base64 [] bs h p i = absurd i
peer_configs-HasKeys base64 (q ∷ qs) bs h p i =
    let deeper = peer_configs-HasKeys base64 qs in
    elim (peer_builder_describes base64 (from_row q)) [
      | inl (_, no_builder) ↦ ground (arith, h, no_builder)
      | inr (b, built, is_key, _, _, _, _, _, _) ↦ elim (Option-cases (peer_configs base64 qs)) [
        | inl stuck ↦ ground (arith, h, built, stuck)
        | inr (rest, fine) ↦ elim i [
          | inl e ↦ λ bad. cc (bad, is_key, ap (λ (x : PeerRow). from_base64 base64 x.public_key) e)
          | inr j ↦ deeper rest fine p j
        ]
      ]
    ]

HasKeys-peer_configs :
    (base64 : Base64) (peers : List PeerRow)
    → HasKeys base64 peers
    → (bs : List PeerConfigBuilder) × (peer_configs base64 peers ≡ some bs)
      × (map (λ b. some b) bs ≡ map (λ p. peer_builder base64 (from_row p)) peers)
unfolding peer_configs from_row
HasKeys-peer_configs base64 [] keys = ([], refl, refl)
HasKeys-peer_configs base64 (q ∷ qs) keys =
    let (rest, fine, those) = HasKeys-peer_configs base64 qs (λ p i. keys p (inr i)) in
    elim (peer_builder_describes base64 (from_row q)) [
      | inl (bad, _) ↦ absurd (keys q (inl refl) bad)
      | inr (b, built, _, _, _, _, _, _, _) ↦ (
        b ∷ rest,
        ground (arith, built, fine),
        ap (λ x. x ∷ map (λ c. some c) rest) (sym built)
            ∙ ap (λ xs. peer_builder base64 (from_row q) ∷ xs) those,
      )
    ]

-- The server panics at its start exactly when some peer of the database has a key that is none, or
-- the address is a network and the private key of the config file is none.
pub serve-panicked_iff :
    (base64 : Base64) (private_key : String) (listen_port : ℕ) (is_network runs : Bool)
    (accepts : DeviceConfigBuilder → Bool) (conn : Connection)
    → (serve base64 private_key listen_port is_network runs accepts conn ≡ start_panicked) ↔ (
        ¬ HasKeys base64 conn.peers
        ⊎ ((is_network ≡ true) × (from_base64 base64 private_key ≡ none)))
unfolding serve up_config
serve-panicked_iff base64 private_key listen_port is_network runs accepts conn = (
  (λ h. elim (Option-cases (peer_configs base64 conn.peers)) [
    | inl stuck ↦ inl (λ keys.
        let (bs, fine, _) = HasKeys-peer_configs base64 conn.peers keys in
        ground (arith, stuck, fine))
    | inr (bs, fine) ↦ elim (Bool-cases is_network) [
      | inr none_such ↦ ground (arith, h, fine, none_such)
      | inl network ↦ elim (Option-cases (from_base64 base64 private_key)) [
        | inl bad ↦ inr (network, bad)
        | inr (key, good) ↦
            let device : DeviceConfigBuilder = upped key in
            let choice =
              accepts device && (runs && accepts (DeviceBuilder.add_peers DeviceBuilder.new bs)) in
            ground (arith, h, fine, network, good, Bool-cases choice)
      ]
    ]
  ]),
  λ bad. elim (Option-cases (peer_configs base64 conn.peers)) [
    | inl stuck ↦ ground (arith, stuck)
    | inr (bs, fine) ↦ elim bad [
      | inl no_keys ↦ absurd (no_keys (peer_configs-HasKeys base64 conn.peers bs fine))
      | inr (network, no_key) ↦ ground (arith, fine, network, no_key)
    ]
  ],
)
  where
    upped : Key → DeviceConfigBuilder
    upped key =
        DeviceBuilder.set_private_key (DeviceBuilder.set_listen_port DeviceBuilder.new listen_port)
          key

-- If all keys are keys, the address is a network, the interface comes up and takes every
-- configuration, then the server starts with the tables of the database, foreign keys on, and one
-- configuration applied after that, in which each peer of the database, in order, has the builder
-- made of it.
pub serve-started :
    (base64 : Base64) (private_key : String) (listen_port : ℕ) (is_network runs : Bool)
    (accepts : DeviceConfigBuilder → Bool) (conn : Connection)
    → HasKeys base64 conn.peers
    → from_base64 base64 private_key ≢ none
    → is_network ≡ true
    → runs ≡ true
    → ((builder : DeviceConfigBuilder) → accepts builder ≡ true)
    → (s : ServerState) × (serve base64 private_key listen_port is_network runs accepts conn
        ≡ started s)
      × (s.conn ≡ record conn { foreign_keys = true })
      × ((builder : DeviceConfigBuilder) × (s.applied ≡ builder ∷ [])
          × (map (λ b. some b) builder.peers
              ≡ map (λ p. peer_builder base64 (from_row p)) conn.peers))
unfolding serve with_foreign_keys DeviceBuilder.add_peers DeviceBuilder.new up_config
serve-started base64 private_key listen_port is_network runs accepts conn keys has_key network ran
      takes =
    let (bs, fine, those) = HasKeys-peer_configs base64 conn.peers keys in
    let builder = DeviceBuilder.add_peers DeviceBuilder.new bs in
    let taken = takes builder in
    elim (Option-cases (from_base64 base64 private_key)) [
      | inl bad ↦ absurd (has_key bad)
      | inr (key, good) ↦
          let device =
            DeviceBuilder.set_private_key
              (DeviceBuilder.set_listen_port DeviceBuilder.new listen_port) key in
          let up = takes device in
          (
            record {
              conn = with_foreign_keys conn;
              endpoints = [];
              applied = builder ∷ [];
              scheduled = [];
            },
            ground (arith, fine, network, good, up, ran, taken),
            refl,
            (builder, refl, those),
          )
    ]
