-- ===== src/Server/StartTests.antt =====
-- The theorems on the start of the server and on failures, at the example network.
use innernet.Prelude.{◌≡◌, refl, ◌≢◌, ◌↔◌, ◌⊎◌, true, false, none, some, [], ◌∷◌, map}
use innernet.Net.{v4}
use innernet.Net.Ipv4.{ipv4}
use innernet.Wg.{Base64}
use innernet.Shared.{CidrContents, PeerContents}
use innernet.Server.Example.{packages, packages_laws, database, peer_contents, network}
use innernet.Server.Db.{err}
use innernet.Server.Db.Invariant.{WellFormed}
use innernet.Server.Db.Cidrs
use innernet.Server.Db.Peers
use innernet.Server.Db.Peers.{from_row}
use innernet.Server.Initialize.{
  DbInitData, create_database, populate_database, populated, populate_database-populated,
}
use innernet.Server.Serve.{
  started, start_panicked, serve, HasKeys, serve-panicked_iff, serve-started,
}
use innernet.Wg.{from_base64}
use innernet.Wg.DeviceBuilder.{DeviceConfigBuilder}
use innernet.Shared.Diff.{peer_builder}
use innernet.Server.Db.{invalid_query}
use innernet.Server.Db.Failures.{IsRefused, create_cidr-IsRefused}
use innernet.Server.Api.{ServerState}

abbrev choices : DbInitData
choices = record {
  root_cidr_name = "net";
  root_cidr = network 0 16;
  server_cidr = network 0 24;
  our_ip = v4 1;
  public_key_base64 = "server key";
  endpoint = record { ip = v4 99; port = 51820 };
}

populates : populate_database packages choices create_database ≡ (populated choices, none)
unfolding populate_database create_database ipv4 Cidrs.closest_parent Cidrs.longest_prefix
    Cidrs.check_parent Cidrs.list Cidrs.get Cidrs.admissible Cidrs.insert Cidrs.create
    Peers.is_valid_name Peers.admissible Peers.insert Peers.create
populates = refl

populate_database-populated_example :
    (populated choices ≡ populated choices)
    × WellFormed ipv4 (populated choices)
    × ((populated choices).foreign_keys ≡ true)
populate_database-populated_example =
    populate_database-populated packages packages_laws choices (populated choices) populates

-- A code in which the names of the example are the keys, and one in which nothing is a key.
abbrev lenient : Base64
lenient = record {
  encode = λ bytes. "";
  decode = λ text. some (
      0 ∷ 0 ∷ 0 ∷ 0 ∷ 0 ∷ 0 ∷ 0 ∷ 0 ∷ 0 ∷ 0 ∷ 0 ∷ 0 ∷ 0 ∷ 0 ∷ 0 ∷ 0 ∷ 0 ∷ 0 ∷ 0 ∷ 0 ∷ 0 ∷ 0 ∷ 0 ∷ 0
      ∷ 0 ∷ 0 ∷ 0 ∷ 0 ∷ 0 ∷ 0 ∷ 0 ∷ 0 ∷ []);
}

abbrev no_keys : Base64
no_keys = record { encode = λ bytes. ""; decode = λ text. none }

has_keys : HasKeys lenient database.peers
unfolding from_base64
has_keys p i bad = cc bad

has_key : from_base64 lenient "key" ≢ none
unfolding from_base64
has_key bad = cc bad

serve-started_example :
    (s : ServerState) × (serve lenient "key" 51820 true true (λ builder. true) database ≡ started s)
    × (s.conn ≡ record database { foreign_keys = true })
    × ((builder : DeviceConfigBuilder) × (s.applied ≡ builder ∷ [])
        × (map (λ b. some b) builder.peers
            ≡ map (λ p. peer_builder lenient (from_row p)) database.peers))
serve-started_example =
    serve-started lenient "key" 51820 true true (λ builder. true) database has_keys has_key refl
      refl (λ b. refl)

serve-panicked_iff_example :
    (serve no_keys "key" 51820 true true (λ builder. true) database ≡ start_panicked)
    ↔ (¬ HasKeys no_keys database.peers ⊎ ((true ≡ true) × (from_base64 no_keys "key" ≡ none)))
serve-panicked_iff_example =
    serve-panicked_iff no_keys "key" 51820 true true (λ builder. true) database

-- An address outside the CIDR, and a CIDR that does not belong below the root.
abbrev stray : PeerContents
stray = peer_contents "stray" 600 3 false false

abbrev misplaced : CidrContents
misplaced = record { name = "laptops"; cidr = network 256 25; parent = some 1 }

misplaced_refused : Cidrs.create packages misplaced database ≡ (database, err invalid_query)
unfolding ipv4 Cidrs.closest_parent Cidrs.longest_prefix Cidrs.check_parent Cidrs.list Cidrs.get
    Cidrs.admissible Cidrs.insert Cidrs.create
misplaced_refused = refl

create_cidr-IsRefused_example : (database ≡ database) × IsRefused packages database invalid_query
create_cidr-IsRefused_example =
    create_cidr-IsRefused packages misplaced database database invalid_query misplaced_refused
