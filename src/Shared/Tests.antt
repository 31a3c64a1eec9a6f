-- ===== src/Shared/Tests.antt =====
-- The configuration of an interface, where `toml` knows one configuration.
use innernet.Prelude.{◌≡◌, refl, ◌≢◌, ◌⊎◌, false, Option, none, some, []}
use innernet.Net.{v4}
use innernet.Shared.Files.{FileSystem, file, node_at}
use innernet.Shared.InterfaceConfig.{
  InterfaceConfig, Toml, content_of, write_to_path, from_file, write_to_path-fresh,
}

abbrev config : InterfaceConfig
config = record {
  interface = record {
    network_name = "net";
    address = record { ip = v4 257; prefix = 16 };
    private_key = "secret";
    listen_port = none;
  };
  server = record {
    public_key = "server";
    external_endpoint = record { ip = v4 99; port = 51820 };
    internal_endpoint = record { ip = v4 1; port = 51820 };
  };
}

abbrev toml : Toml
toml = record { to_string = λ c. "config"; from_slice = λ text. some config }

abbrev empty : FileSystem
empty = record { nodes = []; file_mode = 420; dir_mode = 493 }

write_to_path-fresh_example :
    (let r : FileSystem × Option (Unit {0}) =
        write_to_path toml "a.conf" false (some 384) config empty in
      ((r ≡ (empty, none)) × (node_at "a.conf" empty ≢ none))
      ⊎ ((node_at "a.conf" empty ≡ none)
          × (r.1 ≡ some tt)
          × (from_file toml "a.conf" r.0 ≡ some config)
          × (node_at "a.conf" r.0 ≡ some (file (content_of toml false config) 420))))
write_to_path-fresh_example =
    write_to_path-fresh toml config
      (record { from_slice-to_string = refl; from_slice-comment = refl }) "a.conf" false (some 384)
      empty
