-- ===== src/Client/Install.antt =====
-- client/src/main.rs: `install`, up to the `fetch` that it ends with.
pub mod Registers
pub mod Tests
use innernet.Prelude.{
  String, Bool, true, false, not, Option, none, some, List, [], ◌∷◌, ◌++◌, if◌then◌else◌,
}
use innernet.Net.{SocketAddr}
use innernet.Wg.{Base64, KeyPair, from_base64, to_base64}
use innernet.Wg.DeviceBuilder as DeviceBuilder
use innernet.Wg.DeviceBuilder.{DeviceConfigBuilder}
use innernet.Shared.Files.{FileSystem, node_at, ensure_dirs_exist}
use innernet.Shared.InterfaceConfig.{
  InterfaceConfig, Toml, client_config_path, from_file, write_to_path,
}
use innernet.Shared.Commands.{up_config}
use innernet.Server.Api.{Reply}
use innernet.Server.Api.Routes.{Request}
use innernet.Client.Http.{Answer, got, failed, gave_up, unanswered, no_forms, as_unit, http_post}

-- The client's files, the server, the configurations that the interface was given, in order, and how
-- it ended.
pub record Installed (S : Type 0) : Type 0 where
  pub files : FileSystem
  pub server : S
  pub applied : List DeviceConfigBuilder
  pub answer : Answer (Unit {0})

abbrev pub with_private_key : String → InterfaceConfig → InterfaceConfig
with_private_key key config = record config {
  interface = record (config.interface) { private_key = key };
}

-- The peer's key is tried first, and its error returned; that of the private key is a panic.
abbrev pub no_config : {A : Type 0} → Option A → Answer (Unit {0})
no_config none = failed
no_config (some _) = gave_up

module _ {S : Type 0} (ask : Request → S → S × Reply) (local : Option SocketAddr) (base64 : Base64)
    (toml : Toml) (accepts : DeviceConfigBuilder → Bool) (keypair : KeyPair)
    (left : Option FileSystem) where
  abbrev pub redeemed : S → S × Answer (Unit {0})
  redeemed = http_post ask local as_unit ("user" ∷ "redeem" ∷ []) (record no_forms {
    as_redeem = some (record { public_key = to_base64 base64 keypair.public });
  })

  -- The new key is given to the interface.
  unfoldable pub switch : FileSystem → S → List DeviceConfigBuilder → Installed S
  unfolding DeviceBuilder.set_private_key DeviceBuilder.new
  switch files server applied =
      let change = DeviceBuilder.set_private_key DeviceBuilder.new keypair.private in
      if accepts change
      then record {
        files = files;
        server = server;
        applied = applied ++ change ∷ [];
        answer = got tt;
      }
      else record { files = files; server = server; applied = applied; answer = failed }

  -- The answer of the server, and then the file. Where an error of I/O ends its writing, `left` is
  -- what there is of the files.
  unfoldable pub after_redeem :
      String
      → InterfaceConfig
      → FileSystem
      → List DeviceConfigBuilder
      → S × Answer (Unit {0})
      → Installed S
  unfolding switch
  after_redeem target config files applied (server, got _) =
      let key = to_base64 base64 keypair.private in
      let w = write_to_path toml target false (some 384) (with_private_key key config) files in
      elim left [
        | some broken ↦ record {
          files = broken;
          server = server;
          applied = applied;
          answer = failed;
        }
        | none ↦ elim w.1 [
          | none ↦ record { files = w.0; server = server; applied = applied; answer = failed }
          | some _ ↦ switch w.0 server applied
        ]
      ]
  after_redeem target config files applied (server, failed) = record {
    files = files;
    server = server;
    applied = applied;
    answer = failed;
  }
  after_redeem target config files applied (server, gave_up) = record {
    files = files;
    server = server;
    applied = applied;
    answer = gave_up;
  }
  after_redeem target config files applied (server, unanswered) = record {
    files = files;
    server = server;
    applied = applied;
    answer = unanswered;
  }

  abbrev pub stopped : FileSystem → S → List DeviceConfigBuilder → Answer (Unit {0}) → Installed S
  stopped files s applied answer = record {
    files = files;
    server = s;
    applied = applied;
    answer = answer;
  }

  -- The interface is brought up; `runs` is whether the commands for the address and the route succeed.
  unfoldable pub bring_up :
      Bool → String → InterfaceConfig → FileSystem → S → Option DeviceConfigBuilder → Installed S
  bring_up runs target config files s none =
      stopped files s [] (no_config (from_base64 base64 config.server.public_key))
  bring_up runs target config files s (some device) =
      if not (accepts device)
      then stopped files s [] failed
      else if not runs
      then stopped files s (device ∷ []) failed
      else after_redeem target config files (device ∷ []) (redeemed s)

  -- What is read of the invitation, and what stands at the path for the configuration.
  unfoldable pub install_at :
      Bool → String → FileSystem → S → Option InterfaceConfig → Bool → Installed S
  unfolding bring_up
  install_at runs target files s none exists = stopped files s [] failed
  install_at runs target files s (some config) true = stopped files s [] failed
  install_at runs target files s (some config) false = bring_up runs target config files s (
      up_config base64 config.interface.private_key none (
        some (
          config.server.public_key, config.server.internal_endpoint.ip,
          config.server.external_endpoint,
        )))

  unfoldable pub install : Bool → String → String → FileSystem → S → Installed S
  unfolding install_at
  install runs invite target fs s =
      let files = ensure_dirs_exist (client_config_path ∷ []) fs in
      install_at runs target files s (from_file toml invite files)
        (elim (node_at target files) [ none ↦ false | some _ ↦ true ])
