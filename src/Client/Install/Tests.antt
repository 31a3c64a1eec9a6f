-- ===== src/Client/Install/Tests.antt =====
-- An invitation that is installed.
use innernet.Prelude.{
  ℕ, suc, String, ◌≡◌, refl, subst, ◌≢◌, ◌⊎◌, true, none, some, [], ◌∷◌, arith, if◌then◌else◌, ◌==◌,
  nat_eq, string_eq, option_eq, length,
}
use innernet.Net.{v4}
use innernet.Wg.{Base64, Key, KeyPair, from_base64, to_base64}
use innernet.Shared.Files.{
  FileSystem, file, node_at, find_node, put_file, ensure_dir, ensure_dirs_exist,
}
use innernet.Shared.InterfaceConfig.{
  InterfaceConfig, Toml, TomlLaws, client_config_path, from_file, write_to_path, content_of,
}
use innernet.Shared.Commands.{up_config}
use innernet.Server.Api.{Reply, replied, nothing}
use innernet.Server.Api.Routes.{Request}
use innernet.Client.Http.{got, failed, http_post, process_response}
use innernet.Client.Install.{
  with_private_key, redeemed, switch, after_redeem, bring_up, install_at, install,
}
use innernet.Client.Install.Registers.{IsKept, install-IsKept}

-- The server counts the requests, and takes each.
abbrev ask : Request → ℕ → ℕ × Reply
ask r n = (suc n, replied 204 nothing)

abbrev key : Key
key = record { bytes = [] }

abbrev keypair : KeyPair
keypair = record { private = key; public = key }

abbrev base64 : Base64
base64 = record {
  encode = λ bytes. "new key";
  decode = λ text. some (
      0 ∷ 0 ∷ 0 ∷ 0 ∷ 0 ∷ 0 ∷ 0 ∷ 0 ∷ 0 ∷ 0 ∷ 0 ∷ 0 ∷ 0 ∷ 0 ∷ 0 ∷ 0 ∷ 0 ∷ 0 ∷ 0 ∷ 0 ∷ 0 ∷ 0 ∷ 0 ∷ 0
      ∷ 0 ∷ 0 ∷ 0 ∷ 0 ∷ 0 ∷ 0 ∷ 0 ∷ 0 ∷ []);
}

abbrev invitation : InterfaceConfig
invitation = record {
  interface = record {
    network_name = "net";
    address = record { ip = v4 2; prefix = 16 };
    private_key = "old key";
    listen_port = none;
  };
  server = record {
    public_key = "server key";
    external_endpoint = record { ip = v4 9; port = 51820 };
    internal_endpoint = record { ip = v4 1; port = 80 };
  };
}

abbrev installed : InterfaceConfig
installed = with_private_key "new key" invitation

abbrev toml : Toml
toml = record {
  to_string = λ config. "installed";
  from_slice = λ text. some (if text == "invitation" then invitation else installed);
}

abbrev fs : FileSystem
fs = record { nodes = ("invite.toml", file "invitation" 420) ∷ []; file_mode = 420; dir_mode = 493 }

toml_laws :
    (c : InterfaceConfig)
    → from_file toml "invite.toml" (ensure_dirs_exist (client_config_path ∷ []) fs) ≡ some c
    → TomlLaws toml (with_private_key (to_base64 base64 keypair.private) c)
unfolding from_file ensure_dirs_exist ensure_dir node_at find_node to_base64
toml_laws c h =
    let same : invitation ≡ c = ground (arith, h) in
    subst (λ c. TomlLaws toml (with_private_key "new key" c)) same
      (record { from_slice-to_string = refl; from_slice-comment = refl })

abbrev target : String
target = "/etc/innernet/net.conf"

-- The one request is made, and the new key is in the file and on the interface.
goes_well :
    let r = install ask none base64 toml (λ b. true) keypair none true "invite.toml" target fs 0 in
    (r.server ≡ 1)
    × (from_file toml target r.files ≡ some installed)
    × (length r.applied ≡ 2)
    × (r.answer ≡ got tt)
unfolding install install_at bring_up after_redeem switch from_file ensure_dirs_exist ensure_dir
    node_at find_node put_file write_to_path content_of to_base64 from_base64 up_config http_post
    process_response
goes_well = (refl, refl, refl, refl)

-- The disk is full when the file is written: the server has the key, and the client has it no more.
key_lost :
    let r =
      install ask none base64 toml (λ b. true) keypair (some fs) true "invite.toml" target fs 0 in
    (r.server ≡ 1) × (from_file toml target r.files ≡ none) × (r.answer ≡ failed)
unfolding install install_at bring_up after_redeem from_file ensure_dirs_exist ensure_dir node_at
    find_node to_base64 from_base64 up_config http_post process_response
key_lost = (refl, refl, refl)

install-IsKept_example :
    let files = ensure_dirs_exist (client_config_path ∷ []) fs in
    let r = install ask none base64 toml (λ b. true) keypair none true "invite.toml" target fs 0 in
    ((r.files ≡ files) × (r.server ≡ 0) × (r.answer ≢ got tt))
    ⊎ ((config : InterfaceConfig) × (from_file toml "invite.toml" files ≡ some config)
        × (node_at target files ≡ none)
        × IsKept ask none base64 toml
            (λ b. true)
            keypair
            none
            target
            config
            files
            (redeemed ask none base64 toml (λ b. true) keypair none 0)
            r)
install-IsKept_example =
    install-IsKept ask none base64 toml (λ b. true) keypair none true "invite.toml" target fs 0
      toml_laws
