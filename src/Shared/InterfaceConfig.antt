-- ===== src/Shared/InterfaceConfig.antt =====
-- shared/src/interface_config.rs: the configuration of an interface, and the files that hold it. The
-- `toml` package is a parameter.
use innernet.Prelude.{
  ℕ, String, ◌≡◌, ◌≢◌, ◌⊎◌, inl, inr, Bool, true, false, Option, none, some, [], ◌∷◌, arith,
  if◌then◌else◌, Option-cases,
}
use Prim.Native.String.{◌++◌ as string_append}
use innernet.Net.{SocketAddr, IpNetwork}
use innernet.Wg.{Base64, Key, from_base64, to_base64}
use innernet.Shared.Files.{
  FileSystem, file, dir, node_at, put_file, ensure_dir, ensure_dirs_exist, ensure_dir-there,
  put_file-keeps, node_at-put_file,
}

pub record InterfaceInfo : Type 0 where
  pub network_name : String
  pub address : IpNetwork
  pub private_key : String
  pub listen_port : Option ℕ

pub record ServerInfo : Type 0 where
  pub public_key : String
  pub external_endpoint : SocketAddr
  pub internal_endpoint : SocketAddr

pub record InterfaceConfig : Type 0 where
  pub interface : InterfaceInfo
  pub server : ServerInfo

pub record Toml : Type 0 where
  pub to_string : InterfaceConfig → String
  pub from_slice : String → Option InterfaceConfig

-- The comment of an invitation.
abbrev pub invitation_comment : String
invitation_comment =
    "# This is an invitation file to an innernet network.\n#\n# To join, you must install innernet.\n# See https://github.com/tonarino/innernet for instructions.\n#\n# If you have innernet, just run:\n#\n#   innernet install <this file>\n#\n# Don't edit the contents below unless you love chaos and dysfunction.\n"

-- What is written of a configuration is read again, also below a comment.
pub record TomlLaws (toml : Toml) (config : InterfaceConfig) : Type 0 where
  pub from_slice-to_string : toml.from_slice (toml.to_string config) ≡ some config
  pub from_slice-comment :
      toml.from_slice (string_append invitation_comment (toml.to_string config)) ≡ some config

abbrev pub client_config_path : String
client_config_path = "/etc/innernet"

-- `none` is an error.
abbrev pub Io : Type 0 → Type 0
Io A = FileSystem → FileSystem × Option A

-- `File::create` empties a file that is there, and leaves it its mode.
abbrev pub overwrite : String → String → FileSystem → FileSystem × Option String
overwrite path content fs = elim (node_at path fs) [
  | none ↦ (put_file path content fs.file_mode fs, some path)
  | some (file _ mode) ↦ (put_file path content mode fs, some path)
  | some (dir _) ↦ (fs, none)
]

-- `CLIENT_CONFIG_PATH.join(interface).with_extension("conf")` is the first argument.
unfoldable pub build_config_file_path :
    (String → String) → String → FileSystem → FileSystem × String
build_config_file_path config_file_path interface fs =
    (ensure_dirs_exist (client_config_path ∷ []) fs, config_file_path interface)

module _ (toml : Toml) where
  unfoldable pub content_of : Bool → InterfaceConfig → String
  content_of comments config =
      if comments
      then string_append invitation_comment (toml.to_string config)
      else toml.to_string config

  -- The mode is set on a copy of the permissions, which no call gives back to the file.
  unfoldable pub write_to_path : String → Bool → Option ℕ → InterfaceConfig → Io Unit
  unfolding content_of
  write_to_path path comments mode config fs = elim (node_at path fs) [
    | some _ ↦ (fs, none)
    | none ↦ (put_file path (content_of comments config) fs.file_mode fs, some tt)
  ]

  unfoldable pub from_file : String → FileSystem → Option InterfaceConfig
  from_file path fs = elim (node_at path fs) [
    | some (file content _) ↦ toml.from_slice content
    | _ ↦ none
  ]

  unfoldable pub write_to_interface : (String → String) → String → InterfaceConfig → Io String
  unfolding build_config_file_path
  write_to_interface config_file_path interface config fs =
      let built = build_config_file_path config_file_path interface fs in
      overwrite built.1 (toml.to_string config) built.0

  unfoldable pub from_interface : (String → String) → String → Io InterfaceConfig
  unfolding build_config_file_path from_file
  from_interface config_file_path interface fs =
      let built = build_config_file_path config_file_path interface fs in
      (built.0, from_file built.1 built.0)

-- `InterfaceInfo::public_key`; the key agreement is an argument.
unfoldable pub public_key : Base64 → (Key → Key) → InterfaceInfo → Option String
public_key base64 generate_public info = elim (from_base64 base64 info.private_key) [
  | none ↦ none
  | some key ↦ some (to_base64 base64 (generate_public key))
]

from_slice-content_of :
    (toml : Toml) (config : InterfaceConfig) (laws : TomlLaws toml config) (comments : Bool)
    → toml.from_slice (content_of toml comments config) ≡ some config
unfolding content_of
from_slice-content_of toml config laws true = laws.from_slice-comment
from_slice-content_of toml config laws false = laws.from_slice-to_string

-- A configuration is only written to a path where nothing is yet, and an attempt elsewhere changes
-- nothing. What is written, as an invitation or not, is read back as it was; and, whatever mode was
-- asked for, the file has the mode of any new file.
pub write_to_path-fresh :
    (toml : Toml) (config : InterfaceConfig) (laws : TomlLaws toml config) (path : String)
    (comments : Bool) (mode : Option ℕ) (fs : FileSystem)
    → let r : FileSystem × Option Unit = write_to_path toml path comments mode config fs in
      ((r ≡ (fs, none)) × (node_at path fs ≢ none))
      ⊎ ((node_at path fs ≡ none)
          × (r.1 ≡ some tt)
          × (from_file toml path r.0 ≡ some config)
          × (node_at path r.0 ≡ some (file (content_of toml comments config) fs.file_mode)))
unfolding write_to_path from_file
write_to_path-fresh toml config laws path comments mode fs = elim (Option-cases (node_at path fs)) [
  | inr (n, taken) ↦ inl (ground (arith, taken), λ e. ground (arith, e, taken))
  | inl free ↦
      let content = content_of toml comments config in
      let there = node_at-put_file path content fs.file_mode fs in
      inr (
        free,
        ground (arith, free),
        ground (arith, free, there, from_slice-content_of toml config laws comments),
        ground (arith, free, there),
      )
]

overwrite-cases :
    (path content p : String) (fs fs' : FileSystem)
    → overwrite path content fs ≡ (fs', some p)
    → (p ≡ path) × ((mode : ℕ) × (fs' ≡ put_file path content mode fs))
overwrite-cases path content p fs fs' h = elim (Option-cases (node_at path fs)) [
  | inl e ↦ (ground (arith, e, h), (fs.file_mode, ground (arith, e, h)))
  | inr (file c mode, e) ↦ (ground (arith, e, h), (mode, ground (arith, e, h)))
  | inr (dir mode, e) ↦ ground (arith, e, h)
]

-- Once the directory is there, `build_config_file_path` changes nothing.
built_twice :
    (config_file_path : String → String) (interface path content : String) (mode : ℕ)
    (fs : FileSystem)
    → let made =
        put_file path content mode (build_config_file_path config_file_path interface fs).0 in
      build_config_file_path config_file_path interface made ≡ (made, config_file_path interface)
unfolding build_config_file_path ensure_dirs_exist ensure_dir
built_twice config_file_path interface path content mode fs =
    let d : FileSystem = ensure_dir client_config_path fs in
    elim (Option-cases (node_at client_config_path (put_file path content mode d))) [
      | inr (n, there) ↦ ground (arith, there)
      | inl gone ↦ absurd (
          put_file-keeps path content client_config_path mode d
            (ensure_dir-there client_config_path fs) gone)
    ]

-- A configuration that was written for an interface is the one that is read for it afterwards, and
-- reading it changes no file.
pub from_interface-write_to_interface :
    (toml : Toml) (config : InterfaceConfig) (laws : TomlLaws toml config)
    (config_file_path : String → String) (interface path : String) (fs fs' : FileSystem)
    → write_to_interface toml config_file_path interface config fs ≡ (fs', some path)
    → (path ≡ config_file_path interface)
      × (from_interface toml config_file_path interface fs' ≡ (fs', some config))
unfolding write_to_interface from_interface build_config_file_path from_file
from_interface-write_to_interface toml config laws config_file_path interface path fs fs' h =
    let built = build_config_file_path config_file_path interface fs in
    let (at, (mode, after)) = overwrite-cases built.1 (toml.to_string config) path built.0 fs' h in
    (
      at,
      ground (
        arith,
        after,
        built_twice config_file_path interface built.1 (toml.to_string config) mode fs,
        node_at-put_file built.1 (toml.to_string config) mode built.0,
        laws.from_slice-to_string,
      ),
    )
