-- ===== src/Client/Install/Registers.antt =====
-- What `install` leaves of a key that the server was told of.
use innernet.Prelude.{
  String, ◌≡◌, refl, ◌≢◌, ◌⊎◌, inl, inr, Bool, true, false, not, Option, none, some, List, [], ◌∷◌,
  arith, if◌then◌else◌, Option-cases,
}
use innernet.Net.{SocketAddr}
use innernet.Wg.{Base64, KeyPair, from_base64, to_base64}
use innernet.Wg.DeviceBuilder.{DeviceConfigBuilder}
use innernet.Shared.Files.{FileSystem, Node, node_at, ensure_dirs_exist}
use innernet.Shared.InterfaceConfig.{
  InterfaceConfig, Toml, TomlLaws, client_config_path, from_file, write_to_path,
  write_to_path-fresh,
}
use innernet.Server.Api.{Reply}
use innernet.Server.Api.Routes.{Request}
use innernet.Client.Http.{Answer, got, failed, gave_up, unanswered}
use innernet.Client.Install.{
  Installed, with_private_key, no_config, redeemed, switch, after_redeem, stopped, bring_up,
  install_at, install,
}

module _ {S : Type 0} (ask : Request → S → S × Reply) (local : Option SocketAddr) (base64 : Base64)
    (toml : Toml) (accepts : DeviceConfigBuilder → Bool) (keypair : KeyPair)
    (left : Option FileSystem) where
  -- The server has not said that it took the key, or has: then the key is in the file, unless an
  -- error of I/O ended the writing of the file.
  abbrev pub IsKept :
      String → InterfaceConfig → FileSystem → S × Answer (Unit {0}) → Installed S → Type 0
  IsKept target config files o r =
      ((o.1 ≢ got tt) × (r.files ≡ files) × (r.server ≡ o.0) × (r.answer ≢ got tt))
      ⊎ ((o.1 ≡ got tt)
          × (left ≡ none)
          × (r.server ≡ o.0)
          × (from_file toml target r.files
              ≡ some (with_private_key (to_base64 base64 keypair.private) config)))
      ⊎ ((o.1 ≡ got tt) × (left ≡ some r.files) × (r.server ≡ o.0) × (r.answer ≡ failed))

  switch-keeps :
      (files : FileSystem) (server : S) (applied : List DeviceConfigBuilder)
      → ((switch ask local base64 toml accepts keypair left files server applied).files ≡ files)
        × ((switch ask local base64 toml accepts keypair left files server applied).server ≡ server)
  unfolding switch
  switch-keeps files server applied = ground arith

  after_redeem-IsKept :
      (target : String) (config : InterfaceConfig)
      (laws : TomlLaws toml (with_private_key (to_base64 base64 keypair.private) config))
      (files : FileSystem) (applied : List DeviceConfigBuilder) (o : S × Answer (Unit {0}))
      → node_at target files ≡ none
      → IsKept target config files o
          (after_redeem ask local base64 toml accepts keypair left target config files applied o)
  unfolding after_redeem
  after_redeem-IsKept target config laws files applied (server, failed) free =
      inl ((λ e. ground (arith, e)), refl, refl, λ e. ground (arith, e))
  after_redeem-IsKept target config laws files applied (server, gave_up) free =
      inl ((λ e. ground (arith, e)), refl, refl, λ e. ground (arith, e))
  after_redeem-IsKept target config laws files applied (server, unanswered) free =
      inl ((λ e. ground (arith, e)), refl, refl, λ e. ground (arith, e))
  after_redeem-IsKept target config laws files applied (server, got tt) free =
      let new = with_private_key (to_base64 base64 keypair.private) config in
      let w = write_to_path toml target false (some 384) new files in
      elim (Option-cases left) [
        | inr (broken, stops) ↦ rw stops (inr (inr (refl, refl, refl, refl)))
        | inl fine ↦ elim (write_to_path-fresh toml new laws target false (some 384) files) [
          | inl (_, taken) ↦ absurd (taken free)
          | inr (_, wrote, read, _) ↦
              let (same, server_same) = switch-keeps w.0 server applied in
              inr (
                inl (
                  refl,
                  fine,
                  ground (arith, fine, wrote, server_same),
                  ground (arith, fine, wrote, same, read),
                ))
        ]
      ]

  abbrev IsStopped : FileSystem → S → Installed S → Type 0
  IsStopped files s r = (r.files ≡ files) × (r.server ≡ s) × (r.answer ≢ got tt)

  no_config-fails : {A : Type 0} (o : Option A) → no_config o ≢ got tt
  no_config-fails none e = ground (arith, e)
  no_config-fails (some a) e = ground (arith, e)

  bring_up-IsKept :
      (runs : Bool) (target : String) (config : InterfaceConfig)
      (laws : TomlLaws toml (with_private_key (to_base64 base64 keypair.private) config))
      (files : FileSystem) (s : S) (device : Option DeviceConfigBuilder)
      → node_at target files ≡ none
      → let r =
          bring_up ask local base64 toml accepts keypair left runs target config files s device in
        IsStopped files s r
        ⊎ IsKept target config files (redeemed ask local base64 toml accepts keypair left s) r
  unfolding bring_up
  bring_up-IsKept runs target config laws files s none free =
      inl (refl, refl, no_config-fails (from_base64 base64 config.server.public_key))
  bring_up-IsKept runs target config laws files s (some device) free = settled (accepts device) runs
    where
      settled :
          (fits ran : Bool)
          → let r =
              if not fits
              then stopped ask local base64 toml accepts keypair left files s [] failed
              else if not ran
              then stopped ask local base64 toml accepts keypair left files s (device ∷ []) failed
              else after_redeem ask local base64 toml accepts keypair left target config files
                  (device ∷ [])
                  (redeemed ask local base64 toml accepts keypair left s) in
            IsStopped files s r
            ⊎ IsKept target config files (redeemed ask local base64 toml accepts keypair left s) r
      settled false ran = inl (refl, refl, λ e. ground (arith, e))
      settled true false = inl (refl, refl, λ e. ground (arith, e))
      settled true true = inr (
          after_redeem-IsKept target config laws files (device ∷ [])
            (redeemed ask local base64 toml accepts keypair left s) free)

  -- The server is told of the key that was made only where a configuration can be read and nothing
  -- stands at the path for the new one; before that, a failure leaves the server alone, and of the
  -- files changes just the directory. Where the server answers that it took the key, the key is read
  -- at that path, in the configuration of the invitation, or else an error of I/O ended the writing
  -- and the command fails with what that left of the files. Where no such answer comes, be it lost,
  -- the files are as before and the command does not end well.
  pub install-IsKept :
      (runs : Bool) (invite target : String) (fs : FileSystem) (s : S)
      (laws : (c : InterfaceConfig)
        → from_file toml invite (ensure_dirs_exist (client_config_path ∷ []) fs) ≡ some c
        → TomlLaws toml (with_private_key (to_base64 base64 keypair.private) c))
      → let files = ensure_dirs_exist (client_config_path ∷ []) fs in
        let r = install ask local base64 toml accepts keypair left runs invite target fs s in
        ((r.files ≡ files) × (r.server ≡ s) × (r.answer ≢ got tt))
        ⊎ ((config : InterfaceConfig) × (from_file toml invite files ≡ some config)
            × (node_at target files ≡ none)
            × IsKept target config files (redeemed ask local base64 toml accepts keypair left s) r)
  unfolding install install_at
  install-IsKept runs invite target fs s laws =
      settled (from_file toml invite files) (node_at target files) (λ c e. e) (λ e. e)
    where
      files : FileSystem
      files = ensure_dirs_exist (client_config_path ∷ []) fs

      settled :
          (read : Option InterfaceConfig) (there : Option Node)
          → ((c : InterfaceConfig) → read ≡ some c → from_file toml invite files ≡ some c)
          → (there ≡ none → node_at target files ≡ none)
          → let r =
              install_at ask local base64 toml accepts keypair left runs target files s read
                (elim there [ none ↦ false | some _ ↦ true ]) in
            IsStopped files s r
            ⊎ ((config : InterfaceConfig) × (from_file toml invite files ≡ some config)
                × (node_at target files ≡ none)
                × IsKept target config files
                    (redeemed ask local base64 toml accepts keypair left s)
                    r)
      settled none there is_read free = inl (refl, refl, λ e. ground (arith, e))
      settled (some config) (some n) is_read free = inl (refl, refl, λ e. ground (arith, e))
      settled (some config) none is_read free =
          elim (bring_up-IsKept runs target config (laws config (is_read config refl)) files s _
            (free refl)) [ inl h ↦ inl h | inr k ↦ inr (config, is_read config refl, free refl, k) ]
