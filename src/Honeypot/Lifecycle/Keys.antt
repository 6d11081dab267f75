-- ===== src/Honeypot/Lifecycle/Keys.antt =====
-- src/honeywatch/honeypot/ssh.py, `_get_or_create_host_keys`: the files of the host keys. A directory
-- holds a key's bytes and the mode of its file by name; `generate` is asyncssh, whose key the n-th call
-- exports. A file system that fails is not modelled.
use honeywatch.Prelude.{
  ℕ, ◌+◌, ◌≡◌, ◌⊎◌, String, List, [], ◌∷◌, Option, none, some, str_eq, if◌then◌else◌,
}

pub record KeyFile : Type 0 where
  pub bytes : List ℕ
  pub mode : ℕ

pub record KeyDir : Type 0 where
  pub files : String → Option KeyFile
  pub generated : ℕ

abbrev pub rsa_key_path : String
rsa_key_path = "ssh_host_rsa_key"

abbrev pub ed25519_key_path : String
ed25519_key_path = "ssh_host_ed25519_key"

-- 0o600
abbrev pub private_mode : ℕ
private_mode = 384

-- `write_bytes` and `chmod`
abbrev pub write_key : String → List ℕ → KeyDir → KeyDir
write_key path bytes d = record {
  files = λ p.
      if str_eq p path then some (record { bytes = bytes; mode = private_mode }) else d.files p;
  generated = d.generated + 1;
}

module _ (generate : String → ℕ → List ℕ) where
  -- the part of one key
  abbrev pub create_key : String → String → KeyDir → Option KeyFile → KeyDir
  create_key path alg d none = write_key path (generate alg d.generated) d
  create_key path alg d (some _) = d

  unfoldable pub get_or_create_host_keys : KeyDir → KeyDir × List String
  get_or_create_host_keys d =
      let d1 = create_key rsa_key_path "ssh-rsa" d (d.files rsa_key_path) in
      (
        create_key ed25519_key_path "ssh-ed25519" d1 (d1.files ed25519_key_path),
        rsa_key_path ∷ ed25519_key_path ∷ [],
      )

  -- A directory after the call: both keys are there, each as it was before, or new and private, and
  -- the other files are as they were.
  pub record HasKeys (d e : KeyDir) : Type 0 where
    pub keeps : (p : String) (f : KeyFile) → d.files p ≡ some f → e.files p ≡ some f
    pub adds :
        (p : String) (f : KeyFile)
        → d.files p ≡ none
        → e.files p ≡ some f
        → (f.mode ≡ private_mode) × ((p ≡ rsa_key_path) ⊎ (p ≡ ed25519_key_path))
    pub rsa : (f : KeyFile) × (e.files rsa_key_path ≡ some f)
    pub ed25519 : (f : KeyFile) × (e.files ed25519_key_path ≡ some f)

  -- what one key's part does
  record Adds (path : String) (d e : KeyDir) : Type 0 where
    keeps : (p : String) (f : KeyFile) → d.files p ≡ some f → e.files p ≡ some f
    adds :
        (p : String) (f : KeyFile)
        → d.files p ≡ none
        → e.files p ≡ some f
        → (f.mode ≡ private_mode) × (p ≡ path)
    there : (f : KeyFile) × (e.files path ≡ some f)
