-- ===== src/Scopes/Model.antt =====
-- packages/agent-contract/src/index.ts, packages/agent-storage and
-- packages/agent/src/repositoryScopeManagement.ts: the scopes and leases, and what the code asks of the
-- operating system, of git, of the cipher and of JSON.
use tirion_watch.Prelude.{ℕ, String, Option, some, Bool, Host, ◌≡◌, ◌≢◌}

pub data ScopeKind : Type 0 where
  repository root : ScopeKind

pub data ScopeState : Type 0 where
  active paused : ScopeState

pub record RepositoryScope : Type 0 where
  pub scope_id : String
  pub kind : ScopeKind
  pub label : String
  pub state : ScopeState
  pub environment_id : String
  pub provider : Option String
  pub added_at : String
  pub updated_at : String
  pub last_observed_at : Option String

-- `provider` is left from an earlier format.
pub record RepositoryLocator : Type 0 where
  pub scope_id : String
  pub kind : ScopeKind
  pub path : String
  pub provider : Option String

pub record EncryptedRepositoryScope : Type 0 where
  pub scope : RepositoryScope
  pub locator_ciphertext : String
  pub locator_iv : String
  pub locator_tag : String

pub record RepositoryWorkspaceLease : Type 0 where
  pub lease_id : String
  pub label : String
  pub environment_id : String
  pub expires_at : String

pub record LeaseEntry : Type 0 where
  pub lease : RepositoryWorkspaceLease
  pub locator : RepositoryLocator

-- A buffer is the text of its bytes.
abbrev pub Bytes : Type 0
Bytes = String

-- What lies outside. The cipher is AES-256-GCM under the key of the agent: `encipher iv aad text`
-- is the ciphertext and the tag, `decipher iv aad tag ciphertext` is `none` where it throws.
pub record ScopeHost : Type 0 where
  pub host : Host
  -- `new Date(at).toISOString()`
  pub write_time : ℕ → String
  pub encipher : Bytes → String → String → Bytes × Bytes
  pub decipher : Bytes → String → Bytes → Bytes → Option String
  pub to_base64 : Bytes → String
  pub from_base64 : String → Bytes
  pub stringify : RepositoryLocator → String
  -- `none` where the text is no JSON or its path no text.
  pub parse : String → Option RepositoryLocator
  pub basename : String → String
  -- `realpathSync`, `statSync(path).isDirectory()` and `git rev-parse --show-toplevel`; `none` throws.
  pub realpath : String → Option String
  pub is_directory : String → Option Bool
  pub git_toplevel : String → Option String
  pub homedir : String

-- What the code relies on: base64 and JSON give back what they were given, and so does the cipher
-- under the same vector and associated data; a real path is not empty.
pub record IsFaithful (env : ScopeHost) : Type 0 where
  pub base64_back : (b : Bytes) → env.from_base64 (env.to_base64 b) ≡ b
  pub json_back : (l : RepositoryLocator) → env.parse (env.stringify l) ≡ some l
  pub cipher_back :
      (iv : Bytes) (aad text : String)
      → env.decipher iv aad (env.encipher iv aad text).1 (env.encipher iv aad text).0 ≡ some text
  pub path_named : (path real : String) → env.realpath path ≡ some real → real ≢ ""
