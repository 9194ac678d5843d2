-- ===== src/Scopes.antt =====
-- packages/agent/src/repositoryScopeManagement.ts: the repositories and folders that the agent
-- observes. Their paths are stored enciphered; the table of packages/agent-storage/src/worker.ts is an
-- association list by scope, listed in the order of the identities. `none` is a thrown error, which leaves
-- the table as it was.
pub mod Model
mod Leases
mod Readable
mod Ending
mod Tests
use tirion_watch.Prelude.{
  ℕ, ◌*◌, String, Option, none, some, List, [], ◌∷◌, ◌++◌, ◌≡◌, map, Bool, true, false, not, ◌&&◌,
  ◌||◌, if◌then◌else◌, ltb, leb, length, select, find, is_some, get_or, includes, ◌===◌,
  text_comparable, Comparable, units, trim, str_leb, sort_by, map_get, map_set, map_delete, keys,
  values, time_leb,
}
use tirion_watch.Scopes.Model.{
  ScopeKind, repository, root, ScopeState, active, paused, RepositoryScope, RepositoryLocator,
  EncryptedRepositoryScope, RepositoryWorkspaceLease, LeaseEntry, Bytes, ScopeHost,
}

abbrev pub Scopes : Type 0
Scopes = List (String × EncryptedRepositoryScope)

abbrev pub same_kind : ScopeKind → ScopeKind → Bool
same_kind repository repository = true
same_kind root root = true
same_kind _ _ = false

abbrev pub is_active : ScopeState → Bool
is_active active = true
is_active paused = false

-- `listRepositoryScopes`, `ORDER BY scope_id`
unfoldable pub list_records : Scopes → List EncryptedRepositoryScope
list_records scopes = sort_by (λ a b. str_leb a.scope.scope_id b.scope.scope_id) (values scopes)

unfoldable pub upsert_record : EncryptedRepositoryScope → Scopes → Scopes
upsert_record record_ scopes = map_set record_.scope.scope_id record_ scopes

abbrev pub strip_scope_provider : RepositoryScope → RepositoryScope
strip_scope_provider scope = record scope { provider = none }

abbrev pub strip_locator_provider : RepositoryLocator → RepositoryLocator
strip_locator_provider locator = record locator { provider = none }

-- Of locators with one path the first stays.
unfoldable pub unique_locators : List String → List RepositoryLocator → List RepositoryLocator
unique_locators seen [] = []
unique_locators seen (l ∷ ls) =
    let again = unique_locators seen ls in
    let first = l ∷ unique_locators (l.path ∷ seen) ls in
    if includes seen l.path then again else first

unfoldable pub valid_lease_ttl : ℕ → Option ℕ
valid_lease_ttl ttl_ms = if ltb ttl_ms 10000 || ltb (5 * 60000) ttl_ms then none else some ttl_ms

abbrev pub or_text : String → String → String
or_text text default = if text === "" then default else text

-- A statement behind one that may throw.
abbrev pub and_on {ℓ κ} : {A : Type ℓ} {B : Type κ} → Option A → (A → Option B) → Option B
and_on none next = none
and_on (some a) next = next a

module _ (env : ScopeHost) where
  unfoldable pub top_directory : ScopeKind → String → Option String
  top_directory repository path = and_on (env.git_toplevel path) (λ top. env.realpath (trim top))
  top_directory root path =
      and_on (env.realpath env.homedir) (λ home. if path === home then none else some path)

  unfoldable pub directory_of : ScopeKind → String → Bool → Option String
  unfolding top_directory
  directory_of kind path true = top_directory kind path
  directory_of kind path false = none

  unfoldable pub canonical_scope_path : ScopeKind → String → Option String
  unfolding directory_of
  canonical_scope_path kind requested =
      if requested === "" || ltb 10000 (length (units requested))
      then none
      else and_on (env.realpath requested)
          (λ path. and_on (env.is_directory path) (directory_of kind path))

  unfoldable pub encrypt : Bytes → RepositoryScope → RepositoryLocator → EncryptedRepositoryScope
  encrypt iv scope locator =
      let made = env.encipher iv scope.scope_id (env.stringify locator) in
      record {
        scope = scope;
        locator_ciphertext = env.to_base64 made.0;
        locator_iv = env.to_base64 iv;
        locator_tag = env.to_base64 made.1;
      }

  -- The locator has to belong to the record.
  unfoldable pub checked : RepositoryScope → RepositoryLocator → Option RepositoryLocator
  checked scope locator =
      if not (locator.scope_id === scope.scope_id)
        || not (same_kind locator.kind scope.kind)
        || locator.path === ""
      then none
      else some locator

  unfoldable pub decrypt : EncryptedRepositoryScope → Option RepositoryLocator
  decrypt stored =
      and_on
        (env.decipher (env.from_base64 stored.locator_iv) stored.scope.scope_id
          (env.from_base64 stored.locator_tag) (env.from_base64 stored.locator_ciphertext))
        (λ text. and_on (env.parse text) (checked stored.scope))

  -- The first record for a path, with its locator; a record before it that cannot be read throws.
  unfoldable pub find_scope :
      ScopeKind
      → String
      → List EncryptedRepositoryScope
      → Option (Option (EncryptedRepositoryScope × RepositoryLocator))
  find_scope kind path [] = some none
  find_scope kind path (r ∷ rs) = and_on (decrypt r) (λ locator.
      if locator.path === path && same_kind locator.kind kind
      then some (some (r, locator))
      else find_scope kind path rs)

  unfoldable pub renewed :
      Bytes
      → String
      → EncryptedRepositoryScope
      → RepositoryLocator
      → Scopes
      → Scopes × RepositoryScope
  renewed iv now stored locator scopes =
      let bare = strip_scope_provider stored.scope in
      let next = record bare { state = active; updated_at = now } in
      if is_active stored.scope.state
      then (if is_some stored.scope.provider || is_some locator.provider
          then (upsert_record (encrypt iv bare (strip_locator_provider locator)) scopes, bare)
          else (scopes, stored.scope))
      else (upsert_record (encrypt iv next (strip_locator_provider locator)) scopes, next)

  unfoldable pub new_scope : String → ScopeKind → String → String → String → RepositoryScope
  new_scope scope_id kind path environment_id now = record {
    scope_id = scope_id;
    kind = kind;
    label = or_text (env.basename path) "filesystem-root";
    state = active;
    environment_id = environment_id;
    provider = none;
    added_at = now;
    updated_at = now;
    last_observed_at = none;
  }

  unfoldable pub locator_at : String → ScopeKind → String → RepositoryLocator
  locator_at scope_id kind path = record {
    scope_id = scope_id;
    kind = kind;
    path = path;
    provider = none;
  }

  unfoldable pub add_found :
      Bytes
      → String
      → ScopeKind
      → String
      → String
      → String
      → Option (EncryptedRepositoryScope × RepositoryLocator)
      → Scopes
      → Scopes × RepositoryScope
  add_found iv scope_id kind path environment_id now (some (stored, locator)) scopes =
      renewed iv now stored locator scopes
  add_found iv scope_id kind path environment_id now none scopes =
      let scope = new_scope scope_id kind path environment_id now in
      (upsert_record (encrypt iv scope (locator_at scope_id kind path)) scopes, scope)

  -- `scope_id` is the identity that `randomUUID` gives, `iv` the vector of `randomBytes`.
  unfoldable pub add :
      Bytes
      → String
      → String
      → ScopeKind
      → String
      → String
      → Scopes
      → Option (Scopes × RepositoryScope)
  add iv scope_id requested kind environment_id now scopes =
      and_on (canonical_scope_path kind requested) (λ path.
        and_on (find_scope kind path (list_records scopes))
          (λ found. some (add_found iv scope_id kind path environment_id now found scopes)))

  abbrev pub record_of : String → Scopes → Option EncryptedRepositoryScope
  record_of scope_id scopes = find (λ r. r.scope.scope_id === scope_id) (list_records scopes)

  -- `some none` is `undefined`.
  unfoldable pub locator_of : String → Scopes → Option (Option RepositoryLocator)
  locator_of scope_id scopes = elim (record_of scope_id scopes) [
    | none ↦ some none
    | some r ↦ and_on (decrypt r) (λ l. some (some (strip_locator_provider l)))
  ]

  unfoldable pub decrypt_all : List EncryptedRepositoryScope → Option (List RepositoryLocator)
  decrypt_all [] = some []
  decrypt_all (r ∷ rs) =
      and_on (decrypt r) (λ l. and_on (decrypt_all rs) (λ ls. some (strip_locator_provider l ∷ ls)))

  unfoldable pub set_found :
      Bytes → ScopeState → String → Option EncryptedRepositoryScope → Scopes → Option Scopes
  set_found iv state now none scopes = some scopes
  set_found iv state now (some r) scopes = and_on (decrypt r) (λ l. some (
      upsert_record
        (encrypt iv (record (strip_scope_provider r.scope) { state = state; updated_at = now })
          (strip_locator_provider l))
        scopes))

  unfoldable pub set_state : Bytes → String → ScopeState → String → Scopes → Option Scopes
  set_state iv scope_id state now scopes = set_found iv state now (record_of scope_id scopes) scopes

unfoldable pub remove_scope : String → Scopes → Scopes
remove_scope scope_id scopes = map_delete scope_id scopes
