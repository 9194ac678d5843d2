-- ===== src/Scopes/Tests.antt =====
-- A repository that is added, and a lease of a workspace. The texts of the locators, the times and the
-- cipher are simple ones that can be read back.
use Prim.Native.Nat.{Ordering}
use Prim.Native.Char.{Char, code}
use tirion_watch.Prelude.{
  ℕ, zero, suc, String, Option, none, some, List, [], ◌∷◌, ◌≡◌, ◌≢◌, inl, inr, refl, ap, ◌∙◌, true,
  false, ◌||◌, if◌then◌else◌, eqb, is_some, includes, IsUnique, ◌===◌, text_comparable, eq_iff,
  Bool-cases, select, sort_by, insert_sorted, str_leb, units, map_get, map_set, map_delete, trim,
  arith,
}
use tirion_watch.Scopes.Model.{
  ScopeKind, repository, root, RepositoryScope, RepositoryLocator, RepositoryWorkspaceLease,
  LeaseEntry, ScopeHost, IsFaithful,
}
use tirion_watch.Scopes.{
  Scopes, is_active, top_directory, directory_of, canonical_scope_path, valid_lease_ttl,
  list_records, upsert_record, encrypt, checked, decrypt, find_scope, renewed, new_scope,
  locator_at, add_found, add, decrypt_all, unique_locators,
}
use tirion_watch.Scopes.Leases.{
  Leased, expiry_of_lease, is_expired, prune, new_entry, acquire_found, acquire_workspace_lease,
  list_workspace_leases, active_locators,
}
use tirion_watch.Scopes.Readable.{
  decrypt-encrypt, Reached, no_scopes, after, added, locators_are_read,
}
use tirion_watch.Scopes.Ending.{paths, active_locators_lem, Held, no_leases, acquired, leases_end}

-- Two texts in one: each character of the first stands behind a mark.
pack : String → String → String
pack String.[] t = String.◌∷◌ ";" t
pack (String.◌∷◌ c s) t = String.◌∷◌ "," (String.◌∷◌ c (pack s t))

with_character : Char → Option (String × String) → Option (String × String)
with_character c none = none
with_character c (some (s, t)) = some (String.◌∷◌ c s, t)

unpack : String → Option (String × String)
unfolding with_character
unpack String.[] = none
unpack (String.◌∷◌ x String.[]) = some ("", "")
unpack (String.◌∷◌ x (String.◌∷◌ c r)) =
    let rest = unpack r in
    if eqb (code x) 59 then some ("", String.◌∷◌ c r) else with_character c rest

unpack-pack : (s t : String) → unpack (pack s t) ≡ some (s, t)
unfolding pack unpack with_character
unpack-pack String.[] String.[] = refl
unpack-pack String.[] (String.◌∷◌ c t) = refl
unpack-pack (String.◌∷◌ c s) t = rw (unpack-pack s t) refl

kind_name : ScopeKind → String
kind_name repository = "repository"
kind_name root = "root"

text_kind : String → ScopeKind
text_kind text = if text === "root" then root else repository

text_kind-text : (k : ScopeKind) → text_kind (kind_name k) ≡ k
unfolding text_kind kind_name
text_kind-text repository = refl
text_kind-text root = refl

provider_text : Option String → String
provider_text none = ""
provider_text (some p) = String.◌∷◌ "=" p

text_provider : String → Option String
text_provider String.[] = none
text_provider (String.◌∷◌ c p) = some p

text_provider-text : (p : Option String) → text_provider (provider_text p) ≡ p
unfolding text_provider provider_text
text_provider-text none = refl
text_provider-text (some p) = refl

write_locator : RepositoryLocator → String
unfolding pack kind_name provider_text
write_locator l = pack l.scope_id (pack l.path (pack (kind_name l.kind) (provider_text l.provider)))

read_rest : String → String → Option (String × String) → Option RepositoryLocator
unfolding text_kind text_provider
read_rest scope_id path none = none
read_rest scope_id path (some (kind, provider)) = some (record {
  scope_id = scope_id;
  kind = text_kind kind;
  path = path;
  provider = text_provider provider;
})

read_path : String → Option (String × String) → Option RepositoryLocator
unfolding read_rest unpack
read_path scope_id none = none
read_path scope_id (some (path, rest)) = read_rest scope_id path (unpack rest)

read_scope : Option (String × String) → Option RepositoryLocator
unfolding read_path unpack
read_scope none = none
read_scope (some (scope_id, rest)) = read_path scope_id (unpack rest)

read_locator : String → Option RepositoryLocator
unfolding read_scope unpack
read_locator text = read_scope (unpack text)

read_locator-write : (l : RepositoryLocator) → read_locator (write_locator l) ≡ some l
unfolding read_locator write_locator read_scope read_path read_rest
read_locator-write l =
    rw
      (
        unpack-pack l.scope_id (pack l.path (pack (kind_name l.kind) (provider_text l.provider))),
        unpack-pack l.path (pack (kind_name l.kind) (provider_text l.provider)),
        unpack-pack (kind_name l.kind) (provider_text l.provider),
        text_kind-text l.kind,
        text_provider-text l.provider,
      )
      refl

strokes : ℕ → String
strokes zero = ""
strokes (suc n) = String.◌∷◌ "|" (strokes n)

tally : String → ℕ
tally String.[] = 0
tally (String.◌∷◌ c s) = suc (tally s)

tally-strokes : (n : ℕ) → tally (strokes n) ≡ n
unfolding tally strokes
tally-strokes zero = refl
tally-strokes (suc n) = ap suc (tally-strokes n)

abbrev env : ScopeHost
env = record {
  host = record { get_time = λ s. some (tally s); locale_compare = λ a b. Ordering.eq };
  write_time = strokes;
  encipher = λ iv aad text. (text, aad);
  decipher = λ iv aad tag text. if tag === aad then some text else none;
  to_base64 = λ b. b;
  from_base64 = λ s. s;
  stringify = write_locator;
  parse = read_locator;
  basename = λ path. path;
  realpath = λ path. if path === "" then none else some path;
  is_directory = λ path. some true;
  git_toplevel = λ path. some path;
  homedir = "/home/a";
}

real_path_named : (path real : String) → env.realpath path ≡ some real → real ≢ ""
real_path_named path real e q = elim (Bool-cases (path === "")) [
  | inl empty ↦ ground (arith, empty, e)
  | inr named ↦
      let same_entry : some path ≡ some real = rw named at e in
      let same : path ≡ real = cc same_entry in ground (arith, named, (eq_iff path "").1 (same ∙ q))
]

faithful : IsFaithful env
faithful = record {
  base64_back = λ b. refl;
  json_back = read_locator-write;
  cipher_back = λ iv aad text. rw ((eq_iff aad aad).1 refl) refl;
  path_named = real_path_named;
}

program : Unit {0}
unfolding top_directory directory_of canonical_scope_path valid_lease_ttl list_records upsert_record
    encrypt checked decrypt find_scope renewed new_scope locator_at add_found add decrypt_all
    unique_locators expiry_of_lease is_expired prune new_entry acquire_found acquire_workspace_lease
    list_workspace_leases active_locators sort_by insert_sorted str_leb units map_get map_set
    map_delete trim
program = tt

abbrev scope : RepositoryScope
unfolding program
scope = new_scope env "scope_1" repository "/work/r" "local" "09:00"

abbrev locator : RepositoryLocator
locator = record { scope_id = "scope_1"; kind = repository; path = "/work/r"; provider = none }

abbrev stored : Scopes
unfolding program
stored = ("scope_1", encrypt env "iv" scope locator) ∷ []

added_scope : add env "iv" "scope_1" "/work/r" repository "local" "09:00" [] ≡ some (stored, scope)
unfolding program stored scope
added_scope = refl

decrypt-encrypt_example : decrypt env (encrypt env "iv" scope locator) ≡ some locator
unfolding scope program
decrypt-encrypt_example =
    decrypt-encrypt env faithful "iv" scope locator refl refl (λ e. absurd (cc e))

reached : Reached env faithful stored
reached = after no_scopes (added "iv" "scope_1" "/work/r" repository "local" "09:00" added_scope)

locators_are_read_example : is_some (decrypt_all env (list_records stored)) ≡ true
locators_are_read_example = locators_are_read env faithful reached

-- A lease of five minutes that is given at time 7.
abbrev lease_entry : LeaseEntry
unfolding program
lease_entry = new_entry env "lease_1" "/work/r" "local" (expiry_of_lease env 7 300000)

abbrev leased : Leased RepositoryWorkspaceLease
unfolding program lease_entry
leased = record { leases = ("lease_1", lease_entry) ∷ []; result = lease_entry.lease }

acquired_lease : acquire_workspace_lease env "lease_1" "/work/r" "local" 300000 7 [] ≡ some leased
unfolding program leased lease_entry
acquired_lease = refl

held : Held env 7 leased.leases
unfolding leased
held = acquired "lease_1" "/work/r" "local" 300000 7 no_leases (omega arith) acquired_lease

leases_end_example : (list_workspace_leases env 300007 leased.leases).result ≡ []
unfolding leased
leases_end_example = leases_end env (λ at. ap some (tally-strokes at)) 300007 held (omega arith)

abbrev seen : Leased (List RepositoryLocator)
seen = record { leases = []; result = locator ∷ [] }

seen_is_active : active_locators env 7 stored [] ≡ some seen
unfolding program stored scope read_locator write_locator
seen_is_active = refl

active_locators_lem_example :
    (persistent : List RepositoryLocator) × (decrypt_all env
        (select (λ r. is_active r.scope.state) (list_records stored))
      ≡ some persistent)
    × ((p : String) → includes (paths seen.result) p ≡ (includes (paths persistent) p || false))
    × IsUnique (paths seen.result)
active_locators_lem_example = active_locators_lem env 7 stored [] seen seen_is_active
