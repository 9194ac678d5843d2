-- ===== src/Scopes/Leases.antt =====
-- packages/agent/src/repositoryScopeManagement.ts: the leases of workspaces, which are kept in memory and
-- end by themselves. A mutation takes the time; `none` is a thrown error.
use tirion_watch.Prelude.{
  ℕ, ◌+◌, String, Option, none, some, List, [], ◌++◌, map, Bool, not, find, ◌===◌, text_comparable,
  select, map_get, map_set, map_delete, values, includes, keys, time_leb, length, ◌-◌,
}
use tirion_watch.Scopes.Model.{
  repository, RepositoryLocator, RepositoryWorkspaceLease, LeaseEntry, ScopeHost,
}
use tirion_watch.Scopes.{
  Scopes, and_on, or_text, canonical_scope_path, valid_lease_ttl, list_records, decrypt_all,
  unique_locators, is_active,
}

abbrev pub Leases : Type 0
Leases = List (String × LeaseEntry)

-- The leases behind a call, and its result.
pub record Leased (A : Type 0) : Type 0 where
  pub leases : Leases
  pub result : A

module _ (env : ScopeHost) where
  unfoldable pub expiry_of_lease : ℕ → ℕ → String
  expiry_of_lease now ttl = env.write_time (now + ttl)

  abbrev pub with_expiry : String → LeaseEntry → LeaseEntry
  with_expiry expiry entry = record entry { lease = record entry.lease { expires_at = expiry } }

  unfoldable pub is_expired : ℕ → LeaseEntry → Bool
  is_expired now entry = time_leb (env.host.get_time entry.lease.expires_at) (some now)

  -- `pruneExpiredLeases`
  unfoldable pub prune : ℕ → Leases → Leases
  prune now leases = select (λ e. not (is_expired now e.1)) leases

  unfoldable pub removed_count : ℕ → Leases → ℕ
  removed_count now leases = length leases - length (prune now leases)

  unfoldable pub new_entry : String → String → String → String → LeaseEntry
  new_entry lease_id path environment_id expiry = record {
    lease = record {
      lease_id = lease_id;
      label = or_text (env.basename path) "repository";
      environment_id = environment_id;
      expires_at = expiry;
    };
    locator = record { scope_id = lease_id; kind = repository; path = path; provider = none };
  }

  unfoldable pub acquire_found :
      String
      → String
      → String
      → String
      → Option (String × LeaseEntry)
      → Leases
      → Leased RepositoryWorkspaceLease
  acquire_found lease_id path environment_id expiry (some (id, entry)) leases = record {
    leases = map_set id (with_expiry expiry entry) leases;
    result = (with_expiry expiry entry).lease;
  }
  acquire_found lease_id path environment_id expiry none leases =
      let entry = new_entry lease_id path environment_id expiry in
      record { leases = map_set lease_id entry leases; result = entry.lease }

  -- The lease of a path, whether it has expired or not.
  abbrev pub lease_at : String → Leases → Option (String × LeaseEntry)
  lease_at path leases = find (λ e. e.1.locator.path === path) leases

  unfoldable pub acquire_workspace_lease :
      String → String → String → ℕ → ℕ → Leases → Option (Leased RepositoryWorkspaceLease)
  acquire_workspace_lease lease_id requested environment_id ttl_ms now leases =
      and_on (canonical_scope_path env repository requested) (λ path.
        and_on (valid_lease_ttl ttl_ms) (λ ttl. some (
          acquire_found lease_id path environment_id (expiry_of_lease now ttl)
            (lease_at path leases) leases)))

  unfoldable pub renew_found :
      String
      → ℕ
      → ℕ
      → Option LeaseEntry
      → Leases
      → Option (Leased (Option RepositoryWorkspaceLease))
  renew_found lease_id ttl_ms now none leases = some (record { leases = leases; result = none })
  renew_found lease_id ttl_ms now (some entry) leases = and_on (valid_lease_ttl ttl_ms) (λ ttl.
      let next = with_expiry (expiry_of_lease now ttl) entry in
      some (record { leases = map_set lease_id next leases; result = some next.lease }))

  unfoldable pub renew_workspace_lease :
      String → ℕ → ℕ → Leases → Option (Leased (Option RepositoryWorkspaceLease))
  renew_workspace_lease lease_id ttl_ms now leases =
      let live = prune now leases in renew_found lease_id ttl_ms now (map_get lease_id live) live

  unfoldable pub list_workspace_leases : ℕ → Leases → Leased (List RepositoryWorkspaceLease)
  list_workspace_leases now leases =
      let live = prune now leases in
      record { leases = live; result = map (λ e. e.lease) (values live) }

  -- `activeLocators`: the stored scopes that are active, then the leases.
  unfoldable pub active_locators : ℕ → Scopes → Leases → Option (Leased (List RepositoryLocator))
  active_locators now scopes leases =
      let live = prune now leases in
      and_on (decrypt_all env (select (λ r. is_active r.scope.state) (list_records scopes)))
        (λ persistent. some (record {
          leases = live;
          result = unique_locators [] (persistent ++ map (λ e. e.locator) (values live));
        }))

  unfoldable pub all_locators : ℕ → Scopes → Leases → Option (Leased (List RepositoryLocator))
  all_locators now scopes leases =
      let live = prune now leases in
      and_on (decrypt_all env (list_records scopes)) (λ persistent. some (record {
        leases = live;
        result = unique_locators [] (persistent ++ map (λ e. e.locator) (values live));
      }))

unfoldable pub release_workspace_lease : String → Leases → Leased Bool
release_workspace_lease lease_id leases = record {
  leases = map_delete lease_id leases;
  result = includes (keys leases) lease_id;
}
