-- ===== src/Scopes/Ending.antt =====
-- The leases end by themselves, and a path is observed once.
use tirion_watch.Prelude.{
  ℕ, ◌+◌, ◌≤◌, String, Option, none, some, List, [], ◌∷◌, ◌++◌, ◌≡◌, refl, subst, ◌∙◌, map, true,
  not, ◌&&◌, ◌||◌, if_ind, All, All-select, All-map_set, includes, IsUnique, ◌===◌, text_comparable,
  eq_iff, select, map_get, map_set, map_delete, values, time_leb, arith,
}
use tirion_watch.Scopes.Model.{
  repository, RepositoryLocator, RepositoryWorkspaceLease, LeaseEntry, ScopeHost,
}
use tirion_watch.Scopes.{
  Scopes, is_active, canonical_scope_path, valid_lease_ttl, list_records, decrypt_all,
  unique_locators,
}
use tirion_watch.Scopes.Leases.{
  Leases, Leased, expiry_of_lease, with_expiry, is_expired, prune, new_entry, acquire_found,
  lease_at, acquire_workspace_lease, renew_found, renew_workspace_lease, list_workspace_leases,
  active_locators, release_workspace_lease,
}
use tirion_watch.Scopes.Readable.{and_on-some}

abbrev pub paths : List RepositoryLocator → List String
paths locators = map (λ l. l.path) locators

unique_locators-paths :
    (seen : List String) (ls : List RepositoryLocator) (p : String)
    → includes (paths (unique_locators seen ls)) p
      ≡ (not (includes seen p) && includes (paths ls) p)
unfolding unique_locators
unique_locators-paths seen [] p = ground arith
unique_locators-paths seen (l ∷ ls) p = ground (
  arith,
  unique_locators-paths seen ls p,
  unique_locators-paths (l.path ∷ seen) ls p,
  eq_iff l.path p,
)

unique_locators-IsUnique :
    (seen : List String) (ls : List RepositoryLocator) → IsUnique (paths (unique_locators seen ls))
unfolding unique_locators
unique_locators-IsUnique seen [] = tt
unique_locators-IsUnique seen (l ∷ ls) = ground (
  arith,
  unique_locators-IsUnique seen ls,
  unique_locators-IsUnique (l.path ∷ seen) ls,
  unique_locators-paths (l.path ∷ seen) ls l.path,
  eq_iff l.path l.path,
)

module _ (env : ScopeHost) where
  abbrev lease_paths : Leases → List String
  lease_paths leases = paths (map (λ e. e.locator) (values leases))

  -- activeLocators names a path exactly when an active stored scope or a lease that has not expired has
  -- it, and names it once.
  pub active_locators_lem :
      (now : ℕ) (scopes : Scopes) (leases : Leases) (active : Leased (List RepositoryLocator))
      → active_locators env now scopes leases ≡ some active
      → (persistent : List RepositoryLocator) × (decrypt_all env
            (select (λ r. is_active r.scope.state) (list_records scopes))
          ≡ some persistent)
        × ((p : String)
            → includes (paths active.result) p ≡ (
                includes (paths persistent) p
                || includes (lease_paths (select (λ e. not (is_expired env now e.1)) leases)) p))
        × IsUnique (paths active.result)
  unfolding active_locators prune
  active_locators_lem now scopes leases active e =
      let live = select (λ (e : String × LeaseEntry). not (is_expired env now e.1)) leases in
      let (persistent, read, last) =
        and_on-some (decrypt_all env (select (λ r. is_active r.scope.state) (list_records scopes)))
          _ active e in
      let all = persistent ++ map (λ e. e.locator) (values live) in
      let shown : unique_locators [] all ≡ active.result = cc last in
      (
        persistent,
        read,
        (λ p.
            subst
              (λ xs.
                includes (paths xs) p
                ≡ (includes (paths persistent) p || includes (lease_paths live) p))
              shown
              (unique_locators-paths [] all p
                ∙ paths-append persistent (map (λ e. e.locator) (values live)) p)),
        subst (λ xs. IsUnique (paths xs)) shown (unique_locators-IsUnique [] all),
      )
    where
      paths-append :
          (ls ms : List RepositoryLocator) (p : String)
          → includes (paths (ls ++ ms)) p ≡ (includes (paths ls) p || includes (paths ms) p)
      paths-append [] ms p = refl
      paths-append (l ∷ ls) ms p = ground (arith, paths-append ls ms p)

  -- The leases that the calls lead to, and when the last was given or lease_renewed.
  pub data Held : ℕ → Leases → Type 0 where
    no_leases : Held 0 []
    acquired :
        {before : ℕ} {leases : Leases} (id requested environment_id : String) (ttl now : ℕ)
        {r : Leased RepositoryWorkspaceLease}
        → Held before leases
        → before ≤ now
        → acquire_workspace_lease env id requested environment_id ttl now leases ≡ some r
        → Held now r.leases
    lease_renewed :
        {before : ℕ} {leases : Leases} (id : String) (ttl now : ℕ)
        {r : Leased (Option RepositoryWorkspaceLease)}
        → Held before leases
        → before ≤ now
        → renew_workspace_lease env id ttl now leases ≡ some r
        → Held now r.leases
    released :
        {before : ℕ} {leases : Leases} (id : String)
        → Held before leases
        → Held before (release_workspace_lease id leases).leases
    listed :
        {before : ℕ} {leases : Leases} (now : ℕ)
        → Held before leases
        → Held before (list_workspace_leases env now leases).leases

  module _ (clock : (at : ℕ) → env.host.get_time (env.write_time at) ≡ some at) where
    -- A lease that expires at most five minutes behind a time.
    Ends : ℕ → String × LeaseEntry → Type 0
    Ends last e =
        (at : ℕ) × (env.host.get_time e.1.lease.expires_at ≡ some at) × (at ≤ last + 300000)

    Ends-later : (a b : ℕ) → a ≤ b → (l : Leases) → All (Ends a) l → All (Ends b) l
    unfolding Ends
    Ends-later a b le [] h = tt
    Ends-later a b le (e ∷ l) h =
        let (at, q, bound) = h.0 in ((at, q, omega (arith, bound, le)), Ends-later a b le l h.1)

    valid_lease_ttl-le : (ttl t : ℕ) → valid_lease_ttl ttl ≡ some t → t ≤ 300000
    unfolding valid_lease_ttl
    valid_lease_ttl-le ttl t e = ground (arith, e)

    fresh_Ends :
        (id : String) (entry : LeaseEntry) (ttl t now : ℕ)
        → valid_lease_ttl ttl ≡ some t
        → Ends now (id, with_expiry env (expiry_of_lease env now t) entry)
    unfolding Ends expiry_of_lease
    fresh_Ends id entry ttl t now e =
        (now + t, clock (now + t), omega (arith, valid_lease_ttl-le ttl t e))

    acquired_Ends :
        (id path environment_id : String) (ttl t now : ℕ) (found : Option (String × LeaseEntry))
        (l : Leases)
        → valid_lease_ttl ttl ≡ some t
        → All (Ends now) l
        → All
            (Ends now)
            (acquire_found env id path environment_id (expiry_of_lease env now t) found l).leases
    unfolding acquire_found new_entry
    acquired_Ends id path environment_id ttl t now (some (j, entry)) l e h =
        All-map_set (Ends now) j (with_expiry env (expiry_of_lease env now t) entry) l
          (fresh_Ends j entry ttl t now e) h
    acquired_Ends id path environment_id ttl t now none l e h =
        let entry = new_entry env id path environment_id (expiry_of_lease env now t) in
        All-map_set (Ends now) id entry l (fresh_Ends id entry ttl t now e) h

    renewed_Ends :
        (id : String) (ttl now : ℕ) (found : Option LeaseEntry) (l : Leases)
        (r : Leased (Option RepositoryWorkspaceLease))
        → renew_found env id ttl now found l ≡ some r
        → All (Ends now) l
        → All (Ends now) r.leases
    unfolding renew_found
    renewed_Ends id ttl now none l r e h =
        let same : l ≡ r.leases = ap_leases e in subst (All (Ends now)) same h
      where
        ap_leases : some (record { leases = l; result = none }) ≡ some r → l ≡ r.leases
        ap_leases q = cc q
    renewed_Ends id ttl now (some entry) l r e h =
        let (t, valid, last) = and_on-some (valid_lease_ttl ttl) _ r e in
        let next = with_expiry env (expiry_of_lease env now t) entry in
        let same : map_set id next l ≡ r.leases = cc last in
        subst (All (Ends now)) same
          (All-map_set (Ends now) id next l (fresh_Ends id entry ttl t now valid) h)

    released_Ends :
        (last : ℕ) (id : String) (l : Leases)
        → All (Ends last) l
        → All (Ends last) (map_delete id l)
    unfolding map_delete
    released_Ends last id [] h = tt
    released_Ends last id ((j, e) ∷ l) h =
        if_ind (All (Ends last)) (j === id) (λ _. h.1) (λ _. (h.0, released_Ends last id l h.1))

    Held-Ends : {last : ℕ} {l : Leases} → Held last l → All (Ends last) l
    unfolding acquire_workspace_lease renew_workspace_lease release_workspace_lease
        list_workspace_leases prune
    Held-Ends no_leases = tt
    Held-Ends (acquired {before} {leases} id requested environment_id ttl now {r} held le e) =
        let (path, _, rest) = and_on-some (canonical_scope_path env repository requested) _ r e in
        let (t, valid, last) = and_on-some (valid_lease_ttl ttl) _ r rest in
        let made =
          acquire_found env id path environment_id (expiry_of_lease env now t)
            (lease_at env path leases) leases in
        let same : made ≡ r = cc last in
        subst (λ (m : Leased RepositoryWorkspaceLease). All (Ends now) m.leases) same
          (acquired_Ends id path environment_id ttl t now (lease_at env path leases) leases valid
            (Ends-later before now le leases (Held-Ends held)))
    Held-Ends (lease_renewed {before} {leases} id ttl now {r} held le e) =
        let live = select (λ (e : String × LeaseEntry). not (is_expired env now e.1)) leases in
        renewed_Ends id ttl now (map_get id live) live r e (
          All-select (Ends now) (λ e. not (is_expired env now e.1)) leases
            (Ends-later before now le leases (Held-Ends held)))
    Held-Ends (released {before} {leases} id held) = released_Ends before id leases (Held-Ends held)
    Held-Ends (listed {before} {leases} now held) =
        All-select (Ends before) (λ e. not (is_expired env now e.1)) leases (Held-Ends held)

    prune-ended :
        (last now : ℕ) (l : Leases) → last + 300000 ≤ now → All (Ends last) l → prune env now l ≡ []
    unfolding prune is_expired Ends
    prune-ended last now [] le h = refl
    prune-ended last now ((j, e) ∷ l) le h =
        let (at, q, bound) = h.0 in
        let over : time_leb (some at) (some now) ≡ true = ground (arith, bound, le) in
        rw (q, over) (prune-ended last now l le h.1)

    -- With a clock that reads back the times it writes: five minutes after the last lease was given or
    -- lease_renewed no lease is left, whatever was released and listed between.
    pub leases_end :
        {last : ℕ} {l : Leases} (now : ℕ)
        → Held last l
        → last + 300000 ≤ now
        → (list_workspace_leases env now l).result ≡ []
    unfolding list_workspace_leases
    leases_end {last} {l} now held le = rw (prune-ended last now l le (Held-Ends held)) refl
