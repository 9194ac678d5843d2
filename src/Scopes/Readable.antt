-- ===== src/Scopes/Readable.antt =====
-- Every stored scope can be read again.
use tirion_watch.Prelude.{
  ltb, length, units, String, Option, none, some, List, [], ◌∷◌, ◌≡◌, ◌≢◌, inl, inr, refl, ap,
  subst, ◌∙◌, Bool, true, false, not, ◌&&◌, ◌||◌, if_ind, All, All-sort_by, All-values, All-map_set,
  is_some, ◌===◌, text_comparable, eq_iff, Bool-cases, str_leb, sort_by, map_delete, values, arith,
}
use tirion_watch.Scopes.Model.{
  ScopeKind, repository, root, ScopeState, RepositoryScope, RepositoryLocator,
  EncryptedRepositoryScope, Bytes, ScopeHost, IsFaithful,
}
use tirion_watch.Scopes.{
  Scopes, same_kind, is_active, list_records, upsert_record, strip_scope_provider,
  strip_locator_provider, and_on, top_directory, directory_of, canonical_scope_path, encrypt,
  checked, decrypt, find_scope, renewed, new_scope, locator_at, add_found, add, record_of,
  decrypt_all, set_found, set_state, remove_scope,
}

-- What a locator owes to the scope that it is stored with.
abbrev Fits : RepositoryScope → RepositoryLocator → Type 0
Fits scope locator =
    (locator.scope_id ≡ scope.scope_id)
    × (same_kind locator.kind scope.kind ≡ true)
    × (locator.path ≢ "")

pub and_on-some {ℓ κ} :
    {A : Type ℓ} {B : Type κ} (o : Option A) (next : A → Option B) (b : B)
    → and_on o next ≡ some b
    → (a : A) × (o ≡ some a) × (next a ≡ some b)
and_on-some none next b e = ground (arith, e)
and_on-some (some a) next b e = (a, refl, e)

module _ (env : ScopeHost) where
  checked-Fits :
      (scope : RepositoryScope) (l : RepositoryLocator)
      → Fits scope l
      → checked env scope l ≡ some l
  unfolding checked
  checked-Fits scope l f =
      ground (arith, (eq_iff l.scope_id scope.scope_id).1 f.0, f.1, f.2, eq_iff l.path "")

  Fits-checked :
      (scope : RepositoryScope) (read l : RepositoryLocator)
      → checked env scope read ≡ some l
      → Fits scope l
  unfolding checked
  Fits-checked scope read l e =
      elim (Bool-cases (
        not (read.scope_id === scope.scope_id)
        || not (same_kind read.kind scope.kind)
        || read.path === "")) [
          | inl bad ↦ absurd (ground (arith, bad, e))
          | inr good ↦
              let same_entry : some read ≡ some l = rw good at e in
              let same : read ≡ l = cc same_entry in
              subst (Fits scope) same (
                (eq_iff read.scope_id scope.scope_id).0 (ground (arith, good)),
                ground (arith, good),
                (λ q. ground (arith, good, (eq_iff read.path "").1 q)),
              )
        ]

  -- A locator that the code reads belongs to its record.
  decrypt-Fits :
      (r : EncryptedRepositoryScope) (l : RepositoryLocator)
      → decrypt env r ≡ some l
      → Fits r.scope l
  unfolding decrypt
  decrypt-Fits r l e =
      let cipher =
        env.decipher (env.from_base64 r.locator_iv) r.scope.scope_id (env.from_base64 r.locator_tag)
          (env.from_base64 r.locator_ciphertext) in
      let (text, _, parsed) =
        and_on-some cipher (λ text. and_on (env.parse text) (checked env r.scope)) l e in
      let (read, _, good) = and_on-some (env.parse text) (checked env r.scope) l parsed in
      Fits-checked r.scope read l good

  module _ (faithful : IsFaithful env) where
    -- What is enciphered for a scope is read back with it, if the locator belongs to the scope and its
    -- path is not empty, where base64, JSON and the cipher give back what they were given.
    pub decrypt-encrypt :
        (iv : Bytes) (scope : RepositoryScope) (l : RepositoryLocator)
        → l.scope_id ≡ scope.scope_id
        → same_kind l.kind scope.kind ≡ true
        → l.path ≢ ""
        → decrypt env (encrypt env iv scope l) ≡ some l
    unfolding decrypt encrypt
    decrypt-encrypt iv scope l own kind named =
        let made = env.encipher iv scope.scope_id (env.stringify l) in
        rw
          (
            faithful.base64_back iv,
            faithful.base64_back made.0,
            faithful.base64_back made.1,
            faithful.cipher_back iv scope.scope_id (env.stringify l),
            faithful.json_back l,
          )
          (checked-Fits scope l (own, kind, named))

    -- An entry stands under the identity of its scope, and can be read.
    abbrev IsOpen : String × EncryptedRepositoryScope → Type 0
    IsOpen e = (e.0 ≡ e.1.scope.scope_id) × (is_some (decrypt env e.1) ≡ true)

    stored-IsOpen :
        (iv : Bytes) (scope : RepositoryScope) (l : RepositoryLocator) (scopes : Scopes)
        → Fits scope l
        → All IsOpen scopes
        → All IsOpen (upsert_record (encrypt env iv scope l) scopes)
    unfolding upsert_record encrypt
    stored-IsOpen iv scope l scopes f h =
        All-map_set IsOpen scope.scope_id (encrypt env iv scope l) scopes
          (refl, ground (arith, decrypt-encrypt iv scope l f.0 f.1 f.2)) h

    find_scope-read :
        (kind : ScopeKind) (path : String) (rs : List EncryptedRepositoryScope)
        (r : EncryptedRepositoryScope) (l : RepositoryLocator)
        → find_scope env kind path rs ≡ some (some (r, l))
        → decrypt env r ≡ some l
    unfolding find_scope
    find_scope-read kind path [] r l e = ground (arith, e)
    find_scope-read kind path (x ∷ xs) r l e =
        let (read, q, rest) = and_on-some (decrypt env x) _ (some (r, l)) e in
        elim (Bool-cases (read.path === path && same_kind read.kind kind)) [
          | inl hit ↦
              let same_entry : some (some (x, read)) ≡ some (some (r, l)) = rw hit at rest in
              let record_ : x ≡ r = cc same_entry in
              let locator : read ≡ l = cc same_entry in
              subst (λ a. decrypt env a ≡ some l) record_ (q ∙ ap some locator)
          | inr miss ↦ find_scope-read kind path xs r l (rw miss at rest)
        ]

    canonical_scope_path-named :
        (kind : ScopeKind) (requested path : String)
        → canonical_scope_path env kind requested ≡ some path
        → path ≢ ""
    unfolding canonical_scope_path directory_of top_directory
    canonical_scope_path-named kind requested path e =
        elim (Bool-cases (requested === "" || ltb 10000 (length (units requested)))) [
          | inl bad ↦ absurd (ground (arith, bad, e))
          | inr good ↦
              let chain : and_on (env.realpath requested) _ ≡ some path = rw good at e in
              let (real, resolved, checked_) = and_on-some (env.realpath requested) _ path chain in
              let (is_directory, _, found) = and_on-some (env.is_directory real) _ path checked_ in
              of_directory kind real resolved is_directory found
        ]
      where
        of_directory :
            (kind : ScopeKind) (real : String)
            → env.realpath requested ≡ some real
            → (b : Bool) → directory_of env kind real b ≡ some path
            → path ≢ ""
        of_directory kind real q false found = ground (arith, found)
        of_directory repository real q true found =
            let (top, _, resolved) = and_on-some (env.git_toplevel real) _ path found in
            faithful.path_named _ path resolved
        of_directory root real q true found =
            let (home, _, rest) = and_on-some (env.realpath env.homedir) _ path found in
            elim (Bool-cases (real === home)) [
              | inl same ↦ absurd (ground (arith, same, rest))
              | inr other ↦
                  let same_entry : some real ≡ some path = rw other at rest in
                  let same : real ≡ path = cc same_entry in
                  subst (λ p. p ≢ "") same (faithful.path_named requested real q)
            ]

    same_kind_refl : (k : ScopeKind) → same_kind k k ≡ true
    same_kind_refl repository = refl
    same_kind_refl root = refl

    renewed-IsOpen :
        (iv : Bytes) (now : String) (r : EncryptedRepositoryScope) (l : RepositoryLocator)
        (scopes : Scopes)
        → decrypt env r ≡ some l
        → All IsOpen scopes
        → All IsOpen (renewed env iv now r l scopes).0
    unfolding renewed
    renewed-IsOpen iv now r l scopes e h =
        let f = decrypt-Fits r l e in
        if_ind (λ (p : Scopes × RepositoryScope). All IsOpen p.0) (is_active r.scope.state)
          (λ _.
            if_ind (λ (p : Scopes × RepositoryScope). All IsOpen p.0)
              (is_some r.scope.provider || is_some l.provider)
              (λ _.
                stored-IsOpen iv (strip_scope_provider r.scope) (strip_locator_provider l) scopes f
                  h)
              (λ _. h))
          (λ _. stored-IsOpen iv _ (strip_locator_provider l) scopes f h)

    add_found-IsOpen :
        (iv : Bytes) (id : String) (kind : ScopeKind) (path environment_id now : String)
        (found : Option (EncryptedRepositoryScope × RepositoryLocator)) (scopes : Scopes)
        → path ≢ ""
        → ((r : EncryptedRepositoryScope) (l : RepositoryLocator)
            → found ≡ some (r, l)
            → decrypt env r ≡ some l)
        → All IsOpen scopes
        → All IsOpen (add_found env iv id kind path environment_id now found scopes).0
    unfolding add_found new_scope locator_at
    add_found-IsOpen iv id kind path environment_id now none scopes named read h =
        stored-IsOpen iv (new_scope env id kind path environment_id now)
          (locator_at env id kind path) scopes (refl, same_kind_refl kind, named) h
    add_found-IsOpen iv id kind path environment_id now (some (r, l)) scopes named read h =
        renewed-IsOpen iv now r l scopes (read r l refl) h

    add-IsOpen :
        (iv : Bytes) (id requested : String) (kind : ScopeKind) (environment_id now : String)
        (scopes m : Scopes) (s : RepositoryScope)
        → add env iv id requested kind environment_id now scopes ≡ some (m, s)
        → All IsOpen scopes
        → All IsOpen m
    unfolding add
    add-IsOpen iv id requested kind environment_id now scopes m s e h =
        let (path, at, rest) = and_on-some (canonical_scope_path env kind requested) _ (m, s) e in
        let (found, seen, last) =
          and_on-some (find_scope env kind path (list_records scopes)) _ (m, s) rest in
        let made = add_found env iv id kind path environment_id now found scopes in
        let same_entry : some made ≡ some (m, s) = last in
        let same : made.0 ≡ m = cc same_entry in
        subst (All IsOpen) same (
          add_found-IsOpen iv id kind path environment_id now found scopes
            (canonical_scope_path-named kind requested path at)
            (λ r l q. find_scope-read kind path (list_records scopes) r l (seen ∙ ap some q)) h)

    set_state-IsOpen :
        (iv : Bytes) (id : String) (state : ScopeState) (now : String) (scopes m : Scopes)
        → set_state env iv id state now scopes ≡ some m
        → All IsOpen scopes
        → All IsOpen m
    unfolding set_state set_found
    set_state-IsOpen iv id state now scopes m e h = of_found (record_of env id scopes) e
      where
        of_found :
            (found : Option EncryptedRepositoryScope)
            → set_found env iv state now found scopes ≡ some m
            → All IsOpen m
        of_found none q = let same : scopes ≡ m = cc q in subst (All IsOpen) same h
        of_found (some r) q =
            let (l, read, last) = and_on-some (decrypt env r) _ m q in
            let stored =
              upsert_record
                (encrypt env iv
                  (record (strip_scope_provider r.scope) { state = state; updated_at = now })
                  (strip_locator_provider l))
                scopes in
            let same_entry : some stored ≡ some m = last in
            let same : stored ≡ m = cc same_entry in
            subst (All IsOpen) same (
              stored-IsOpen iv
                (record (strip_scope_provider r.scope) { state = state; updated_at = now })
                (strip_locator_provider l) scopes (decrypt-Fits r l read) h)

    removed-IsOpen :
        (id : String) (scopes : Scopes) → All IsOpen scopes → All IsOpen (map_delete id scopes)
    unfolding map_delete
    removed-IsOpen id [] h = tt
    removed-IsOpen id ((j, r) ∷ scopes) h =
        if_ind (All IsOpen) (j === id) (λ _. h.1) (λ _. (h.0, removed-IsOpen id scopes h.1))

    -- The operations that change the table, those that throw left out as they change nothing.
    pub data Changes (scopes : Scopes) : Scopes → Type 0 where
      added :
          (iv : Bytes) (id requested : String) (kind : ScopeKind) (environment_id now : String)
          {m : Scopes} {s : RepositoryScope}
          → add env iv id requested kind environment_id now scopes ≡ some (m, s)
          → Changes scopes m
      set :
          (iv : Bytes) (id : String) (state : ScopeState) (now : String) {m : Scopes}
          → set_state env iv id state now scopes ≡ some m
          → Changes scopes m
      removed : (id : String) → Changes scopes (remove_scope id scopes)

    -- The tables that they lead to from the empty one.
    pub data Reached : Scopes → Type 0 where
      no_scopes : Reached []
      after : {scopes m : Scopes} → Reached scopes → Changes scopes m → Reached m

    changed-IsOpen : {scopes m : Scopes} → Changes scopes m → All IsOpen scopes → All IsOpen m
    unfolding remove_scope
    changed-IsOpen {scopes} (added iv id requested kind environment_id now {m} {s} e) h =
        add-IsOpen iv id requested kind environment_id now scopes m s e h
    changed-IsOpen {scopes} (set iv id state now {m} e) h =
        set_state-IsOpen iv id state now scopes m e h
    changed-IsOpen {scopes} (removed id) h = removed-IsOpen id scopes h

    reached-IsOpen : {scopes : Scopes} → Reached scopes → All IsOpen scopes
    reached-IsOpen no_scopes = tt
    reached-IsOpen (after r c) = changed-IsOpen c (reached-IsOpen r)

    decrypt_all-is_some :
        (rs : List EncryptedRepositoryScope)
        → All (λ r. is_some (decrypt env r) ≡ true) rs
        → is_some (decrypt_all env rs) ≡ true
    unfolding decrypt_all
    decrypt_all-is_some [] h = refl
    decrypt_all-is_some (r ∷ rs) h = ground (arith, h.0, decrypt_all-is_some rs h.1)

    -- Whatever scopes are added, paused, activated and removed: the locators of all stored scopes can be
    -- read, so their listing does not throw.
    pub locators_are_read :
        {scopes : Scopes} → Reached scopes → is_some (decrypt_all env (list_records scopes)) ≡ true
    unfolding list_records
    locators_are_read {scopes} r =
        decrypt_all-is_some
          (sort_by (λ a b. str_leb a.scope.scope_id b.scope.scope_id) (values scopes))
          (All-sort_by (λ a b. str_leb a.scope.scope_id b.scope.scope_id)
            (λ a. is_some (decrypt env a) ≡ true) (values scopes)
            (All-values IsOpen (λ a. is_some (decrypt env a) ≡ true) (λ k v h. h.1) scopes
              (reached-IsOpen r)))
