-- ===== src/CommitPolicy/Inheritance.antt =====
-- Which queries a reportable commit is reported under, and when a query is inherited.
use mathlib.Core.List.{Memᴰ}
use tirion_watch.Prelude.{
  String, Bool, true, false, not, some, List, [], ◌∷◌, ◌++◌, ◌≡◌, map, arith, Bool-cases, inl, inr,
  ◌⊎◌, any, select, includes, eqb, length, text_comparable, option_equal_iff, eq_iff, Host,
  map-includes, Memᴰ-any, includes-sorted_unique_strings, includes-append, includes-select,
  sorted_unique_strings, is_present,
}
use tirion_watch.Attribution.{QueryWorkEvidence, AttributionProof}
use tirion_watch.CommitPolicy.{
  CommitAttributionPolicyInput, after_baseline, anchors, inherited, contradicts, proven_anchors,
  reportable_proof, evaluate_anchors, evaluate_commit_attribution,
}
use tirion_watch.CommitPolicy.Soundness.{Backs, evaluate_proof, proven_anchors-Backs}

-- Two members of a list with one element at most are the same.
includes-single :
    (xs : List String) (a b : String)
    → eqb (length xs) 1 ≡ true
    → includes xs a ≡ true
    → includes xs b ≡ true
    → a ≡ b
includes-single [] a b h k l = ground arith
includes-single (x ∷ []) a b h k l = ground (arith, eq_iff x a, eq_iff x b)
includes-single (x ∷ y ∷ xs) a b h k l = ground arith

-- What an inherited query has: it is idle, and none of its evidence speaks against the commit.
pub record Inherits (input : CommitAttributionPolicyInput) (q : String) : Type 0 where
  pub in_episode : includes input.episode.query_ids q ≡ true
  pub idle : includes input.active_query_ids q ≡ false
  pub no_anchor : includes (anchors input) q ≡ false
  pub consistent :
      (e : QueryWorkEvidence)
      → Memᴰ e input.episode.evidence
      → e.query_id ≡ q
      → (e.repo_key ≡ input.candidate.repo_key)
        × (e.epoch_id ≡ some input.candidate.epoch_id)
        × (after_baseline input.candidate e ≡ true)
        × (includes input.lineage_verified_query_ids q ≡ true)
  pub single_repository :
      (e e' : QueryWorkEvidence)
      → Memᴰ e input.episode.evidence
      → Memᴰ e' input.episode.evidence
      → is_present e.repo_key ≡ true
      → is_present e'.repo_key ≡ true
      → e.repo_key ≡ e'.repo_key

module _ (input : CommitAttributionPolicyInput) (q : String) where
  open input use {candidate, episode}

  consistent_of :
      any (contradicts input q) episode.evidence ≡ false
      → (e : QueryWorkEvidence) → Memᴰ e episode.evidence
      → e.query_id ≡ q
      → (e.repo_key ≡ candidate.repo_key)
        × (e.epoch_id ≡ some candidate.epoch_id)
        × (after_baseline candidate e ≡ true)
        × (includes input.lineage_verified_query_ids q ≡ true)
  consistent_of clean e m own = elim (Bool-cases (contradicts input q e)) [
    | inl bad ↦ cc (Memᴰ-any (contradicts input q) episode.evidence m bad)
    | inr good ↦ ground (
      arith,
      eq_iff e.query_id q,
      eq_iff e.repo_key candidate.repo_key,
      option_equal_iff e.epoch_id (some candidate.epoch_id),
    )
  ]

  single_of :
      eqb (length (sorted_unique_strings (map (λ e. e.repo_key) episode.evidence))) 1 ≡ true
      → (e e' : QueryWorkEvidence) → Memᴰ e episode.evidence
      → Memᴰ e' episode.evidence
      → is_present e.repo_key ≡ true
      → is_present e'.repo_key ≡ true
      → e.repo_key ≡ e'.repo_key
  single_of one e e' m m' p p' =
      includes-single repos e.repo_key e'.repo_key one (listed m p) (listed m' p')
    where
      keys : List String
      keys = map (λ x. x.repo_key) episode.evidence

      repos : List String
      repos = sorted_unique_strings keys

      listed :
          {x : QueryWorkEvidence}
          → Memᴰ x episode.evidence
          → is_present x.repo_key ≡ true
          → includes repos x.repo_key ≡ true
      listed {x} mx px =
          rw
            (
              includes-sorted_unique_strings keys x.repo_key,
              map-includes (λ (y : QueryWorkEvidence). y.repo_key) episode.evidence mx,
            )
            px

  pub inherited-Inherits : includes (inherited input) q ≡ true → Inherits input q
  unfolding inherited
  inherited-Inherits h = elim (Bool-cases one) [
    | inl single ↦
        let kept : includes (select clean (select idle (select fresh episode.query_ids))) q ≡ true =
          rw single at h in
        let facts = inherited_facts kept in
        record {
          in_episode = facts.0;
          idle = facts.1;
          no_anchor = facts.2;
          consistent = consistent_of facts.3;
          single_repository = single_of single;
        }
    | inr several ↦ let nothing : false ≡ true = rw several at h in cc
  ]
    where
      one : Bool
      one = eqb (length (sorted_unique_strings (map (λ e. e.repo_key) episode.evidence))) 1

      clean : String → Bool
      clean p = not (any (contradicts input p) episode.evidence)

      idle : String → Bool
      idle p = not (includes input.active_query_ids p)

      fresh : String → Bool
      fresh p = not (includes (anchors input) p)

      inherited_facts :
          includes (select clean (select idle (select fresh episode.query_ids))) q ≡ true
          → (includes episode.query_ids q ≡ true)
            × (includes input.active_query_ids q ≡ false)
            × (includes (anchors input) q ≡ false)
            × (any (contradicts input q) episode.evidence ≡ false)
      inherited_facts k = ground (
        arith,
        includes-select clean (select idle (select fresh episode.query_ids)) q,
        includes-select idle (select fresh episode.query_ids) q,
        includes-select fresh episode.query_ids q,
      )

-- Whenever a result carries a proof, each query that the proof calls inherited is in the episode,
-- is not active and is no anchor; all of its evidence is of the commit's repository and epoch, has
-- a baseline that the commit comes after, and then its lineage is verified; and all evidence of
-- the episode with a repository key that is not blank names one repository.
pub inherited_sound :
    (host : Host) (input : CommitAttributionPolicyInput) (proof : AttributionProof) (q : String)
    → (evaluate_commit_attribution input host).proof ≡ some proof
    → includes proof.inherited_query_ids q ≡ true
    → Inherits input q
unfolding reportable_proof
inherited_sound host input proof q h m =
    let (same, _, _) = evaluate_proof host input proof h in
    inherited-Inherits input q (rw same at m)

-- A query that the result reports is not active, and is either inherited or backed by evidence.
pub query_ids_sound :
    (host : Host) (input : CommitAttributionPolicyInput) (q : String)
    → includes (evaluate_commit_attribution input host).query_ids q ≡ true
    → (includes input.active_query_ids q ≡ false)
      × (Inherits input q ⊎ ((e : QueryWorkEvidence) × Backs input q e))
unfolding evaluate_commit_attribution evaluate_anchors anchors
query_ids_sound host input q h =
    let ids : List String = anchors input ++ inherited input in
    let idle : String → Bool = λ p. not (includes input.active_query_ids p) in
    let listed : includes ids q ≡ true = ground (arith, includes-sorted_unique_strings ids q) in
    elim (Bool-cases (includes (inherited input) q)) [
      | inl m ↦ let i = inherited-Inherits input q m in (i.idle, inl i)
      | inr n ↦
          let anchor : includes (anchors input) q ≡ true =
            ground (arith, includes-append (anchors input) (inherited input) q) in
          let (e, backs, _) =
            proven_anchors-Backs input q
              (ground (arith, includes-select idle (proven_anchors input) q)) in
          (ground (arith, includes-select idle (proven_anchors input) q), inr (e, backs))
    ]
