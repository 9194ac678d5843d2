-- ===== src/Episodes/Census.antt =====
-- What new evidence does to the evidence of an episode.
use mathlib.Core.List.{Memᴰ}
use tirion_watch.Prelude.{
  Option, none, some, List, [], ◌∷◌, ◌≡◌, refl, ◌∙◌, true, text_comparable, eq_iff, map_get,
  map_set, map_get-map_set, map_get-Memᴰ, index_from, arith, Host,
}
use tirion_watch.Attribution.{QueryWorkEvidence}
use tirion_watch.Episodes.Evidence.{
  evidence_key, merge_record, merge_pairs, merge_evidence_record, with_evidence, add_evidence,
  merge_evidence,
}

module _ (host : Host) where
  -- What a record of the merged evidence owes to the newest.
  pub record IsRenewed (item merged : QueryWorkEvidence) : Type 0 where
    pub query : merged.query_id ≡ item.query_id
    pub repository : merged.repo_key ≡ item.repo_key
    pub pairs : merged.causal_write_artifacts ≡ item.causal_write_artifacts
    pub rejected :
        merged.native_rejected_causal_write_artifacts ≡ item.native_rejected_causal_write_artifacts
    pub trusted : merged.baseline_trusted ≡ true → item.baseline_trusted ≡ true

  with_evidence-IsRenewed :
      (o : Option QueryWorkEvidence) (item : QueryWorkEvidence)
      → item.causal_write_artifacts_complete ≡ some true
      → IsRenewed item (with_evidence host o item)
  unfolding merge_evidence_record merge_record merge_pairs
  with_evidence-IsRenewed none item c = record {
    query = refl;
    repository = refl;
    pairs = refl;
    rejected = refl;
    trusted = λ h. h;
  }
  with_evidence-IsRenewed (some current) item c = record {
    query = refl;
    repository = refl;
    pairs = rw c refl;
    rejected = rw c refl;
    trusted = λ h. ground (arith, h);
  }

  -- Evidence with a complete census joins the evidence of an episode as a record that has exactly its
  -- causal and its rejected pairs, whatever was proved before, and that is trusted only if it is.
  pub complete_census_replaces :
      (existing : List QueryWorkEvidence) (item : QueryWorkEvidence)
      → item.causal_write_artifacts_complete ≡ some true
      → (merged : QueryWorkEvidence) × Memᴰ merged (merge_evidence host existing (item ∷ []))
        × IsRenewed item merged
  unfolding merge_evidence add_evidence
  complete_census_replaces existing item c =
      let before = index_from evidence_key [] existing in
      let key = evidence_key item in
      let merged = with_evidence host (map_get key before) item in
      (
        merged,
        map_get-Memᴰ key merged (map_set key merged before)
            (map_get-map_set key key merged before ∙ rw ((eq_iff key key).1 refl) refl),
        with_evidence-IsRenewed (map_get key before) item c,
      )
