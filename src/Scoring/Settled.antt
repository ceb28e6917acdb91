-- ===== src/Scoring/Settled.antt =====
-- How a score job of internal/application/scoring.go ends.
use bagualu.Base.{
  ℕ, ◌-◌, String, ◌≡◌, refl, ap, ◌⊎◌, inl, inr, Bool, true, false, not, Option, none, some, List,
  [], ◌∷◌, ◌++◌, if◌then◌else◌,
}
use bagualu.Base.Floats.{Floats}
use bagualu.Jobs.{RunnerJob, running_job, update_job}
use bagualu.Scoring.{Measurement, recalculate}
use bagualu.Scoring.Service.{
  ScoreSnapshot, score_snapshot_from_score, to_score, ScoreService, ScoreRepositories, saved,
  scored_from, score_found, recalculate_node, report_score, run_job,
}

module _ {F : Type 0} (fl : Floats F) where
  -- Why Recalculate gives an error.
  pub data IsReason (s : ScoreService F) (r : ScoreRepositories F) (now : ℕ) (e : String)
      : Type 0 where
    unconfigured :
        s.is_configured ≡ false → e ≡ "score service is not configured" → IsReason s r now e
    not_found : r.find_error ≡ some e → IsReason s r now e
    not_read : r.find_since (now - s.policy.lookback) ≡ inl e → IsReason s r now e
    not_saved : r.save_error ≡ some e → IsReason s r now e

  -- How Recalculate ends: one snapshot more, which is the score of the measurements of the
  -- lookback, or an error and the same snapshots.
  pub data IsRecalculated (s : ScoreService F) (r : ScoreRepositories F) (now : ℕ)
      (node_id : String) (kept : List (ScoreSnapshot F))
      : (String ⊎ ScoreSnapshot F) × List (ScoreSnapshot F) → Type 0 where
    with_score :
        (l : List (Measurement F)) (snapshot : ScoreSnapshot F)
        → r.find_since (now - s.policy.lookback) ≡ inr l
        → snapshot.node_id ≡ node_id
        → to_score snapshot ≡ recalculate fl l s.policy now
        → IsRecalculated s r now node_id kept (inr snapshot, kept ++ (snapshot ∷ []))
    with_error :
        (e : String) → IsReason s r now e → IsRecalculated s r now node_id kept (inl e, kept)

  saved-IsRecalculated :
      (s : ScoreService F) (r : ScoreRepositories F) (now : ℕ) (id node_id : String)
      (kept : List (ScoreSnapshot F)) (l : List (Measurement F)) (o : Option String)
      → r.save_error ≡ o
      → r.find_since (now - s.policy.lookback) ≡ inr l
      → IsRecalculated s r now node_id kept
          (saved fl o (score_snapshot_from_score id node_id (recalculate fl l s.policy now)) kept)
  unfolding saved
  saved-IsRecalculated s r now id node_id kept l none e read =
      with_score l (score_snapshot_from_score id node_id (recalculate fl l s.policy now)) read refl
        refl
  saved-IsRecalculated s r now id node_id kept l (some x) e read = with_error x (not_saved e)

  scored_from-IsRecalculated :
      (s : ScoreService F) (r : ScoreRepositories F) (now : ℕ) (id node_id : String)
      (kept : List (ScoreSnapshot F)) (answer : String ⊎ List (Measurement F))
      → r.find_since (now - s.policy.lookback) ≡ answer
      → IsRecalculated s r now node_id kept (scored_from fl s r now id node_id kept answer)
  unfolding scored_from
  scored_from-IsRecalculated s r now id node_id kept (inl x) e = with_error x (not_read e)
  scored_from-IsRecalculated s r now id node_id kept (inr l) e =
      saved-IsRecalculated s r now id node_id kept l r.save_error refl e

  score_found-IsRecalculated :
      (s : ScoreService F) (r : ScoreRepositories F) (now : ℕ) (id node_id : String)
      (kept : List (ScoreSnapshot F)) (o : Option String)
      → r.find_error ≡ o
      → IsRecalculated s r now node_id kept (score_found fl s r now id node_id kept o)
  unfolding score_found
  score_found-IsRecalculated s r now id node_id kept none e =
      scored_from-IsRecalculated s r now id node_id kept (r.find_since (now - s.policy.lookback))
        refl
  score_found-IsRecalculated s r now id node_id kept (some x) e = with_error x (not_found e)

  configured-IsRecalculated :
      (s : ScoreService F) (r : ScoreRepositories F) (now : ℕ) (id node_id : String)
      (kept : List (ScoreSnapshot F)) (b : Bool)
      → s.is_configured ≡ b
      → IsRecalculated s r now node_id kept (
          if not b
          then (inl "score service is not configured", kept)
          else score_found fl s r now id node_id kept r.find_error)
  configured-IsRecalculated s r now id node_id kept true c =
      score_found-IsRecalculated s r now id node_id kept r.find_error refl
  configured-IsRecalculated s r now id node_id kept false c =
      with_error "score service is not configured" (unconfigured c refl)

  recalculate_node-IsRecalculated :
      (s : ScoreService F) (r : ScoreRepositories F) (now : ℕ) (id node_id : String)
      (kept : List (ScoreSnapshot F))
      → IsRecalculated s r now node_id kept (recalculate_node fl s r now id node_id kept)
  unfolding recalculate_node
  recalculate_node-IsRecalculated s r now id node_id kept =
      configured-IsRecalculated s r now id node_id kept s.is_configured refl

  -- What the job says at the end, by what Recalculate answered.
  abbrev pub told_job : Bool → String ⊎ ScoreSnapshot F → RunnerJob
  told_job refused (inl e) = update_job refused "failed" 100 e running_job
  told_job refused (inr snapshot) = update_job refused "succeeded" 100 "" running_job

  report_score-told :
      (refused : Bool) (answer : (String ⊎ ScoreSnapshot F) × List (ScoreSnapshot F))
      → report_score fl refused answer running_job ≡ (told_job refused answer.0, answer.1)
  unfolding report_score
  report_score-told refused (inl e, kept) = refl
  report_score-told refused (inr snapshot, kept) = refl

  -- A score job whose first update is not refused runs Recalculate once: either one snapshot of its
  -- node is added, whose score is that of the measurements of the lookback, and the job succeeded,
  -- or the snapshots stay and the job failed with the error that the service or a repository gave.
  -- If the last update is refused the job stays running.
  pub run_job-IsRecalculated :
      (refused : Bool) (s : ScoreService F) (r : ScoreRepositories F) (now : ℕ)
      (id node_id : String) (job : RunnerJob) (kept : List (ScoreSnapshot F))
      → (answer : String ⊎ ScoreSnapshot F) × ((run_job fl false refused s r now id node_id job
            kept).0
          ≡ told_job refused answer)
        × IsRecalculated s r now node_id kept
            (answer, (run_job fl false refused s r now id node_id job kept).1)
  unfolding run_job
  run_job-IsRecalculated refused s r now id node_id job kept =
      let answer = recalculate_node fl s r now id node_id kept in
      let told = report_score-told refused answer in
      (
        answer.0,
        ap (λ x. x.0) told,
        rw told (recalculate_node-IsRecalculated s r now id node_id kept),
      )
