-- ===== src/Scoring/Service.antt =====
-- ScoreService and ScoreRunner of internal/application/scoring.go, with the snapshots of
-- internal/domain/score_snapshot.go. What the repositories answer is an argument.
use bagualu.Base.{
  ℕ, ◌-◌, String, ◌⊎◌, inl, inr, Bool, false, not, ◌||◌, Option, none, some, List, [], ◌∷◌, ◌++◌,
  ◌==◌, nat_eq, string_eq, if◌then◌else◌,
}
use bagualu.Base.Floats.{Floats, zero_float}
use bagualu.Jobs.{RunnerJob, update_job}
use bagualu.Scoring.{ScorePolicy, Measurement, Recommendation, Score, new_policy, recalculate}

pub record ScoreSnapshot (F : Type 0) : Type 0 where
  pub id : String
  pub node_id : String
  pub latency : F
  pub speed : F
  pub availability : F
  pub overall : F
  pub status : Recommendation
  pub latency_samples : ℕ
  pub speed_samples : ℕ
  pub availability_samples : ℕ
  pub strategy_version : ℕ
  pub calculated_at : ℕ

abbrev pub score_snapshot_from_score : {F : Type 0} → String → String → Score F → ScoreSnapshot F
score_snapshot_from_score id node_id s = record {
  id = id;
  node_id = node_id;
  latency = s.latency;
  speed = s.speed;
  availability = s.availability;
  overall = s.overall;
  status = s.status;
  latency_samples = s.latency_samples;
  speed_samples = s.speed_samples;
  availability_samples = s.availability_samples;
  strategy_version = s.strategy_version;
  calculated_at = s.calculated_at;
}

abbrev pub to_score : {F : Type 0} → ScoreSnapshot F → Score F
to_score s = record {
  latency = s.latency;
  speed = s.speed;
  availability = s.availability;
  overall = s.overall;
  status = s.status;
  latency_samples = s.latency_samples;
  speed_samples = s.speed_samples;
  availability_samples = s.availability_samples;
  strategy_version = s.strategy_version;
  calculated_at = s.calculated_at;
}

-- Whether the service has its repositories, and its policy.
pub record ScoreService (F : Type 0) : Type 0 where
  pub is_configured : Bool
  pub policy : ScorePolicy F

-- What the repositories answer to one Recalculate: the error of FindByID, the error or the
-- measurements of FindSince from a time on, and the error of Save.
pub record ScoreRepositories (F : Type 0) : Type 0 where
  pub find_error : Option String
  pub find_since : ℕ → String ⊎ List (Measurement F)
  pub save_error : Option String

module _ {F : Type 0} (fl : Floats F) where
  unfoldable pub new_score_service : Bool → ScorePolicy F → ScoreService F
  new_score_service configured p = record { is_configured = configured; policy = new_policy fl p }

  -- The test of SetPolicy; its whole numbers are not negative.
  abbrev pub is_invalid_policy : ScorePolicy F → Bool
  is_invalid_policy p =
      (p.version == 0)
      || ((p.lookback == 0)
          || ((p.latency_window == 0)
              || ((p.speed_window == 0)
                  || ((p.minimum_availability_samples == 0)
                      || (fl.le p.speed_reference (zero_float fl)
                          || (fl.lt p.latency_weight (zero_float fl)
                              || (fl.lt p.speed_weight (zero_float fl)
                                  || (fl.lt p.availability_weight (zero_float fl)
                                      || fl.le
                                          (fl.add (fl.add p.latency_weight p.speed_weight)
                                            p.availability_weight)
                                          (zero_float fl)))))))))

  -- SetPolicy: its error, and the service.
  unfoldable pub set_policy : ScorePolicy F → ScoreService F → Option String × ScoreService F
  set_policy p s =
      if is_invalid_policy p
      then (some "invalid score policy", s)
      else (none, record s { policy = p })

  unfoldable pub saved :
      Option String
      → ScoreSnapshot F
      → List (ScoreSnapshot F)
      → (String ⊎ ScoreSnapshot F) × List (ScoreSnapshot F)
  saved none snapshot kept = (inr snapshot, kept ++ (snapshot ∷ []))
  saved (some e) snapshot kept = (inl e, kept)

  unfoldable pub scored_from :
      ScoreService F
      → ScoreRepositories F
      → ℕ
      → String
      → String
      → List (ScoreSnapshot F)
      → String ⊎ List (Measurement F)
      → (String ⊎ ScoreSnapshot F) × List (ScoreSnapshot F)
  unfolding saved
  scored_from s r now id node_id kept (inl e) = (inl e, kept)
  scored_from s r now id node_id kept (inr measurements) =
      saved r.save_error
        (score_snapshot_from_score id node_id (recalculate fl measurements s.policy now)) kept

  unfoldable pub score_found :
      ScoreService F
      → ScoreRepositories F
      → ℕ
      → String
      → String
      → List (ScoreSnapshot F)
      → Option String
      → (String ⊎ ScoreSnapshot F) × List (ScoreSnapshot F)
  unfolding scored_from
  score_found s r now id node_id kept (some e) = (inl e, kept)
  score_found s r now id node_id kept none =
      scored_from s r now id node_id kept (r.find_since (now - s.policy.lookback))

  -- Recalculate at a time and with a fresh ID, on the snapshots that are kept.
  unfoldable pub recalculate_node :
      ScoreService F
      → ScoreRepositories F
      → ℕ
      → String
      → String
      → List (ScoreSnapshot F)
      → (String ⊎ ScoreSnapshot F) × List (ScoreSnapshot F)
  unfolding score_found
  recalculate_node s r now id node_id kept =
      if not s.is_configured
      then (inl "score service is not configured", kept)
      else score_found s r now id node_id kept r.find_error

  unfoldable pub report_score :
      Bool
      → (String ⊎ ScoreSnapshot F) × List (ScoreSnapshot F)
      → RunnerJob
      → RunnerJob × List (ScoreSnapshot F)
  report_score refused (inl e, kept) job = (update_job refused "failed" 100 e job, kept)
  report_score refused (inr snapshot, kept) job = (update_job refused "succeeded" 100 "" job, kept)

  -- ScoreRunner.run, where the first and the last update of the job are refused or not.
  unfoldable pub run_job :
      Bool
      → Bool
      → ScoreService F
      → ScoreRepositories F
      → ℕ
      → String
      → String
      → RunnerJob
      → List (ScoreSnapshot F)
      → RunnerJob × List (ScoreSnapshot F)
  unfolding report_score
  run_job refused_first refused_last s r now id node_id job kept =
      if refused_first
      then (job, kept)
      else report_score refused_last (recalculate_node s r now id node_id kept)
          (update_job false "running" 10 "" job)

-- ScoreRunner.Submit up to the start of `run`: whether it is configured, the error of Save, and the
-- fresh ID; an error, or the ID of the job.
unfoldable pub submit_score : Bool → Option String → String → String ⊎ String
submit_score configured none id =
    if configured then inr id else inl "score recalculation is not configured"
submit_score configured (some e) id =
    if configured then inl e else inl "score recalculation is not configured"
