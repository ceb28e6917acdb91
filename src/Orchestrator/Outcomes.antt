-- ===== src/Orchestrator/Outcomes.antt =====
-- The outcome that a job of internal/application/orchestrator.go delivers.
use bagualu.Base.{
  ℕ, zero, suc, ◌<◌, ◌≡◌, refl, sym, ◌∙◌, ◌≢◌, ◌⊎◌, inl, inr, Bool, true, false, not, ◌&&◌, Option,
  none, some, arith, ◌==◌, nat_eq, string_eq, str_eq_iff, Bool-cases, Option-cases,
}
use bagualu.Orchestrator.{
  LoadFigures, Outcome, TestJob, Answers, State, Error, wrap_job, loop, attempt, finalize,
  delivered, before_attempt, after_baseline, check_load, unblocked, after_run, after_round,
  validate_outcome, judged, apply_load_result, guarded, LoadResult,
}
use bagualu.Orchestrator.Accepted.{Some, won, loop-won}

module _ {F : Type 0} (zero_figures : LoadFigures F) (job : TestJob) where
  abbrev Round : Type 0
  Round = (Outcome F ⊎ (Outcome F × Option Error)) × State F

  abbrev pub IsOfJob : Outcome F → Type 0
  IsOfJob o = (o.job_id ≡ job.id) × (o.node_id ≡ job.node_id) × (o.kind ≡ job.kind)

  -- An outcome that ends a job before its run: no success, and not the node's fault.
  abbrev pub IsBlocked : Outcome F → Type 0
  IsBlocked o = (o.success ≡ false) × (o.infrastructure ≡ true) × IsOfJob o

  abbrev pub Held : Outcome F ⊎ (Outcome F × Option Error) → Type 0
  Held (inl o) = IsBlocked o
  Held (inr r) = Unit

  abbrev Stops : Option (Outcome F) → Type 0
  Stops none = Unit
  Stops (some o) = IsBlocked o

  apply_load-IsBlocked :
      (l : Option (LoadResult F)) (o : Outcome F)
      → IsBlocked o
      → IsBlocked (apply_load_result zero_figures job l o)
  apply_load-IsBlocked none o h = h
  apply_load-IsBlocked (some l) o h = elim (Bool-cases (l.status == "")) [
    | inl e ↦ rw e h
    | inr e ↦ rw e h
  ]

  after_baseline-Stops :
      (a : Answers F) (s : State F) → Stops (after_baseline zero_figures job a s).0
  unfolding after_baseline check_load
  after_baseline-Stops a s = elim (Bool-cases (job.kind == "throughput")) [
    | inr other ↦ simp other tt
    | inl same ↦
        simp same (elim (Bool-cases ((guarded zero_figures job a.load).status == "clean")) [
          | inl clean ↦ simp clean tt
          | inr busy ↦ simp busy (
              apply_load-IsBlocked (some (guarded zero_figures job a.load)) _
                (refl, refl, (refl, refl, refl)))
        ])
  ]

  before_attempt-Stops :
      (a : Answers F) (s : State F) → Stops (before_attempt zero_figures job a s).0
  unfolding before_attempt
  before_attempt-Stops a s = elim (Option-cases a.baseline) [
    | inl nil ↦ simp nil (refl, refl, (refl, refl, refl))
    | inr (b, is) ↦ simp is (elim (Bool-cases b.available) [
      | inr lost ↦ simp lost (refl, refl, (refl, refl, refl))
      | inl up ↦ simp up (elim (Bool-cases (s.observed && not s.ready)) [
        | inr steady ↦
            simp steady (after_baseline-Stops a (record s { observed = true; ready = true }))
        | inl again ↦ simp again (elim (Bool-cases a.stopped) [
          | inl halted ↦ simp halted (refl, refl, (refl, refl, refl))
          | inr wait ↦ simp wait (elim (Bool-cases a.recovery.available) [
            | inr down ↦ simp down (refl, refl, (refl, refl, refl))
            | inl back ↦
                simp back (after_baseline-Stops a (record s { observed = true; ready = true }))
          ])
        ])
      ])
    ])
  ]

  unblocked-Held :
      (a : Answers F) (o : Option (Outcome F)) (s : State F)
      → Stops o
      → Held (unblocked zero_figures job a (o, s)).0
  unfolding unblocked
  unblocked-Held a (some o) s h = h
  unblocked-Held a none s h = elim (Bool-cases (a.source_failed && (job.kind == "throughput"))) [
    | inl failed ↦ simp failed (apply_load-IsBlocked s.load _ (refl, refl, (refl, refl, refl)))
    | inr fine ↦ simp fine tt
  ]

  attempt-Held : (a : Answers F) (s : State F) → Held (attempt zero_figures job a s).0
  unfolding attempt
  attempt-Held a s =
      let r = before_attempt zero_figures job a s in
      unblocked-Held a r.0 r.1 (before_attempt-Stops a s)

  after_run-Held :
      (b : Bool) (wait : Option (Option Error)) (o : Outcome F) (err : Option Error) (s : State F)
      (next : State F → Round)
      → ((s : State F) → Held (next s).0)
      → Held (after_run zero_figures job b wait o err s next).0
  unfolding after_run
  after_run-Held true wait o err s next g = tt
  after_run-Held false none o err s next g = g s
  after_run-Held false (some e) o err s next g = tt

  after_round-Held :
      (a : Answers F) (r : Round) (next : State F → Round)
      → Held r.0
      → ((s : State F) → Held (next s).0)
      → Held (after_round zero_figures job a r next).0
  unfolding after_round
  after_round-Held a (inl o, s) next f g = f
  after_round-Held a (inr (o, err), s) next f g = after_run-Held _ a.backoff o err s next g

  loop-Held :
      (left k : ℕ) (script : ℕ → Answers F) (s : State F)
      → Held (loop zero_figures job left k script s).0
  unfolding loop
  loop-Held zero k script s = attempt-Held (script k) s
  loop-Held (suc left) k script s =
      after_round-Held (script k) (attempt zero_figures job (script k) s) _
        (attempt-Held (script k) s) (λ s'. loop-Held left (suc k) script s')

  finalize-IsOfJob :
      (err : Option Error) (o : Outcome F) → IsOfJob (finalize zero_figures job err o)
  unfolding finalize judged
  finalize-IsOfJob none o = ground arith
  finalize-IsOfJob (some e) o = ground arith

  -- What a success must show: the node, and growing traffic, except for a ping.
  abbrev pub IsProven : Outcome F → Type 0
  IsProven o =
      ((o.kind ≢ "connectivity") × (o.kind ≢ "throughput"))
      ⊎ ((o.node_name ≢ "") × (o.traffic_before < o.traffic_after))

  finalize-success :
      (err : Option Error) (o : Outcome F)
      → (finalize zero_figures job err o).success ≡ true
      → (won zero_figures job (inr (o, err)) ≡ true) × IsProven (finalize zero_figures job err o)
  unfolding finalize judged validate_outcome
  finalize-success none o h =
      let k1 = str_eq_iff job.kind "connectivity" in
      let k2 = str_eq_iff job.kind "throughput" in
      let n1 = str_eq_iff o.node_name "" in ground arith
  finalize-success (some e) o h = absurd (ground arith)

  delivered-IsOfJob :
      (r : Outcome F ⊎ (Outcome F × Option Error)) → Held r → IsOfJob (delivered zero_figures job r)
  unfolding delivered
  delivered-IsOfJob (inl o) h = h.2
  delivered-IsOfJob (inr (o, err)) h = finalize-IsOfJob err o

  delivered-success :
      (r : Outcome F ⊎ (Outcome F × Option Error))
      → Held r
      → (delivered zero_figures job r).success ≡ true
      → (won zero_figures job r ≡ true) × IsProven (delivered zero_figures job r)
  unfolding delivered
  delivered-success (inl o) h w = absurd (let lost : false ≡ true = sym h.0 ∙ w in cc lost)
  delivered-success (inr (o, err)) h w = finalize-success err o w

  -- Whatever the checks, the run and its errors answer, the outcome that is delivered carries the ID,
  -- the node and the kind of its job; and if the loop ended before a run, it is an infrastructure
  -- outcome without success.
  pub wrap_job-IsOfJob :
      (script : ℕ → Answers F) (s : State F)
      → IsOfJob (wrap_job zero_figures job script s).0
        × Held (loop zero_figures job job.retry 0 script s).0
  unfolding wrap_job
  wrap_job-IsOfJob script s =
      let held = loop-Held job.retry 0 script s in
      (delivered-IsOfJob (loop zero_figures job job.retry 0 script s).0 held, held)

  -- A delivered success comes from one of the attempts 0 to Retry, in which the baseline was
  -- available before and after the run, the run succeeded without an error and, for a throughput
  -- test, the load was clean before it and, if there is a contention checker, during it, and no
  -- check of the speed source failed; and except for a ping it names the node and shows traffic
  -- that grew.
  pub wrap_job-success :
      (script : ℕ → Answers F) (s : State F)
      → (wrap_job zero_figures job script s).0.success ≡ true
      → Some zero_figures job 0 job.retry script × IsProven (wrap_job zero_figures job script s).0
  unfolding wrap_job
  wrap_job-success script s h =
      let last = (loop zero_figures job job.retry 0 script s).0 in
      let (w, proven) = delivered-success last (loop-Held job.retry 0 script s) h in
      let (j, above, below, accepted) = loop-won zero_figures job job.retry 0 script s w in
      ((j, above, omega arith, accepted), proven)
