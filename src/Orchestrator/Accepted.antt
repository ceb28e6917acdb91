-- ===== src/Orchestrator/Accepted.antt =====
-- When a job of internal/application/orchestrator.go succeeds.
use bagualu.Base.{
  ℕ, zero, suc, ◌+◌, ◌≤◌, ◌≡◌, refl, sym, ◌∙◌, ◌≢◌, ◌⊎◌, inl, inr, Bool, true, false, not, ◌&&◌,
  Option, none, some, arith, ◌==◌, nat_eq, string_eq, str_eq_iff, Bool-cases, Option-cases,
}
use bagualu.Orchestrator.{
  LoadFigures, Outcome, TestJob, Answers, State, Error, BaselineResult, LoadResult, loop, attempt,
  before_attempt, after_baseline, check_load, unblocked, measured, confirm, contend, after_run,
  after_round, guarded, apply_load_result,
}

module _ {F : Type 0} (zero_figures : LoadFigures F) (job : TestJob) where
  abbrev pub IsClean : Option (LoadResult F) → Type 0
  IsClean none = Unit
  IsClean (some l) = l.status ≡ "clean"

  abbrev pub IsAvailable : Option BaselineResult → Type 0
  IsAvailable none = ⊥
  IsAvailable (some b) = b.available ≡ true

  -- What an attempt must have answered for its run to count.
  pub record IsAccepted (a : Answers F) : Type 0 where
    pub reachable_before : IsAvailable a.baseline
    pub reachable_after : a.after.available ≡ true
    pub ran : a.error ≡ none
    pub succeeded : a.outcome.success ≡ true
    pub quiet :
        (job.kind ≢ "throughput")
        ⊎ (((guarded zero_figures job a.load).status ≡ "clean")
            × IsClean a.contention
            × (a.source_failed ≡ false))

  abbrev pub won : Outcome F ⊎ (Outcome F × Option Error) → Bool
  won (inl o) = o.success
  won (inr (o, none)) = o.success
  won (inr (o, some e)) = false

  apply_load-success :
      (l : Option (LoadResult F)) (o : Outcome F)
      → (apply_load_result zero_figures job l o).success ≡ o.success
  apply_load-success none o = refl
  apply_load-success (some l) o = elim (Bool-cases (l.status == "")) [
    | inl e ↦ rw e refl
    | inr e ↦ rw e refl
  ]

  -- A check that lets the attempt go on has seen the condition, and one that does not is no success.
  abbrev Passes : Type 0 → Option (Outcome F) → Type 0
  Passes P none = P
  Passes P (some o) = o.success ≡ false

  Passes-map : {P Q : Type 0} → (P → Q) → (o : Option (Outcome F)) → Passes P o → Passes Q o
  Passes-map f none h = f h
  Passes-map f (some o) h = h

  other_kind : (job.kind == "throughput") ≡ false → job.kind ≢ "throughput"
  other_kind e same = let iff = str_eq_iff job.kind "throughput" in absurd (ground arith)

  abbrev IsQuiet : Answers F → Type 0
  IsQuiet a = (job.kind ≢ "throughput") ⊎ ((guarded zero_figures job a.load).status ≡ "clean")

  check_load-Passes :
      (load : LoadResult F) (s : State F)
      → Passes (load.status ≡ "clean") (check_load zero_figures job load s).0
  unfolding check_load
  check_load-Passes load s = elim (Bool-cases (load.status == "clean")) [
    | inl e ↦ rw e ((str_eq_iff load.status "clean").0 e)
    | inr e ↦ rw e (apply_load-success (some load) _)
  ]

  after_baseline-Passes :
      (a : Answers F) (s : State F) → Passes (IsQuiet a) (after_baseline zero_figures job a s).0
  unfolding after_baseline
  after_baseline-Passes a s = elim (Bool-cases (job.kind == "throughput")) [
    | inl e ↦ simp e (
        Passes-map {P = (guarded zero_figures job a.load).status ≡ "clean"} {Q = IsQuiet a} inr
          (check_load zero_figures job (guarded zero_figures job a.load) s).0
          (check_load-Passes (guarded zero_figures job a.load) s))
    | inr e ↦ simp e (inl (other_kind e))
  ]

  before_attempt-Passes :
      (a : Answers F) (s : State F)
      → Passes (IsAvailable a.baseline × IsQuiet a) (before_attempt zero_figures job a s).0
  unfolding before_attempt
  before_attempt-Passes a s = elim (Option-cases a.baseline) [
    | inl nil ↦ simp nil refl
    | inr (b, is) ↦ simp is (elim (Bool-cases b.available) [
      | inr lost ↦ simp lost refl
      | inl up ↦ simp up (elim (Bool-cases (s.observed && not s.ready)) [
        | inr steady ↦ simp steady (
            Passes-map {P = IsQuiet a} {Q = (true ≡ true) × IsQuiet a} (λ h. (refl, h))
              (after_baseline zero_figures job a (record s { observed = true; ready = true })).0
              (after_baseline-Passes a (record s { observed = true; ready = true })))
        | inl again ↦ simp again (elim (Bool-cases a.stopped) [
          | inl halted ↦ simp halted refl
          | inr wait ↦ simp wait (elim (Bool-cases a.recovery.available) [
            | inr down ↦ simp down refl
            | inl back ↦ simp back (
                Passes-map {P = IsQuiet a} {Q = (true ≡ true) × IsQuiet a} (λ h. (refl, h))
                  (after_baseline zero_figures job a (record s { observed = true; ready = true })).0
                  (after_baseline-Passes a (record s { observed = true; ready = true })))
          ])
        ])
      ])
    ])
  ]

  contend-success :
      (c : Option (LoadResult F)) (o : Outcome F)
      → (contend zero_figures job c o).success ≡ true
      → (o.success ≡ true) × IsClean c
  unfolding contend
  contend-success none o h = (h, tt)
  contend-success (some l) o h = elim (Bool-cases (l.status == "clean")) [
    | inl e ↦
        ((rw e at (sym (apply_load-success (some l) _) ∙ h)), (str_eq_iff l.status "clean").0 e)
    | inr e ↦
        absurd
          (let lost : false ≡ true = rw e at (sym (apply_load-success (some l) _) ∙ h) in cc lost)
  ]

  confirm-success :
      (after : BaselineResult) (o : Outcome F)
      → (confirm zero_figures job after o).success ≡ true
      → (o.success ≡ true) × (after.available ≡ true)
  unfolding confirm
  confirm-success after o h = ground arith

  measured-success :
      (a : Answers F) (o : Outcome F) (s : State F)
      → (measured zero_figures job a none o s).0.success ≡ true
      → (o.success ≡ true)
        × (a.after.available ≡ true)
        × ((job.kind ≢ "throughput") ⊎ IsClean a.contention)
  unfolding measured
  measured-success a o s = elim (Bool-cases (job.kind == "throughput")) [
    | inl e ↦ simp e (λ h.
        let c = contend-success a.contention _ h in
        let d = confirm-success a.after o c.0 in (d.0, d.1, inr c.1))
    | inr e ↦ simp e (λ h. let d = confirm-success a.after o h in (d.0, d.1, inl (other_kind e)))
  ]

  -- The answer of a round.
  abbrev Round : Type 0
  Round = (Outcome F ⊎ (Outcome F × Option Error)) × State F

  all_quiet :
      (a : Answers F)
      → IsQuiet a
      → (job.kind ≢ "throughput") ⊎ IsClean a.contention
      → (a.source_failed && (job.kind == "throughput")) ≡ false
      → (job.kind ≢ "throughput")
        ⊎ (((guarded zero_figures job a.load).status ≡ "clean")
            × IsClean a.contention
            × (a.source_failed ≡ false))
  all_quiet a (inl other) c e = inl other
  all_quiet a (inr l) (inl other) e = inl other
  all_quiet a (inr l) (inr c) e = elim (Bool-cases (job.kind == "throughput")) [
    | inl same ↦ inr (l, c, ground arith)
    | inr other ↦ inl (other_kind other)
  ]

  unblocked-won :
      (a : Answers F) (o : Option (Outcome F)) (s : State F)
      → Passes (IsAvailable a.baseline × IsQuiet a) o
      → won (unblocked zero_figures job a (o, s)).0 ≡ true
      → IsAccepted a
  unfolding unblocked
  unblocked-won a (some o) s h = λ w. absurd (let lost : false ≡ true = sym h ∙ w in cc lost)
  unblocked-won a none s h = elim (Bool-cases (a.source_failed && (job.kind == "throughput"))) [
    | inl failed ↦
        simp failed
          (λ w. absurd (let lost : false ≡ true = sym (apply_load-success s.load _) ∙ w in cc lost))
    | inr fine ↦ simp fine (elim (Option-cases a.error) [
      | inr (e, is) ↦ simp is (λ w. absurd (cc w))
      | inl nil ↦ simp nil (λ w.
          let m = measured-success a (apply_load_result zero_figures job s.load a.outcome) s w in
          record {
            reachable_before = h.0;
            reachable_after = m.1;
            ran = nil;
            succeeded = sym (apply_load-success s.load a.outcome) ∙ m.0;
            quiet = all_quiet a h.1 m.2 fine;
          })
    ])
  ]

  -- Some attempt of the script up to the last allowed one was accepted.
  abbrev pub Some : ℕ → ℕ → (ℕ → Answers F) → Type 0
  Some k last script = (j : ℕ) × (k ≤ j) × (j ≤ last) × IsAccepted (script j)

  attempt-won :
      (a : Answers F) (s : State F) → won (attempt zero_figures job a s).0 ≡ true → IsAccepted a
  unfolding attempt
  attempt-won a s w =
      let r = before_attempt zero_figures job a s in
      unblocked-won a r.0 r.1 (before_attempt-Passes a s) w

  after_run-won :
      {C : Type 0} (b : Bool) (wait : Option (Option Error)) (o : Outcome F) (e : Error)
      (s : State F) (next : State F → Round)
      → ((s : State F) → won (next s).0 ≡ true → C)
      → won (after_run zero_figures job b wait o (some e) s next).0 ≡ true
      → C
  unfolding after_run
  after_run-won true wait o e s next g w = absurd (cc w)
  after_run-won false none o e s next g w = g s w
  after_run-won false (some none) o e s next g w = absurd (cc w)
  after_run-won false (some (some e')) o e s next g w = absurd (cc w)

  after_round-won :
      {C : Type 0} (a : Answers F) (r : Round) (next : State F → Round)
      → (won r.0 ≡ true → C)
      → ((s : State F) → won (next s).0 ≡ true → C)
      → won (after_round zero_figures job a r next).0 ≡ true
      → C
  unfolding after_round after_run
  after_round-won a (inl o, s) next f g w = f w
  after_round-won a (inr (o, none), s) next f g w = f w
  after_round-won a (inr (o, some e), s) next f g w =
      after_run-won e.is_canceled a.backoff o e s next g w

  pub loop-won :
      (left k : ℕ) (script : ℕ → Answers F) (s : State F)
      → won (loop zero_figures job left k script s).0 ≡ true
      → Some k (k + left) script
  unfolding loop
  loop-won zero k script s w = (k, omega arith, omega arith, attempt-won (script k) s w)
  loop-won (suc left) k script s w =
      after_round-won (script k) (attempt zero_figures job (script k) s)
        (λ s'. loop zero_figures job left (suc k) script s')
        (λ first. (k, omega arith, omega arith, attempt-won (script k) s first))
        (λ s' later.
          let (j, above, below, accepted) = loop-won left (suc k) script s' later in
          (j, omega arith, omega arith, accepted))
        w
