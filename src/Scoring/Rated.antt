-- ===== src/Scoring/Rated.antt =====
-- The recommendation of the snapshot that Recalculate of internal/application/scoring.go saves.
use bagualu.Base.{
  ℕ, ◌-◌, ◌≤◌, ◌<◌, ◌≡◌, refl, sym, ◌↔◌, inl, inr, Bool, true, false, not, ◌&&◌, Option, none, some,
  List, [], ◌∷◌, arith, ltb, leb, ◌==◌, nat_eq, string_eq, if◌then◌else◌, Bool-cases, length, All,
}
use bagualu.Base.Floats.{Floats}
use bagualu.Scoring.{
  ScorePolicy, Measurement, Recommendation, unrated, not_recommended, recommended,
  temporarily_unavailable, Score, Samples, is_any, is_ratable, status_of, told_by,
  last_connectivity, downgraded, score_samples, calculate_score, recalculate, windows, collect_all,
  no_samples, overall_score, latency_score, speed_score, availability_score,
}

-- A connectivity test that is not of the infrastructure.
abbrev pub is_told : {F : Type 0} → Measurement F → Bool
is_told m = (m.kind == "connectivity") && not m.infrastructure

-- What the last of them says in a list: it is none where there are none.
pub data IsLastTest {F : Type 0} : List (Measurement F) → Option Bool → Type 0 where
  without : {l : List (Measurement F)} → All (λ m. is_told m ≡ false) l → IsLastTest l none
  at :
      {m : Measurement F} {l : List (Measurement F)}
      → is_told m ≡ true
      → All (λ n. is_told n ≡ false) l
      → IsLastTest (m ∷ l) (some m.success)
  later :
      {m : Measurement F} {l : List (Measurement F)} {success : Bool}
      → IsLastTest l (some success)
      → IsLastTest (m ∷ l) (some success)

-- The score has samples of all three kinds.
abbrev pub HasSamples : {F : Type 0} → ScorePolicy F → Score F → Type 0
HasSamples p s =
    (0 < s.latency_samples)
    × ((0 < s.speed_samples) × (p.minimum_availability_samples ≤ s.availability_samples))

-- The recommendation that a score is to get, when `last` is what the last connectivity test says.
pub data IsAdvised {F : Type 0} (fl : Floats F) (p : ScorePolicy F) (s : Score F)
    (last : Option Bool) : Recommendation → Type 0 where
  for_want : ¬ HasSamples p s → IsAdvised fl p s last unrated
  for_low :
      HasSamples p s
      → fl.le p.recommendation_threshold s.overall ≡ false
      → IsAdvised fl p s last not_recommended
  for_high :
      HasSamples p s
      → fl.le p.recommendation_threshold s.overall ≡ true
      → ¬ (last ≡ some false)
      → IsAdvised fl p s last recommended
  for_failed :
      HasSamples p s
      → fl.le p.recommendation_threshold s.overall ≡ true
      → last ≡ some false
      → IsAdvised fl p s last temporarily_unavailable

told_by-is_told :
    {F : Type 0} (o : Option Bool) (m : Measurement F)
    → told_by o m
      ≡ (elim o [ none ↦ if is_told m then some m.success else none | some success ↦ some success ])
unfolding told_by
told_by-is_told (some success) m = refl
told_by-is_told none m = elim (Bool-cases (m.kind == "connectivity")) [
  | inl k ↦ elim (Bool-cases m.infrastructure) [
    | inl i ↦ simp (k, i) refl
    | inr i ↦ simp (k, i) refl
  ]
  | inr k ↦ simp k refl
]

last_none :
    {F : Type 0} (m : Measurement F) (l : List (Measurement F)) (o : Option Bool)
    → o ≡ last_connectivity l
    → told_by o m ≡ none
    → (last_connectivity l ≡ none) × (is_told m ≡ false)
last_none m l none e h = elim (Bool-cases (is_told m)) [
  | inl t ↦
      let told : (if is_told m then some m.success else none) ≡ some m.success = rw t refl in
      absurd (cc (told_by-is_told none m, told, h))
  | inr t ↦ (sym e, t)
]
last_none m l (some b) e h = absurd (cc (told_by-is_told (some b) m, h))

last-without :
    {F : Type 0} (l : List (Measurement F))
    → last_connectivity l ≡ none
    → All (λ m. is_told m ≡ false) l
unfolding last_connectivity
last-without [] h = tt
last-without (m ∷ l) h =
    let r = last_none m l (last_connectivity l) refl h in (r.1, last-without l r.0)

last_step :
    {F : Type 0} (m : Measurement F) (l : List (Measurement F)) (o : Option Bool)
    → o ≡ last_connectivity l
    → IsLastTest l o
    → IsLastTest (m ∷ l) (told_by o m)
last_step m l (some b) e h = rw (told_by-is_told (some b) m) (later h)
last_step m l none e h = rw (told_by-is_told none m) elim (Bool-cases (is_told m)) [
  | inl t ↦ rw t (at t (last-without l (sym e)))
  | inr t ↦ rw t (without (t, last-without l (sym e)))
]

-- What the loop of Recalculate finds is what the last connectivity test says.
last_connectivity-IsLastTest :
    {F : Type 0} (l : List (Measurement F)) → IsLastTest l (last_connectivity l)
unfolding last_connectivity
last_connectivity-IsLastTest [] = without tt
last_connectivity-IsLastTest (m ∷ l) =
    last_step m l (last_connectivity l) refl (last_connectivity-IsLastTest l)

three_tests :
    (a b c d : ℕ) → ((ltb 0 a && (ltb 0 b && leb c d)) ≡ true) ↔ ((0 < a) × ((0 < b) × (c ≤ d)))
three_tests a b c d = ground arith

module _ {F : Type 0} (fl : Floats F) (p : ScorePolicy F) where
  any-length : (l : List F) → is_any fl l ≡ ltb 0 (length l)
  unfolding is_any
  any-length [] = refl
  any-length (x ∷ l) = sym (ground arith)

  -- The advice for a score with all samples, by the last test and the threshold.
  advise :
      (s : Score F) (x : F) (o : Option Bool)
      → HasSamples p s
      → s.overall ≡ x
      → (t : Bool) → fl.le p.recommendation_threshold x ≡ t
      → IsAdvised fl p s o (downgraded o (if t then recommended else not_recommended))
  unfolding downgraded
  advise s x none h e true t = for_high h (rw e t) (λ e'. cc e')
  advise s x (some true) h e true t = for_high h (rw e t) (λ e'. cc e')
  advise s x (some false) h e true t = for_failed h (rw e t) refl
  advise s x none h e false t = for_low h (rw e t)
  advise s x (some true) h e false t = for_low h (rw e t)
  advise s x (some false) h e false t = for_low h (rw e t)

  by_status :
      (s : Score F) (o : Option Bool) (r t : Recommendation)
      → r ≡ t
      → IsAdvised fl p s o t
      → IsAdvised fl p s o r
  by_status s o r t e h = rw e h

  unrated_stays : (o : Option Bool) → downgraded o unrated ≡ unrated
  unfolding downgraded
  unrated_stays none = refl
  unrated_stays (some true) = refl
  unrated_stays (some false) = refl

  abbrev scored : ℕ → Option Bool → Samples F → Score F
  scored now o s =
      let score = score_samples fl p now s in record score { status = downgraded o score.status }

  abbrev result : Samples F → F
  result s =
      overall_score fl p (latency_score fl s.latencies) (speed_score fl p s.speeds)
        (availability_score fl p s)

  samples_iff :
      (now : ℕ) (o : Option Bool) (s : Samples F)
      → (is_ratable fl p s ≡ true) ↔ HasSamples p (scored now o s)
  unfolding score_samples is_ratable downgraded
  samples_iff now o s = rw (any-length s.latencies) rw (any-length s.speeds) (three_tests _ _ _ _)

  rated :
      (now : ℕ) (o : Option Bool) (s : Samples F)
      → is_ratable fl p s ≡ true
      → IsAdvised fl p (scored now o s) o (scored now o s).status
  unfolding score_samples downgraded status_of
  rated now o s h =
      let overall : (scored now o s).overall ≡ result s = rw h refl in
      let status : (scored now o s).status
          ≡ downgraded o (
              if fl.le p.recommendation_threshold (result s)
              then recommended
              else not_recommended) =
        rw h refl in
      by_status _ _ _ _ status
        (advise (scored now o s) _ o ((samples_iff now o s).0 h) overall _ refl)

  unrated_lem :
      (now : ℕ) (o : Option Bool) (s : Samples F)
      → is_ratable fl p s ≡ false
      → IsAdvised fl p (scored now o s) o (scored now o s).status
  unfolding score_samples downgraded
  unrated_lem now o s h =
      let status : (scored now o s).status ≡ unrated = rw h (unrated_stays o) in
      by_status _ _ _ _ status (for_want (λ k. cc (h, (samples_iff now o s).1 k)))

-- What the loop of Recalculate from the last measurement finds is what the last connectivity test
-- that is not of the infrastructure says, and the snapshot's recommendation follows from it:
-- unrated where one of the three kinds of samples is missing; else not recommended when the overall
-- score is below the threshold, temporarily unavailable when that test failed, and recommended
-- otherwise.
pub recalculate-IsAdvised :
    {F : Type 0} (fl : Floats F) (l : List (Measurement F)) (p : ScorePolicy F) (now : ℕ)
    → IsLastTest l (last_connectivity l)
      × IsAdvised fl p
          (recalculate fl l p now)
          (last_connectivity l)
          (recalculate fl l p now).status
unfolding recalculate calculate_score
recalculate-IsAdvised fl l p now = (
  last_connectivity-IsLastTest l,
  elim (Bool-cases
      (is_ratable fl p (windows fl p (collect_all fl (now - p.lookback) l (no_samples fl))))) [
        | inl h ↦ rated fl p now (last_connectivity l) _ h
        | inr h ↦ unrated_lem fl p now (last_connectivity l) _ h
      ],
)
