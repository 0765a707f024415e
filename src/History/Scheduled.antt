-- ===== src/History/Scheduled.antt =====
-- The durations that src/history/store.rs gives the scheduler.
use offload.Base.{
  ℕ, zero, suc, ◌≤◌, String, ◌≡◌, refl, sym, ap, ◌∙◌, subst, inl, inr, true, Option, none, some,
  List, [], ◌∷◌, map, arith, ltb, if◌then◌else◌, Bool-cases, Option-cases, is_some, length, All,
  length-map, ◌==◌, comparable_number, comparable_text, get, sort_by, sort_by-perm, All-sort_by,
  length-perm,
}
use offload.History.Data.{Key, comparable_key, Sample, TestValues}
use offload.History.Reservoir.{Lottery}
use offload.History.Store.{JsonlHistoryStore}
use offload.History.Stats.{
  Statistics, DurationStats, nth, percentile, shorter_first, compute_percentiles, percentile-some,
}
use offload.History.Rankings.{
  Arithmetic, TestStatistics, chain, stats_of, get_stats, config_keys, all_stats, get_all_stats,
  p75s, own_duration, fallback_secs, expected_duration, durations_for, get_scheduling_durations,
}

-- There is a value, and it has a property.
abbrev Returns : {A : Type 0} → (A → Type 0) → Option A → Type 0
Returns {A = A} P o = (a : A) × (o ≡ some a) × P a

abbrev OnSome : {A : Type 0} → (A → Type 0) → Option A → Type 0
OnSome P none = Unit
OnSome P (some a) = P a

chain-Returns :
    {A B : Type 0} {P : A → Type 0} (R : B → Type 0) (o : Option A) (f : A → Option B)
    → Returns P o
    → ((a : A) → P a → Returns R (f a))
    → Returns R (chain o f)
chain-Returns R none f (a, e, p) h = cc
chain-Returns {P = P} R (some x) f (a, e, p) h = h x (subst (OnSome P) (sym e) p)

match-Returns :
    {A B : Type 0} {P : A → Type 0} (R : B → Type 0) (o : Option A) (n : Option B)
    (f : A → Option B)
    → OnSome P o
    → Returns R n
    → ((a : A) → P a → Returns R (f a))
    → Returns R (elim o [ none ↦ n | some a ↦ f a ])
match-Returns R none n f p h k = h
match-Returns R (some a) n f p h k = k a p

some-Returns : {A : Type 0} (o : Option A) → is_some o ≡ true → Returns (λ _. Unit) o
some-Returns none h = cc
some-Returns (some a) h = (a, refl, tt)

nth-All :
    {Q : Lottery} (S : Statistics Q) {A : Type 0} (P : A → Type 0) (xs : List A) (i : ℕ)
    → All P xs
    → OnSome P (nth S xs i)
nth-All S P [] i h = tt
nth-All S P (x ∷ xs) zero h = h.0
nth-All S P (x ∷ xs) (suc i) h = nth-All S P xs i h.1

All-map_of :
    {A B : Type 0} (P : B → Type 0) (f : A → B) (xs : List A)
    → All (λ x. P (f x)) xs
    → All P (map f xs)
All-map_of P f [] h = tt
All-map_of P f (x ∷ xs) h = (h.0, All-map_of P f xs h.1)

get-OnSome :
    {V : Type 0} (P : V → Type 0) (k : Key) (t : List (Key × V))
    → All (λ p. P p.1) t
    → OnSome P (get k t)
unfolding get
get-OnSome P k [] h = tt
get-OnSome P k ((j, v) ∷ t) h = elim (Bool-cases (k == j)) [
  | inl e ↦ rw (e, get) h.0
  | inr e ↦ rw (e, get) (get-OnSome P k t h.1)
]

-- The durations for the scheduler, and the ids that they are for.
pub record Scheduled (ids : List String) (o : Option (List (String × ℕ))) : Type 0 where
  pub durations : List (String × ℕ)
  pub returned : o ≡ some durations
  pub tests : map (λ p. p.0) durations ≡ ids

-- Numbers of seconds that are fit to be durations: they are converted, and averages of them are fit.
pub record IsFitness {Q : Lottery} (R : Arithmetic Q) (IsFit : Q.F64 → Type 0) : Type 0 where
  pub converted : (x : Q.F64) → IsFit x → is_some (R.from_secs_f64 x) ≡ true
  pub weighed :
      (m n : ℕ) (x y : Q.F64)
      → m ≤ n
      → 1 ≤ n
      → IsFit x
      → IsFit y
      → IsFit (R.weighted_mean (R.ratio m n) x y)
  pub unweighed : (x y : Q.F64) → IsFit x → IsFit y → IsFit (R.weighted_mean Q.zero_f64 x y)
  pub averaged : (xs : List Q.F64) → 1 ≤ length xs → All IsFit xs → IsFit (R.mean xs (length xs))

module _ {Q : Lottery} (R : Arithmetic Q) (IsFit : Q.F64 → Type 0) where
  -- A record whose samples are fit and that has no more failures than attempts.
  abbrev pub HasFitValues : TestValues Q.F64 → Type 0
  HasFitValues values =
      All (λ s. IsFit s.duration_secs) values.ok
      × All (λ s. IsFit s.duration_secs) values.fail
      × (values.total_failures ≤ values.total_attempts)

  abbrev pub HasFitRecords : JsonlHistoryStore Q → Type 0
  HasFitRecords store =
      All (λ p. HasFitValues p.1.values) store.records × IsFit store.default_duration_secs

  abbrev FitPercentiles : Option (DurationStats Q.F64) → Type 0
  FitPercentiles = OnSome (λ d. IsFit d.p75_secs)

  record FitStatistics (s : TestStatistics Q.F64) : Type 0 where
    success : FitPercentiles s.duration.success
    failure : FitPercentiles s.duration.failure
    mean : (x y : Q.F64) → IsFit x → IsFit y → IsFit (R.weighted_mean s.failure_rate x y)

  compute_percentiles-Fit :
      (samples : List (Sample Q.F64))
      → All (λ s. IsFit s.duration_secs) samples
      → Returns FitPercentiles (compute_percentiles R.statistics samples)
  unfolding compute_percentiles percentile
  compute_percentiles-Fit samples h =
      let durations = sort_by (shorter_first R.statistics) (map (λ s. s.duration_secs) samples) in
      elim (Bool-cases (ltb (length samples) 5)) [
        | inl t ↦ rw t (none, refl, tt)
        | inr t ↦
            let size : length durations ≡ length samples =
              length-perm
                (sort_by-perm (shorter_first R.statistics) (map (λ s. s.duration_secs) samples))
              ∙ length-map (λ s. s.duration_secs) samples in
            let fit : All IsFit durations =
              All-sort_by (shorter_first R.statistics) IsFit (map (λ s. s.duration_secs) samples)
                (All-map_of IsFit (λ s. s.duration_secs) samples h) in
            let some_samples : 1 ≤ length durations = ground (arith, t, size) in
            let a = percentile-some R.statistics durations 50 some_samples in
            let b = percentile-some R.statistics durations 75 some_samples in
            let c = percentile-some R.statistics durations 90 some_samples in
            let d = percentile-some R.statistics durations 95 some_samples in
            let fit_b : IsFit b.0 =
              subst (OnSome IsFit) b.1 (nth-All R.statistics IsFit durations _ fit) in
            rw (t, a.1, b.1, c.1, d.1) (some _, refl, fit_b)
      ]

  module _ (F : IsFitness R IsFit) where
    rate-mean :
        (values : TestValues Q.F64)
        → values.total_failures ≤ values.total_attempts
        → (x y : Q.F64) → IsFit x
        → IsFit y
        → IsFit (
            R.weighted_mean
              (if ltb 0 values.total_attempts
                then R.ratio values.total_failures values.total_attempts
                else Q.zero_f64)
              x
              y)
    rate-mean values le x y fx fy = elim (Bool-cases (ltb 0 values.total_attempts)) [
      | inl t ↦
          rw t
            (F.weighed values.total_failures values.total_attempts x y le (ground (arith, t)) fx fy)
      | inr t ↦ rw t (F.unweighed x y fx fy)
    ]

    stats_of-Fit :
        (key : Key) (values : TestValues Q.F64)
        → HasFitValues values
        → Returns FitStatistics (stats_of R key values)
    unfolding stats_of
    stats_of-Fit key values (passes, failures, le) =
        chain-Returns FitStatistics _ _ (compute_percentiles-Fit values.ok passes) λ s fs.
          chain-Returns FitStatistics _ _ (compute_percentiles-Fit values.fail failures)
            λ f ff. (_, refl, record { success = fs; failure = ff; mean = rate-mean values le })

    p75s-Fit :
        (stats : List (TestStatistics Q.F64)) → All FitStatistics stats → All IsFit (p75s R stats)
    p75s-Fit [] h = tt
    p75s-Fit (s ∷ ss) h = elim (Option-cases s.duration.success) [
      | inl e ↦ rw e (p75s-Fit ss h.1)
      | inr (d, e) ↦ rw e (subst FitPercentiles e h.0.success, p75s-Fit ss h.1)
    ]

    fallback_secs-Fit :
        (store : JsonlHistoryStore Q) (stats : List (TestStatistics Q.F64))
        → IsFit store.default_duration_secs
        → All FitStatistics stats
        → IsFit (fallback_secs R store stats)
    unfolding fallback_secs
    fallback_secs-Fit store stats d h = elim (Bool-cases (ltb 0 (length (p75s R stats)))) [
      | inl t ↦ rw t (F.averaged (p75s R stats) (ground (arith, t)) (p75s-Fit stats h))
      | inr t ↦ rw t d
    ]

    own_duration-Fit :
        (s : TestStatistics Q.F64) → FitStatistics s → OnSome IsFit (own_duration R (some s))
    unfolding own_duration
    own_duration-Fit s h = elim (Option-cases s.duration.success) [
      | inl e ↦ elim (Option-cases s.duration.failure) [
        | inl g ↦ rw (e, g) tt
        | inr (f, g) ↦ rw (e, g) (subst FitPercentiles g h.failure)
      ]
      | inr (d, e) ↦ elim (Option-cases s.duration.failure) [
        | inl g ↦ rw (e, g) (subst FitPercentiles e h.success)
        | inr (f, g) ↦
            rw (e, g)
              (h.mean d.p75_secs f.p75_secs (subst FitPercentiles e h.success)
                (subst FitPercentiles g h.failure))
      ]
    ]

    found-Fit :
        (found : Option (TestStatistics Q.F64))
        → OnSome FitStatistics found
        → OnSome IsFit (own_duration R found)
    unfolding own_duration
    found-Fit none h = tt
    found-Fit (some s) h = own_duration-Fit s h

    from_secs-Returns : (x : Q.F64) → IsFit x → Returns (λ _. Unit) (R.from_secs_f64 x)
    from_secs-Returns x h = some-Returns (R.from_secs_f64 x) (F.converted x h)

    module _ (store : JsonlHistoryStore Q) (fit : HasFitRecords store) where
      get_stats-Fit : (key : Key) → Returns (OnSome FitStatistics) (get_stats R store key)
      unfolding get_stats
      get_stats-Fit key =
          match-Returns (OnSome FitStatistics) (get key store.records) _ _
            (get-OnSome (λ r. HasFitValues r.values) key store.records fit.0) (none, refl, tt)
            (λ r h.
              chain-Returns (OnSome FitStatistics) _ _ (stats_of-Fit key r.values h)
                λ s fs. (some s, refl, fs))

      all_stats-Fit : (ks : List Key) → Returns (All FitStatistics) (all_stats R store ks)
      unfolding all_stats
      all_stats-Fit [] = ([], refl, tt)
      all_stats-Fit (key ∷ ks) =
          chain-Returns (All FitStatistics) _ _ (get_stats-Fit key) λ found h.
            chain-Returns (All FitStatistics) _ _ (all_stats-Fit ks) λ others hs.
              match-Returns (All FitStatistics) found _ _ h (others, refl, hs)
                λ s fs. (s ∷ others, refl, (fs, hs))

      expected_duration-Returns : (key : Key) → Returns (λ _. Unit) (expected_duration R store key)
      unfolding expected_duration get_all_stats
      expected_duration-Returns key =
          chain-Returns (λ _. Unit) _ _ (get_stats-Fit key)
            λ found h.
              match-Returns (λ _. Unit) (own_duration R found) _ _ (found-Fit found h)
                (chain-Returns (λ _. Unit) _ _ (all_stats-Fit (config_keys R key.config store))
                  λ stats hs.
                    from_secs-Returns (fallback_secs R store stats)
                      (fallback_secs-Fit store stats fit.1 hs))
                from_secs-Returns

      durations_for-Scheduled :
          (ks : List Key) → Scheduled (map (λ k. k.test_id) ks) (durations_for R store ks)
      unfolding durations_for
      durations_for-Scheduled [] = record { durations = []; returned = refl; tests = refl }
      durations_for-Scheduled (key ∷ ks) =
          let (d, e, _) = expected_duration-Returns key in
          let rest = durations_for-Scheduled ks in
          rw (e, rest.returned)
            (record {
              durations = (key.test_id, d) ∷ rest.durations;
              returned = refl;
              tests = ap (◌∷◌ key.test_id) rest.tests;
            })

      -- If the recorded durations and the default are fit to be converted, averages of fit numbers of seconds
      -- are fit, and no record has more failures than attempts, then nothing in computing the durations for the
      -- scheduler panics, and there is one for each test that the history has for the configuration, in that
      -- order.
      pub get_scheduling_durations-Scheduled :
          (config : String)
          → Scheduled
              (map (λ k. k.test_id) (config_keys R config store))
              (get_scheduling_durations R store config)
      unfolding get_scheduling_durations
      get_scheduling_durations-Scheduled config =
          durations_for-Scheduled (config_keys R config store)
