-- ===== src/Durations/Averages.antt =====
-- The default durations of groups in src/orchestrator.rs are averages.
use offload.Base.{
  ℕ, ◌+◌, ◌/◌, ◌≤◌, ◌<◌, String, ◌≡◌, refl, ap, ◌∙◌, inl, inr, Option, none, some, List, [], ◌∷◌,
  arith, if◌then◌else◌, Bool-cases, unwrap_or, length, sum_of, ◌==◌, comparable_number,
  comparable_text, eq→path, get, get-insert,
}
use offload.Framework.{TestInstance}
use offload.Durations.{
  Durations, Totals, no_total, plus, note_known, note_test, group_totals, average, averages,
  group_to_default_duration,
}

-- The known durations of the tests of a group, in their order.
abbrev pub known_of : Option ℕ → List ℕ → List ℕ
known_of none ds = ds
known_of (some d) ds = d ∷ ds

abbrev pub known : Durations → String → List TestInstance → List ℕ
known durations group [] = []
known durations group (t ∷ tests) =
    if group == t.group
    then known_of (get t.id durations) (known durations group tests)
    else known durations group tests

-- A total, if there is one, with more durations.
abbrev tally : Option (ℕ × ℕ) → List ℕ → Option (ℕ × ℕ)
tally total [] = total
tally total (d ∷ ds) = tally (some (plus (unwrap_or total no_total) d)) ds

get-note_known :
    (totals : Totals) (g group : String) (o : Option ℕ) (ds : List ℕ)
    → tally (get group (note_known totals g o)) ds
      ≡ tally (get group totals) (if group == g then known_of o ds else ds)
unfolding note_known
get-note_known totals g group none ds = elim (Bool-cases (group == g)) [
  | inl e ↦ rw e refl
  | inr e ↦ rw e refl
]
get-note_known totals g group (some d) ds =
    let v = plus (unwrap_or (get g totals) no_total) d in
    ap (λ o. tally o ds) (get-insert g group v totals)
    ∙ elim (Bool-cases (group == g)) [ inl e ↦ rw (e, eq→path group g e) refl | inr e ↦ rw e refl ]

get-group_totals :
    (durations : Durations) (totals : Totals) (tests : List TestInstance) (group : String)
    → get group (group_totals durations totals tests)
      ≡ tally (get group totals) (known durations group tests)
unfolding group_totals note_test
get-group_totals durations totals [] group = refl
get-group_totals durations totals (t ∷ tests) group =
    get-group_totals durations (note_test durations totals t) tests group
    ∙ get-note_known totals t.group group (get t.id durations) (known durations group tests)

abbrev average_of : Option (ℕ × ℕ) → Option ℕ
average_of none = none
average_of (some total) = some (average total)

get-averages :
    (totals : Totals) (group : String) → get group (averages totals) ≡ average_of (get group totals)
unfolding averages get
get-averages [] group = refl
get-averages ((g, total) ∷ rest) group = elim (Bool-cases (group == g)) [
  | inl e ↦ rw e refl
  | inr e ↦ rw e (get-averages rest group)
]

abbrev total_from : ℕ → ℕ → ℕ × ℕ
total_from s c = (s, c)

tally-sum_of :
    (s c : ℕ) (ds : List ℕ)
    → tally (some (s, c)) ds ≡ some (total_from (s + sum_of (λ d. d) ds) (c + length ds))
tally-sum_of s c [] =
    ap some (ap (λ x. total_from x c) (omega arith) ∙ ap (total_from (s + 0)) (omega arith))
tally-sum_of s c (d ∷ ds) =
    tally-sum_of (s + d) (c + 1) ds
    ∙ ap some (
        ap (λ x. total_from x (c + 1 + length ds)) (omega arith)
        ∙ ap (total_from (s + (d + sum_of (λ x. x) ds))) (omega arith))

length-known-le :
    (durations : Durations) (group : String) (tests : List TestInstance)
    → length (known durations group tests) ≤ length tests
length-known-le durations group [] = omega arith
length-known-le durations group (t ∷ tests) = ground (arith, length-known-le durations group tests)

-- The specification: no mean of no numbers.
abbrev pub mean : List ℕ → Option ℕ
mean [] = none
mean (d ∷ ds) = some (sum_of (λ x. x) (d ∷ ds) / length (d ∷ ds))

average-mean : (ds : List ℕ) → length ds < 4294967296 → average_of (tally none ds) ≡ mean ds
average-mean [] h = refl
average-mean (d ∷ ds) h =
    ap average_of (tally-sum_of (0 + d) (0 + 1) ds)
    ∙ ap (λ c. some ((0 + d + sum_of (λ x. x) ds) / c)) (omega (arith, h))
    ∙ ap (λ x. some (x / length (d ∷ ds))) (omega arith)

-- The default duration of a group is the mean of the known durations of its tests, for fewer than 2^32 tests,
-- and a group of which no test has a known duration has none.
pub get-group_to_default_duration :
    (durations : Durations) (tests : List TestInstance) (group : String)
    → length tests < 4294967296
    → get group (group_to_default_duration durations tests) ≡ mean (known durations group tests)
unfolding group_to_default_duration get
get-group_to_default_duration durations tests group h =
    get-averages (group_totals durations [] tests) group
    ∙ ap average_of (get-group_totals durations [] tests group)
    ∙ average-mean (known durations group tests)
        (omega (arith, h, length-known-le durations group tests))
