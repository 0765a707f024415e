-- ===== src/Durations.antt =====
-- The durations that the scheduler is given: `load_test_durations` of src/report/junit.rs, the choice between
-- the history and the last report, and the averages of groups, both of src/orchestrator.rs. A duration is a
-- number of nanoseconds.
mod Averages
mod Samples
use offload.Base.{
  ℕ, zero, suc, ◌+◌, ◌-◌, ◌*◌, ◌/◌, ◌%◌, ◌≤◌, ◌<◌, min, max, String, ◌≡◌, refl, sym, ap, ◌∙◌, subst,
  ◌≢◌, ◌↔◌, ◌⊎◌, inl, inr, Bool, true, false, not, ◌&&◌, ◌||◌, Option, none, some, List, [], ◌∷◌,
  ◌++◌, map, foldl, flatten, append-nil, append_assoc, map-append, Perm, arith, ltb, leb,
  if◌then◌else◌, ltb→lt, lt→ltb, leb→le, le→leb, leb-false→lt, Bool-cases, Option-cases, is_some,
  unwrap_or, length, take, drop, replicate, set, keep, all, sum_of, All, length-append,
  take-append-drop, length-take, length-drop, length-replicate, length-set, length-map,
  length-keep-le, sum_of-append, All-append, All-replicate, All-imp, All-keep, All-keep_self,
  Comparable, ◌==◌, comparable_number, comparable_text, eq_self, eq→path, ne→eq-false, contains,
  add, Distinct, contains-add, Distinct-add, length-add-le, get, insert, get-insert,
  get-insert_self, insert_by, sort_by, sort_by-perm, IsSorted, All-insert_by, All-sort_by,
  sort_by-IsSorted, flat_map, flat_map-append, flat_map-replicate_nil, flat_map-keep,
  keep-append-perm, flat_map-sort_by-perm, sum_of-perm, length-perm, contains-sort_by,
  Distinct-sort_by, keys, contains-keys-insert, IsTable, insert-IsTable, get-not_key, Result, ok,
  err, Failure, failed, Action, pure, fail, and_then, ◌>>=◌, ◌>>◌, attempt, with_error, map_error,
  any, Ends, Ensures, Keeps, bind-Ensures, pure-Keeps, lift-Keeps, if-Ensures, Keeps-snd,
  attempt-Keeps, map_error-Ensures, weaken-Ensures, snd-Keeps, bind-eq-ok,
}
use offload.Framework.{TestInstance}
use offload.Report.Reader.{Event, start, empty, Attributes, Decoding, get_attr, get_attr_f64}

abbrev pub Durations : Type 0
Durations = List (String × ℕ)

-- `entry(test_id).and_modify(…).or_insert(duration)`
unfoldable pub keep_longest : Durations → String → ℕ → Durations
keep_longest durations test_id duration = elim (get test_id durations) [
  | none ↦ insert test_id duration durations
  | some existing ↦ if ltb existing duration then insert test_id duration durations else durations
]

-- `Duration::from_secs_f64` is `none` where it panics: on a time that is negative or no number.
module _ (D : Decoding) (from_secs_f64 : D.F64 → Option ℕ) where
  unfoldable pub note_testcase : Durations → Attributes → Option Durations
  unfolding keep_longest get_attr get_attr_f64
  note_testcase durations attrs = elim (get_attr attrs "name") [
    | none ↦ some durations
    | some test_id ↦ elim (from_secs_f64 (get_attr_f64 D attrs "time")) [
      | none ↦ none
      | some duration ↦ some (keep_longest durations test_id duration)
    ]
  ]

  -- What one event does.
  unfoldable pub note_event : Durations → Event → Option Durations
  unfolding note_testcase
  note_event durations (start name attrs) =
      if name == "testcase" then note_testcase durations attrs else some durations
  note_event durations (empty name attrs) =
      if name == "testcase" then note_testcase durations attrs else some durations
  note_event durations _ = some durations

  -- The events up to the end of the input or the first error.
  unfoldable pub read_durations : Durations → List Event → Option Durations
  unfolding note_event
  read_durations durations [] = some durations
  read_durations durations (e ∷ es) = elim (note_event durations e) [
    | none ↦ none
    | some noted ↦ read_durations noted es
  ]

  -- A file that cannot be read has no durations.
  unfoldable pub load_test_durations : Option (List Event) → Option Durations
  unfolding read_durations
  load_test_durations none = some []
  load_test_durations (some events) = read_durations [] events

-- With the history, if it is configured, and its durations, if it can be loaded.
unfoldable pub choose_durations : Option (Option Durations) → Option Durations → Option Durations
choose_durations none junit = junit
choose_durations (some none) junit = junit
choose_durations (some (some [])) junit = junit
choose_durations (some (some (d ∷ ds))) junit = some (d ∷ ds)

-- The total duration and the number of tests.
abbrev pub Totals : Type 0
Totals = List (String × (ℕ × ℕ))

abbrev pub no_total : ℕ × ℕ
no_total = (0, 0)

abbrev pub plus : ℕ × ℕ → ℕ → ℕ × ℕ
plus (total, count) d = (total + d, count + 1)

-- The body of the loop over the tests, with the test's duration, if it is known.
unfoldable pub note_known : Totals → String → Option ℕ → Totals
note_known totals group none = totals
note_known totals group (some d) =
    insert group (plus (unwrap_or (get group totals) no_total) d) totals

unfoldable pub note_test : Durations → Totals → TestInstance → Totals
unfolding note_known
note_test durations totals t = note_known totals t.group (get t.id durations)

unfoldable pub group_totals : Durations → Totals → List TestInstance → Totals
unfolding note_test
group_totals durations totals [] = totals
group_totals durations totals (t ∷ tests) =
    group_totals durations (note_test durations totals t) tests

-- `total / count as u32`
abbrev pub average : ℕ × ℕ → ℕ
average (total, count) = total / (count % 4294967296)

unfoldable pub averages : Totals → Durations
averages [] = []
averages ((group, total) ∷ rest) = (group, average total) ∷ averages rest

unfoldable pub group_to_default_duration : Durations → List TestInstance → Durations
unfolding group_totals averages
group_to_default_duration durations tests_to_run = averages (group_totals durations [] tests_to_run)
