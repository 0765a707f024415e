-- ===== src/History/Files.antt =====
-- The history file of src/history/store.rs and src/history/merge.rs: one line of JSON for each record,
-- sorted by key. An error is `none`. Errors of the file system are not modelled: a file is absent or
-- has its lines, and a save that succeeds replaces all of them.
use offload.Base.{
  ℕ, String, Bool, Option, none, some, List, [], ◌∷◌, map, if◌then◌else◌, comparable_number,
  comparable_text, insert, sort_by,
}
use offload.History.Data.{Key, comparable_key, HistoryRecord}
use offload.History.Reservoir.{Lottery}
use offload.History.Store.{JsonlHistoryStore}
use offload.History.Store
use offload.History.Merge.{Records}

-- serde_json on records, `line.trim().is_empty()`, and the order of keys.
pub record Codec (Q : Lottery) : Type 0 where
  pub serialize_record : HistoryRecord Q.F64 → Option String
  pub parse_line : String → Option (HistoryRecord Q.F64)
  pub is_blank : String → Bool
  pub key_le : Key → Key → Bool

module _ {Q : Lottery} (C : Codec Q) where
  unfoldable pub write_lines : List (HistoryRecord Q.F64) → Option (List String)
  write_lines [] = some []
  write_lines (r ∷ rs) = elim (C.serialize_record r) [
    | none ↦ none
    | some line ↦ elim (write_lines rs) [ none ↦ none | some lines ↦ some (line ∷ lines) ]
  ]

  unfoldable pub sorted_records : Records Q → List (HistoryRecord Q.F64)
  sorted_records records = sort_by (λ a b. C.key_le a.key b.key) (map (λ p. p.1) records)

  -- `write_records`
  unfoldable pub write_records : Records Q → Option (List String)
  unfolding write_lines sorted_records
  write_records records = write_lines (sorted_records records)

  unfoldable pub read_lines : Records Q → List String → Option (Records Q)
  read_lines records [] = some records
  read_lines records (line ∷ lines) =
      let skipped = read_lines records lines in
      if C.is_blank line then skipped else elim (C.parse_line line) [
        | none ↦ none
        | some r ↦ read_lines (insert r.key r records) lines
      ]

  -- `load_records`
  unfoldable pub load_records : Option (List String) → Option (Records Q)
  unfolding read_lines
  load_records none = some []
  load_records (some lines) = read_lines [] lines

  unfoldable pub save : JsonlHistoryStore Q → Option (List String)
  unfolding write_records
  save store = write_records store.records

  unfoldable pub load : String → Option (List String) → ℕ → Q.F64 → Option (JsonlHistoryStore Q)
  unfolding load_records
  load path file reservoir_size default_duration_secs = elim (load_records file) [
    | none ↦ none
    | some records ↦
        some (record (Store.new Q path reservoir_size default_duration_secs) { records = records })
  ]
