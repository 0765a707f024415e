-- ===== src/History/Saved.antt =====
-- A history that is saved and loaded again, for src/history/store.rs.
use offload.Base.{
  ℕ, String, ◌≡◌, refl, ◌∙◌, inl, inr, Bool, false, Option, none, some, List, [], ◌∷◌, map, arith,
  if◌then◌else◌, Bool-cases, All, ◌==◌, comparable_number, comparable_text, eq→path, contains,
  Distinct, get, insert, get-insert, insert_by, sort_by, All-sort_by, contains-sort_by,
  Distinct-sort_by, keys, IsTable,
}
use offload.History.Data.{Key, comparable_key, HistoryRecord}
use offload.History.Reservoir.{Lottery}
use offload.History.Store
use offload.History.Store.{JsonlHistoryStore}
use offload.History.Merge.{Records}
use offload.History.Files.{
  Codec, write_lines, sorted_records, write_records, read_lines, load_records, save, load,
}

module _ {F64 : Type 0} where
  abbrev key_of_record : HistoryRecord F64 → Key
  key_of_record r = r.key

  abbrev find : Key → List (HistoryRecord F64) → Option (HistoryRecord F64)
  find k [] = none
  find k (r ∷ rs) = if k == r.key then some r else find k rs

  abbrev or_else :
      Option (HistoryRecord F64) → Option (HistoryRecord F64) → Option (HistoryRecord F64)
  or_else none o = o
  or_else (some r) o = some r

  find-not_key :
      (k : Key) (rs : List (HistoryRecord F64))
      → contains k (map key_of_record rs) ≡ false
      → find k rs ≡ none
  unfolding contains
  find-not_key k [] h = refl
  find-not_key k (r ∷ rs) h = ground (arith, find-not_key k rs)

  find-insert_by :
      (le : HistoryRecord F64 → HistoryRecord F64 → Bool) (k : Key) (r : HistoryRecord F64)
      (rs : List (HistoryRecord F64))
      → contains r.key (map key_of_record rs) ≡ false
      → find k (insert_by le r rs) ≡ (if k == r.key then some r else find k rs)
  unfolding insert_by contains
  find-insert_by le k r [] h = refl
  find-insert_by le k r (s ∷ rs) h = elim (Bool-cases (le r s)) [
    | inl t ↦ rw t refl
    | inr t ↦ rw t (
        ground (
          arith,
          find-insert_by le k r rs,
          comparable_key.same_iff k r.key,
          comparable_key.same_iff k s.key,
          comparable_key.same_iff r.key s.key,
        ))
  ]

  find-sort_by :
      (le : HistoryRecord F64 → HistoryRecord F64 → Bool) (k : Key) (rs : List (HistoryRecord F64))
      → Distinct (map key_of_record rs)
      → find k (sort_by le rs) ≡ find k rs
  unfolding sort_by
  find-sort_by le k [] d = refl
  find-sort_by le k (r ∷ rs) d =
      find-insert_by le k r (sort_by le rs) (contains-sort_by le key_of_record r.key rs ∙ d.0)
      ∙ rw (find-sort_by le k rs d.1) refl

  abbrev stored :
      List (Key × HistoryRecord F64) → List (HistoryRecord F64) → List (Key × HistoryRecord F64)
  stored m [] = m
  stored m (r ∷ rs) = stored (insert r.key r m) rs

  get-stored :
      (k : Key) (m : List (Key × HistoryRecord F64)) (rs : List (HistoryRecord F64))
      → Distinct (map key_of_record rs)
      → get k (stored m rs) ≡ or_else (find k rs) (get k m)
  get-stored k m [] d = refl
  get-stored k m (r ∷ rs) d =
      get-stored k (insert r.key r m) rs d.1
      ∙ rw (get-insert r.key k r m) (elim (Bool-cases (k == r.key)) [
        | inl t ↦ rw (t, find-not_key k rs (rw (eq→path k r.key t) d.0)) refl
        | inr t ↦ rw t refl
      ])

  find-map-get :
      (k : Key) (m : List (Key × HistoryRecord F64))
      → All (λ p. p.1.key ≡ p.0) m
      → find k (map (λ p. p.1) m) ≡ get k m
  unfolding get
  find-map-get k [] h = refl
  find-map-get k ((j, r) ∷ m) h = rw (h.0, find-map-get k m h.1) refl

  keys-map :
      (m : List (Key × HistoryRecord F64))
      → All (λ p. p.1.key ≡ p.0) m
      → map key_of_record (map (λ p. p.1) m) ≡ keys m
  keys-map [] h = refl
  keys-map ((j, r) ∷ m) h = rw (h.0, keys-map m h.1) refl

-- What serde_json does with a record whose times are finite numbers.
pub record IsStorable {Q : Lottery} (C : Codec Q) (r : HistoryRecord Q.F64) : Type 0 where
  pub line : String
  pub written : C.serialize_record r ≡ some line
  pub not_blank : C.is_blank line ≡ false
  pub parsed : C.parse_line line ≡ some r

module _ {Q : Lottery} (C : Codec Q) where
  record Reread (rs : List (HistoryRecord Q.F64)) (o : Option (List String)) : Type 0 where
    lines : List String
    returned : o ≡ some lines
    read : (m : Records Q) → read_lines C m lines ≡ some (stored m rs)

  write_lines-Reread :
      (rs : List (HistoryRecord Q.F64)) → All (IsStorable C) rs → Reread rs (write_lines C rs)
  unfolding write_lines read_lines
  write_lines-Reread [] h = record { lines = []; returned = refl; read = λ m. refl }
  write_lines-Reread (r ∷ rs) h =
      let t = write_lines-Reread rs h.1 in
      rw (h.0.written, t.returned, write_lines)
        (record {
          lines = h.0.line ∷ t.lines;
          returned = refl;
          read = λ m. rw (h.0.not_blank, h.0.parsed, read_lines) (t.read (insert r.key r m));
        })

  -- A store that was saved and loaded with the same settings.
  pub record Restored (s : JsonlHistoryStore Q) (o : Option (List String)) : Type 0 where
    pub lines : List String
    pub returned : o ≡ some lines
    pub restored : JsonlHistoryStore Q
    pub loaded : load C s.path (some lines) s.reservoir_size s.default_duration_secs ≡ some restored
    pub lookups : (k : Key) → get k restored.records ≡ get k s.records

  All-values :
      (m : Records Q) → All (λ p. IsStorable C p.1) m → All (IsStorable C) (map (λ p. p.1) m)
  All-values [] h = tt
  All-values (p ∷ m) h = (h.0, All-values m h.1)

  or_else-none : (o : Option (HistoryRecord Q.F64)) → or_else o none ≡ o
  or_else-none none = refl
  or_else-none (some r) = refl

  load-read_lines :
      (path : String) (lines : List String) (n : ℕ) (d : Q.F64) (records : Records Q)
      → read_lines C [] lines ≡ some records
      → load C path (some lines) n d
        ≡ some (record {
          records = records;
          path = path;
          reservoir_size = n;
          default_duration_secs = d;
        })
  unfolding load load_records Store.new
  load-read_lines path lines n d records h = rw (h, load) refl

  -- A store whose records are a table by their own keys, and can be written as lines that are read back,
  -- is saved without an error, and loading the saved lines gives a store with the same record, or none,
  -- for every key.
  pub save-Restored :
      (s : JsonlHistoryStore Q)
      → IsTable s.records
      → All (λ p. p.1.key ≡ p.0) s.records
      → All (λ p. IsStorable C p.1) s.records
      → Restored s (save C s)
  unfolding save write_records sorted_records get
  save-Restored s d k h =
      let values = map (λ p. p.1) s.records in
      let sorted = sorted_records C s.records in
      let distinct : Distinct (map key_of_record values) = rw (keys-map s.records k) d in
      let le : HistoryRecord Q.F64 → HistoryRecord Q.F64 → Bool = λ a b. C.key_le a.key b.key in
      let w =
        write_lines-Reread sorted (All-sort_by le (IsStorable C) values (All-values s.records h)) in
      record {
        lines = w.lines;
        returned = w.returned;
        restored = record s { records = stored [] sorted };
        loaded =
            load-read_lines s.path w.lines s.reservoir_size s.default_duration_secs
              (stored [] sorted) (w.read []);
        lookups = λ j.
            get-stored j [] sorted (Distinct-sort_by le key_of_record values distinct)
            ∙ or_else-none (find j sorted)
            ∙ find-sort_by le j values distinct
            ∙ find-map-get j s.records k;
      }
