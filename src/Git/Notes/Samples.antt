-- ===== src/Git/Notes/Samples.antt =====
-- A machine that can print the contents of one note only, and ends notes with a newline, for the theorems about the notes of src/git.rs.
use offload.Base.{
  ℕ, ◌≤◌, String, ◌≡◌, refl, sym, ap, ◌∙◌, Bool, true, false, ◌&&◌, ◌||◌, Option, none, some, List,
  [], ◌∷◌, ◌++◌, arith, if◌then◌else◌, unwrap_or, length, ◌==◌, comparable_number, comparable_text,
  eq→path, insert, Result, ok, err, Failure, failed, pure,
}
use offload.Git.{Output, NoteContents, Machine}
use offload.Git.Notes.{write_note, read_note, merge_contents}
use offload.Git.Notes.Stored.{StoresNotes, shown, read_note-write_note}

-- The note, the same for all commits, and the file that was written last.
pub record World : Type 0 where
  pub note : Option (List ℕ)
  pub file : List ℕ

abbrev pub image_note : NoteContents
image_note = ("offload.toml", record { image_id = "img" }) ∷ []

abbrev print_if : Bool → Bool → Result Failure String
print_if true true = ok "img"
print_if _ _ = err failed

abbrev print : NoteContents → Result Failure String
print ((key, entry) ∷ []) = print_if (key == "offload.toml") (entry.image_id == "img")
print _ = err failed

abbrev pub ends_line : List ℕ → List ℕ
ends_line bytes = bytes ++ 10 ∷ []

abbrev printed_bytes : List ℕ
printed_bytes = 105 ∷ 109 ∷ 103 ∷ []

abbrev no_note : Output
no_note = record { success = false; stdout = []; stderr = [] }

abbrev show : Option (List ℕ) → World → Result Failure Output × World
show (some bytes) w = (ok (shown bytes), w)
show none w = (ok no_note, w)

-- The fourth argument is the verb.
abbrev answer : List String → World → Result Failure Output × World
answer (a ∷ b ∷ c ∷ verb ∷ rest) w =
    if verb == "add"
    then (ok (shown []), record w { note = some (ends_line w.file) })
    else show w.note w
answer _ w = (err failed, w)

abbrev same_bytes : List ℕ → List ℕ → Bool
same_bytes [] [] = true
same_bytes (b ∷ bs) (c ∷ cs) = b == c && same_bytes bs cs
same_bytes _ _ = false

abbrev decode : List ℕ → Result Failure String
decode bytes =
    if same_bytes bytes printed_bytes
    then ok "img"
    else if same_bytes bytes (ends_line printed_bytes)
    then ok "img\n"
    else err failed

abbrev parse : String → Result Failure NoteContents
parse text = if text == "img" || text == "img\n" then ok image_note else err failed

abbrev pub machine : Machine World
machine = record {
  run = λ c. answer c.args;
  from_utf8 = decode;
  from_utf8_lossy = λ _. "error: no note found for object c1.";
  as_bytes = λ t. printed_bytes;
  to_string_pretty = print;
  from_str = parse;
  new_temp_file = pure "/tmp/note";
  write_all = λ path bytes w. (ok tt, record w { file = bytes });
  exists = λ _ _. false;
  create_parent_dirs = λ _ w. w;
  copy = λ _ _ w. w;
}

print_if-eq-ok :
    (b c : Bool) (key id json : String)
    → (b ≡ true → key ≡ "offload.toml")
    → (c ≡ true → id ≡ "img")
    → print_if b c ≡ ok json
    → (json ≡ "img") × (key ≡ "offload.toml") × (id ≡ "img")
print_if-eq-ok true true key id json p q h = (cc, p refl, q refl)
print_if-eq-ok true false key id json p q h = cc
print_if-eq-ok false c key id json p q h = cc

abbrev note_of : String → String → NoteContents
note_of key id = (key, record { image_id = id }) ∷ []

abbrev parsed_note : Result Failure NoteContents
parsed_note = ok image_note

print-eq-ok :
    (c : NoteContents) (json : String)
    → print c ≡ ok json
    → (text : String) × (decode (ends_line printed_bytes) ≡ ok text)
      × (parse text ≡ ok c)
      × (1 ≤ length (ends_line printed_bytes))
print-eq-ok [] json h = cc
print-eq-ok ((key, entry) ∷ []) json h =
    let id = entry.image_id in
    let (j, k, i) =
      print_if-eq-ok (key == "offload.toml") (id == "img") key id json (eq→path key "offload.toml")
        (eq→path id "img") h in
    (
      "img\n",
      refl,
      sym (ap (λ x. ok (note_of x id)) k ∙ ap (λ x. ok (note_of "offload.toml" x)) i),
      omega arith,
    )
print-eq-ok (x ∷ y ∷ rest) json h = cc

pub machine-StoresNotes : StoresNotes machine "/repo" (λ w _. w.note) (λ w _. w.file) ends_line
machine-StoresNotes = record {
  printed = print-eq-ok;
  write_all = λ w w' path bytes e. ap (λ p. p.1.file) (sym e);
  add = λ w w' path sha output e success present. ap (λ p. p.1.note) (sym e);
  show = λ w sha bytes h. ap (λ n. show n w) h;
}

abbrev pub empty : World
empty = record { note = none; file = [] }

abbrev pub after_write : World
after_write = (write_note machine "/repo" "c1" image_note empty).1

read_note-write_note_example :
    (existing : Option NoteContents) × ((read_note machine "/repo" "c1" empty).0 ≡ ok existing)
    × ((read_note machine "/repo" "c1" after_write).0
        ≡ ok (some (merge_contents (unwrap_or existing []) image_note)))
unfolding write_note insert
read_note-write_note_example =
    read_note-write_note machine "/repo" machine-StoresNotes empty after_write "c1" image_note refl
