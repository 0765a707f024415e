-- ===== src/Git/Notes/Stored.antt =====
-- Notes that src/git.rs writes and reads back, over what git does with notes and files.
use offload.Base.{
  ℕ, ◌≤◌, String, ◌≡◌, refl, sym, ap, ◌∙◌, subst, Bool, true, false, Option, some, List, [],
  if◌then◌else◌, unwrap_or, length, comparable_number, comparable_text, ok, Failure, failed, pure,
  fail, bind-eq-ok,
}
use offload.Git.{Output, NoteContents, Machine, in_repo, require_success}
use offload.Git.Notes.{show_args, add_args, merge_contents, read_note, write_note}

abbrev pub shown : List ℕ → Output
shown bytes = record { success = true; stdout = bytes; stderr = [] }

if-eq-ok :
    {W A : Type 0} (b : Bool) (x a : A) (w w' : W)
    → (if b then pure {E = Failure} x else fail failed) w ≡ (ok a, w')
    → (b ≡ true) × (w ≡ w')
if-eq-ok true x a w w' e = (refl, ap (λ p. p.1) e)
if-eq-ok false x a w w' e = cc

module _ {W : Type 0} (m : Machine W) (repo : String) where
  -- The bytes of each commit's note and of each file, and what git makes of the bytes of a note: it takes
  -- blank lines and trailing blanks away and ends the note with a newline. Contents survive their print in JSON
  -- and UTF-8 and this clean-up, as they are printed without blanks that matter; a file holds what was written
  -- to it last; `git notes add -f -F` stores the cleaned bytes of a file, if any are left, and `git notes
  -- show` prints what is stored.
  pub record StoresNotes (note : W → String → Option (List ℕ)) (file : W → String → List ℕ)
      (cleaned : List ℕ → List ℕ) : Type 0 where
    pub printed :
        (c : NoteContents) (json : String)
        → m.to_string_pretty c ≡ ok json
        → (text : String) × (m.from_utf8 (cleaned (m.as_bytes json)) ≡ ok text)
          × (m.from_str text ≡ ok c)
          × (1 ≤ length (cleaned (m.as_bytes json)))
    pub write_all :
        (w w' : W) (path : String) (bytes : List ℕ)
        → m.write_all path bytes w ≡ (ok tt, w')
        → file w' path ≡ bytes
    pub add :
        (w w' : W) (path sha : String) (output : Output)
        → m.run (in_repo repo (add_args path sha)) w ≡ (ok output, w')
        → output.success ≡ true
        → 1 ≤ length (cleaned (file w path))
        → note w' sha ≡ some (cleaned (file w path))
    pub show :
        (w : W) (sha : String) (bytes : List ℕ)
        → note w sha ≡ some bytes
        → m.run (in_repo repo (show_args sha)) w ≡ (ok (shown bytes), w)

  module _ {note : W → String → Option (List ℕ)} {file : W → String → List ℕ}
      {cleaned : List ℕ → List ℕ} (h : StoresNotes note file cleaned) where
    read_note-printed :
        (w : W) (sha json : String) (c : NoteContents)
        → m.to_string_pretty c ≡ ok json
        → note w sha ≡ some (cleaned (m.as_bytes json))
        → (read_note m repo sha w).0 ≡ ok (some c)
    unfolding read_note
    read_note-printed w sha json c e d =
        let (text, utf8, parsed, present) = h.printed c json e in
        rw (h.show w sha (cleaned (m.as_bytes json)) d, utf8, parsed) refl

    -- A note that was written without an error is read back as the contents that were there, if any, with the
    -- new entries put in.
    pub read_note-write_note :
        (w w' : W) (sha : String) (contents : NoteContents)
        → write_note m repo sha contents w ≡ (ok tt, w')
        → (existing : Option NoteContents) × ((read_note m repo sha w).0 ≡ ok existing)
          × ((read_note m repo sha w').0
              ≡ ok (some (merge_contents (unwrap_or existing []) contents)))
    unfolding write_note require_success
    read_note-write_note w w' sha contents e =
        let (existing, w₁, read, e₁) = bind-eq-ok (read_note m repo sha w) _ e in
        let merged = merge_contents (unwrap_or existing []) contents in
        let (json, w₂, printed, e₂) = bind-eq-ok (m.to_string_pretty merged, w₁) _ e₁ in
        let (tmp, w₃, made, e₃) = bind-eq-ok (m.new_temp_file w₂) _ e₂ in
        let (u, w₄, wrote, e₄) = bind-eq-ok (m.write_all tmp (m.as_bytes json) w₃) _ e₃ in
        let (output, w₅, added, e₅) =
          bind-eq-ok (m.run (in_repo repo (add_args tmp sha)) w₄) _ e₄ in
        let (done, w₆, required, e₆) =
          bind-eq-ok ((if output.success then pure output else fail failed) w₅) _ e₅ in
        let (success, same) = if-eq-ok output.success output done w₅ w₆ required in
        let here = same ∙ ap (λ p. p.1) e₆ in
        let bytes = h.write_all w₃ w₄ tmp (m.as_bytes json) wrote in
        let (text, utf8, parsed, present) = h.printed merged json (ap (λ p. p.0) printed) in
        let filled = subst (λ b. 1 ≤ length (cleaned b)) (sym bytes) present in
        let stored =
          h.add w₄ w₅ tmp sha output added success filled ∙ ap (λ b. some (cleaned b)) bytes in
        let there = subst (λ x. note x sha ≡ some (cleaned (m.as_bytes json))) here stored in
        (
          existing,
          ap (λ p. p.0) read,
          read_note-printed w' sha json merged (ap (λ p. p.0) printed) there,
        )
