-- ===== src/Git/Notes.antt =====
-- src/git.rs: image ids in git notes, one JSON object for each commit.
pub mod Stored
pub mod Samples
use Prim.Native.Char.{Char, code}
use offload.Base.{
  ℕ, zero, suc, ◌+◌, ◌-◌, ◌*◌, ◌/◌, ◌%◌, ◌≤◌, ◌<◌, min, max, String, ◌≡◌, refl, sym, ap, ◌∙◌, subst,
  ◌≢◌, ◌↔◌, ◌⊎◌, inl, inr, Bool, true, false, not, ◌&&◌, ◌||◌, Option, none, some, List, [], ◌∷◌,
  ◌++◌, map, foldl, flatten, append-nil, append_assoc, map-append, Perm, arith, ltb, leb,
  if◌then◌else◌, ltb→lt, lt→ltb, leb→le, le→leb, leb-false→lt, Bool-cases, Option-cases, is_some,
  unwrap_or, length, take, drop, replicate, set, keep, all, sum_of, All, length-append,
  take-append-drop, length-take, length-drop, length-replicate, length-set, length-map,
  length-keep-le, sum_of-append, All-append, All-replicate, All-imp, All-keep, All-keep_self,
  Comparable, ◌==◌, comparable_number, comparable_text, eq_self, eq→path, ne→eq-false, contains,
  add, Distinct, contains-add, Distinct-add, length-add-le, get, insert, get-insert,
  get-insert_self, insert_by, sort_by, sort_by-perm, IsSorted, All-insert_by, All-sort_by,
  sort_by-IsSorted, flat_map, flat_map-append, flat_map-replicate_nil, flat_map-keep,
  keep-append-perm, flat_map-sort_by-perm, sum_of-perm, length-perm, contains-sort_by,
  Distinct-sort_by, keys, contains-keys-insert, IsTable, insert-IsTable, get-not_key, Result, ok,
  err, Failure, failed, Action, pure, fail, and_then, ◌>>=◌, ◌>>◌, attempt, with_error, map_error,
  any,
}
use offload.Base.Texts.{trim, lines, text_contains}
use offload.Git.{
  Output, Command, ImageEntry, NoteContents, Machine, notes_ref, in_repo, lift, require_success,
}
use Prim.Native.String.{◌++◌ as append}

-- `to_lowercase` and `contains`: A to Z are the only capitals with the pattern's letters in lower case.
abbrev lower : ℕ → ℕ
lower n = if leb b'A' n && leb n b'Z' then n + 32 else n

abbrev starts_in_lowercase : String → String → Bool
starts_in_lowercase s String.[] = true
starts_in_lowercase String.[] (String.◌∷◌ p pattern) = false
starts_in_lowercase (String.◌∷◌ c s) (String.◌∷◌ p pattern) =
    lower (code c) == code p && starts_in_lowercase s pattern

unfoldable pub lowercase_contains : String → String → Bool
lowercase_contains String.[] pattern = pattern == ""
lowercase_contains (String.◌∷◌ c s) pattern =
    starts_in_lowercase (String.◌∷◌ c s) pattern || lowercase_contains s pattern

abbrev show_args : String → List String
show_args sha = "notes" ∷ "--ref" ∷ notes_ref ∷ "show" ∷ sha ∷ []

abbrev add_args : String → String → List String
add_args file sha = "notes" ∷ "--ref" ∷ notes_ref ∷ "add" ∷ "-f" ∷ "-F" ∷ file ∷ sha ∷ []

-- "no note found", or a missing ref, is no error.
unfoldable pub is_note_missing : String → Bool
unfolding lowercase_contains
is_note_missing stderr =
    lowercase_contains stderr "no note found" || lowercase_contains stderr "not a valid ref"

unfoldable pub is_remote_missing : String → Bool
unfolding text_contains
is_remote_missing stderr =
    text_contains stderr "couldn't find remote ref"
    || text_contains stderr "no such ref"
    || text_contains stderr "does not appear to be a git repository"

-- The loop of `write_note` over the new contents.
unfoldable pub merge_contents : NoteContents → NoteContents → NoteContents
merge_contents merged [] = merged
merge_contents merged ((key, value) ∷ contents) = merge_contents (insert key value merged) contents

module _ {W : Type 0} (m : Machine W) where
  -- The process has ended with a failure.
  unfoldable pub read_failed : String → Action W Failure (Option NoteContents)
  unfolding is_note_missing
  read_failed stderr = if is_note_missing stderr then pure none else fail failed

  unfoldable pub read_note : String → String → Action W Failure (Option NoteContents)
  unfolding read_failed
  read_note repo commit_sha = do
    output ← m.run (in_repo repo (show_args commit_sha))
    if output.success
        then (do
          json ← lift (m.from_utf8 output.stdout)
          contents ← lift (m.from_str json)
          pure (some contents))
        else read_failed (m.from_utf8_lossy output.stderr)

  unfoldable pub write_note : String → String → NoteContents → Action W Failure (Unit {0})
  unfolding read_note merge_contents require_success
  write_note repo commit_sha contents = do
    existing ← read_note repo commit_sha
    json ← lift (m.to_string_pretty (merge_contents (unwrap_or existing []) contents))
    tmp ← m.new_temp_file
    m.write_all tmp (m.as_bytes json)
    output ← m.run (in_repo repo (add_args tmp commit_sha))
    done ← require_success m output
    pure tt

  unfoldable pub push_notes : String → String → Action W Failure (Unit {0})
  unfolding require_success
  push_notes repo remote = do
    output ← m.run (in_repo repo ("push" ∷ remote ∷ notes_ref ∷ "--force" ∷ []))
    done ← require_success m output
    pure tt

  unfoldable pub fetch_notes : String → String → Action W Failure (Unit {0})
  unfolding is_remote_missing
  fetch_notes repo remote = do
    output ← m.run (in_repo repo ("fetch" ∷ remote ∷ append notes_ref (append ":" notes_ref) ∷ []))
    if output.success || is_remote_missing (m.from_utf8_lossy output.stderr)
        then pure tt
        else fail failed

  abbrev refspec : String
  refspec = append "+" (append notes_ref (append ":" notes_ref))

  abbrev fetch_key : String → String
  fetch_key remote = append "remote." (append remote ".fetch")

  unfoldable pub configure_notes_fetch : String → String → Action W Failure (Unit {0})
  unfolding require_success
  configure_notes_fetch repo remote = do
    output ← m.run (in_repo repo ("config" ∷ "--get-all" ∷ fetch_key remote ∷ []))
    if any (λ line. trim line == refspec) (lines (m.from_utf8_lossy output.stdout))
        then pure tt
        else (do
          add_output ← m.run (in_repo repo ("config" ∷ "--add" ∷ fetch_key remote ∷ refspec ∷ []))
          done ← require_success m add_output
          pure tt)
