-- ===== src/Cache/Backend.antt =====
-- src/git.rs as the repository of src/image_cache.rs.
mod Samples
use offload.Base.{
  ℕ, zero, suc, ◌+◌, ◌-◌, ◌*◌, ◌/◌, ◌%◌, ◌≤◌, ◌<◌, min, max, String, ◌≡◌, refl, sym, ap, ◌∙◌, subst,
  ◌≢◌, ◌↔◌, ◌⊎◌, inl, inr, Bool, true, false, not, ◌&&◌, ◌||◌, Option, none, some, List, [], ◌∷◌,
  ◌++◌, map, foldl, flatten, append-nil, append_assoc, map-append, Perm, arith, ltb, leb,
  if◌then◌else◌, ltb→lt, lt→ltb, leb→le, le→leb, leb-false→lt, Bool-cases, Option-cases, is_some,
  unwrap_or, length, take, drop, replicate, set, keep, all, sum_of, All, length-append,
  take-append-drop, length-take, length-drop, length-replicate, length-set, length-map,
  length-keep-le, sum_of-append, All-append, All-replicate, All-imp, All-keep, All-keep_self,
  Comparable, ◌==◌, comparable_number, comparable_text, eq_self, eq→path, ne→eq-false, contains,
  add, Distinct, contains-add, Distinct-add, length-add-le, get, insert, get-insert,
  get-insert_self, insert_by, sort_by, sort_by-perm, IsSorted, All-insert_by, All-sort_by,
  sort_by-IsSorted, flat_map, flat_map-append, flat_map-replicate_nil, flat_map-keep,
  keep-append-perm, flat_map-sort_by-perm, sum_of-perm, length-perm, contains-sort_by,
  Distinct-sort_by, keys, contains-keys-insert, IsTable, insert-IsTable, get-not_key, Result, ok,
  err, Failure, failed, Action, pure, fail, and_then, ◌>>=◌, ◌>>◌, attempt, with_error, map_error,
  any, Ends, Ensures, Keeps, bind-Ensures, pure-Keeps, lift-Keeps, if-Ensures, Keeps-snd,
  attempt-Keeps, map_error-Ensures, weaken-Ensures, snd-Keeps, bind-eq-ok,
}
use offload.Git.{ImageEntry, NoteContents, Machine, head_sha, repo_root, nearest_ancestor_touching}
use offload.Git.Notes.{
  read_note, write_note, push_notes, fetch_notes, configure_notes_fetch, merge_contents,
}
use offload.Git.Notes.Stored.{StoresNotes, read_note-write_note}
use offload.Git.Trees.{export_tree, generate_checkpoint_diff}
use offload.Cache.{Repository, CachedImage, cached_of, cached_entry, read_cached_image_for_commit}

abbrev pub entry : String → String → NoteContents
entry key id = (key, record { image_id = id }) ∷ []

module _ {W : Type 0} (m : Machine W) (repo : String) where
  unfoldable pub git_repository : Repository W
  git_repository = record {
    head_sha = head_sha m repo;
    repo_root = repo_root m repo;
    nearest_ancestor_touching = nearest_ancestor_touching m repo;
    read_note = read_note m repo;
    write_note = write_note m repo;
    push_notes = push_notes m repo;
    fetch_notes = fetch_notes m repo;
    configure_notes_fetch = configure_notes_fetch m repo;
    export_tree = export_tree m repo;
    generate_checkpoint_diff = generate_checkpoint_diff m repo;
  }

  cached_entry-merge_contents :
      (key id : String) (existing : NoteContents)
      → (id == "") ≡ false
      → cached_entry git_repository key (some (merge_contents existing (entry key id)))
        ≡ some (record { image_id = id })
  unfolding cached_entry cached_of merge_contents
  cached_entry-merge_contents key id existing h =
      ap (cached_of git_repository) (get-insert_self key (record { image_id = id }) existing)
      ∙ rw h refl

  module _ {note : W → String → Option (List ℕ)} {file : W → String → List ℕ}
      {cleaned : List ℕ → List ℕ} (h : StoresNotes m repo note file cleaned) where
    -- If git stores the bytes of a note up to the clean-up of blanks and JSON survives that, then once the note
    -- with an image id, which is not empty, has been written without an error, looking up the cached image of
    -- that commit with that key finds the id, whatever else the note holds.
    pub read_cached_image-write_note :
        (w w' : W) (sha key id : String)
        → (id == "") ≡ false
        → write_note m repo sha (entry key id) w ≡ (ok tt, w')
        → (read_cached_image_for_commit git_repository sha key w').0
          ≡ ok (some (record { image_id = id }))
    unfolding read_cached_image_for_commit git_repository
    read_cached_image-write_note w w' sha key id present e =
        let (existing, before, after) = read_note-write_note m repo h w w' sha (entry key id) e in
        let seen = λ (x : Result Failure (Option NoteContents)).
          (and_then (x, (read_note m repo sha w').1)
            (λ found. pure (cached_entry git_repository key found))).0 in
        ap seen after
        ∙ ap (λ x. ok x) (cached_entry-merge_contents key id (unwrap_or existing []) present)
