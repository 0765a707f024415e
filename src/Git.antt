-- ===== src/Git.antt =====
-- src/git.rs: the git commands that resolve and cache images. What git, the file system and the JSON
-- library do is a parameter, a machine; the messages of errors and the logs are left out.
pub mod Notes
pub mod Trees
pub mod Paths
mod Samples
use offload.Base.{
  ℕ, zero, suc, ◌+◌, ◌-◌, ◌*◌, ◌/◌, ◌%◌, ◌≤◌, ◌<◌, min, max, String, ◌≡◌, refl, sym, ap, ◌∙◌, subst,
  ◌≢◌, ◌↔◌, ◌⊎◌, inl, inr, Bool, true, false, not, ◌&&◌, ◌||◌, Option, none, some, List, [], ◌∷◌,
  ◌++◌, map, foldl, flatten, append-nil, append_assoc, map-append, Perm, arith, ltb, leb,
  if◌then◌else◌, ltb→lt, lt→ltb, leb→le, le→leb, leb-false→lt, Bool-cases, Option-cases, is_some,
  unwrap_or, length, take, drop, replicate, set, keep, all, sum_of, All, length-append,
  take-append-drop, length-take, length-drop, length-replicate, length-set, length-map,
  length-keep-le, sum_of-append, All-append, All-replicate, All-imp, All-keep, All-keep_self,
  Comparable, ◌==◌, comparable_number, comparable_text, eq_self, eq→path, ne→eq-false, contains,
  add, Distinct, contains-add, Distinct-add, length-add-le, get, insert, get-insert,
  get-insert_self, insert_by, sort_by, sort_by-perm, IsSorted, All-insert_by, All-sort_by,
  sort_by-IsSorted, flat_map, flat_map-append, flat_map-replicate_nil, flat_map-keep,
  keep-append-perm, flat_map-sort_by-perm, sum_of-perm, length-perm, contains-sort_by,
  Distinct-sort_by, keys, contains-keys-insert, IsTable, insert-IsTable, get-not_key, Result, ok,
  err, Failure, failed, Action, pure, fail, and_then, ◌>>=◌, ◌>>◌, attempt, with_error, map_error,
  any,
}
use offload.Base.Texts.{trim, lines}

-- The output of a finished process.
pub record Output : Type 0 where
  pub success : Bool
  pub stdout : List ℕ
  pub stderr : List ℕ

-- A call of git, with its directory, `GIT_INDEX_FILE`, and what is written to its stdin.
pub record Command : Type 0 where
  pub args : List String
  pub current_dir : Option String
  pub index_file : Option String
  pub stdin : Option (List ℕ)

pub record ImageEntry : Type 0 where
  pub image_id : String

abbrev pub NoteContents : Type 0
NoteContents = List (String × ImageEntry)

-- What is outside of the program. `run` fails if the process does not start; a path of a temporary file
-- is a text.
pub record Machine (W : Type 0) : Type 0 where
  pub run : Command → Action W Failure Output
  pub from_utf8 : List ℕ → Result Failure String
  pub from_utf8_lossy : List ℕ → String
  pub as_bytes : String → List ℕ
  pub to_string_pretty : NoteContents → Result Failure String
  pub from_str : String → Result Failure NoteContents
  pub new_temp_file : Action W Failure String
  pub write_all : String → List ℕ → Action W Failure (Unit {0})
  pub exists : String → W → Bool
  pub create_parent_dirs : String → W → W
  pub copy : String → String → W → W

abbrev pub notes_ref : String
notes_ref = "refs/notes/offload-images"

abbrev pub in_repo : String → List String → Command
in_repo repo args = record { args = args; current_dir = some repo; index_file = none; stdin = none }

-- A result that stands inside an action.
abbrev pub lift : {W A : Type 0} → Result Failure A → Action W Failure A
lift r w = (r, w)

module _ {W : Type 0} (m : Machine W) where
  -- `bail!` if the process has failed, then its output.
  unfoldable pub require_success : Output → Action W Failure Output
  require_success output = if output.success then pure output else fail failed

  unfoldable pub run_git : String → List String → Action W Failure String
  unfolding require_success trim
  run_git repo args = do
    output ← m.run (in_repo repo args)
    done ← require_success output
    stdout ← lift (m.from_utf8 done.stdout)
    pure (trim stdout)

  unfoldable pub head_sha : String → Action W Failure String
  unfolding run_git
  head_sha repo = run_git repo ("rev-parse" ∷ "HEAD" ∷ [])

  unfoldable pub repo_root : String → Action W Failure String
  unfolding run_git
  repo_root repo = run_git repo ("rev-parse" ∷ "--show-toplevel" ∷ [])

  unfoldable pub commit_touches_paths : String → String → List String → Action W Failure Bool
  unfolding run_git lines
  commit_touches_paths repo commit_sha paths = do
    output ←
        run_git repo
          ("diff-tree" ∷ "--no-commit-id" ∷ "--name-only" ∷ "-r" ∷ "-m" ∷ commit_sha ∷ [])
    let changed = lines output
    pure (any (λ p. contains p changed) paths)

  unfoldable pub diff_file_count : String → String → String → Action W Failure ℕ
  unfolding run_git lines
  diff_file_count repo from_sha to_sha = do
    output ← run_git repo ("diff" ∷ "--name-only" ∷ from_sha ∷ to_sha ∷ [])
    if output == "" then pure 0 else pure (length (lines output))

  -- The depth is printed as a decimal number.
  unfoldable pub ancestors : String → String → Action W Failure (List String)
  unfolding run_git lines
  ancestors repo max_depth = do
    output ← run_git repo ("log" ∷ "--format=%H" ∷ "-n" ∷ max_depth ∷ [])
    pure (lines output)

  abbrev log_touching : List String → List String
  log_touching paths = "log" ∷ "--format=%H" ∷ "-n" ∷ "1" ∷ "HEAD" ∷ "--" ∷ paths

  unfoldable pub nearest_ancestor_touching : String → List String → Action W Failure (Option String)
  unfolding run_git trim
  nearest_ancestor_touching repo [] = pure none
  nearest_ancestor_touching repo (path ∷ paths) = do
    output ← run_git repo (log_touching (path ∷ paths))
    let sha = trim output
    if sha == "" then pure none else pure (some sha)
