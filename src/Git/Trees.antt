-- ===== src/Git/Trees.antt =====
-- src/git.rs: the files of a commit, and what has changed since.
use offload.Base.{
  ℕ, String, Bool, not, ◌||◌, Option, none, some, List, [], ◌∷◌, if◌then◌else◌, all, ◌==◌,
  comparable_number, comparable_text, contains, ok, Failure, Action, pure, ◌>>=◌, ◌>>◌,
}
use offload.Base.Texts.{lines}
use offload.Git.{Output, Command, Machine, in_repo, require_success, repo_root}
use offload.Git.Paths.{join}
use Prim.Native.String.{◌++◌ as append}

abbrev list_args : String → Bool → List String
list_args dockerignore is_there =
    "ls-files"
    ∷ "--others"
    ∷ "--exclude=.git"
    ∷ (if is_there then append "--exclude-from=" dockerignore ∷ [] else [])

abbrev anywhere : List String → Command
anywhere args = record { args = args; current_dir = none; index_file = none; stdin = none }

abbrev with_index : String → String → List String → Option (List ℕ) → Command
with_index repo index args stdin = record {
  args = args;
  current_dir = some repo;
  index_file = some index;
  stdin = stdin;
}

-- `u8::is_ascii_whitespace`
abbrev is_ascii_whitespace : ℕ → Bool
is_ascii_whitespace b = b == b'\t' || b == b'\n' || b == 12 || b == b'\r' || b == b' '

module _ {W : Type 0} (m : Machine W) where
  -- The loop over the files: what is not in the thin diff already is copied, errors are ignored.
  unfoldable pub copy_files : List String → String → String → List String → W → W
  unfolding join
  copy_files non_gitignored repo_root dest [] w = w
  copy_files non_gitignored repo_root dest (relpath ∷ rest) w =
      if relpath == "" || contains relpath non_gitignored
      then copy_files non_gitignored repo_root dest rest w
      else copy_files non_gitignored repo_root dest rest (
          m.copy (join repo_root relpath) (join dest relpath)
            (m.create_parent_dirs (join dest relpath) w))

  unfoldable pub copy_listed : String → String → Output → Output → Action W Failure (Unit {0})
  unfolding copy_files lines
  copy_listed repo_root dest all_output ngi_output w =
      let ngi_stdout = if ngi_output.success then m.from_utf8_lossy ngi_output.stdout else "" in
      let all_stdout = m.from_utf8_lossy all_output.stdout in
      (ok tt, copy_files (lines ngi_stdout) repo_root dest (lines all_stdout) w)

  unfoldable pub copy_untracked_files : String → String → Action W Failure (Unit {0})
  unfolding copy_listed join
  copy_untracked_files repo_root dest w =
      let dockerignore = join repo_root ".dockerignore" in
      let all_args = list_args dockerignore (m.exists dockerignore w) in
      let copied : Action W Failure (Unit {0}) = (do
        all_output ← m.run (in_repo repo_root all_args)
        if not all_output.success then pure tt else (do
          ngi_output ←
              m.run (in_repo repo_root ("ls-files" ∷ "--others" ∷ "--exclude-standard" ∷ []))
          copy_listed repo_root dest all_output ngi_output)) in
      copied w

  -- The closure `run` of `export_tree`.
  unfoldable pub run_anywhere : List String → Action W Failure (Unit {0})
  unfolding require_success
  run_anywhere args = do output ← m.run (anywhere args); done ← require_success m output; pure tt

  unfoldable pub export_tree : String → String → String → Action W Failure (Unit {0})
  unfolding repo_root run_anywhere copy_untracked_files
  export_tree repo commit_sha dest = do
    root ← repo_root m repo
    run_anywhere ("init" ∷ dest ∷ [])
    run_anywhere ("-C" ∷ dest ∷ "fetch" ∷ "--depth=1" ∷ append "file://" root ∷ commit_sha ∷ [])
    run_anywhere ("-C" ∷ dest ∷ "checkout" ∷ "FETCH_HEAD" ∷ [])
    run_anywhere ("-C" ∷ dest ∷ "checkout" ∷ "-b" ∷ "main" ∷ [])
    copy_untracked_files root dest

  -- The closure `run_git_with_index`.
  unfoldable pub run_git_with_index :
      String → String → List String → Option (List ℕ) → Action W Failure Output
  unfolding require_success
  run_git_with_index repo index args stdin = do
    output ← m.run (with_index repo index args stdin)
    require_success m output

  -- The files of the index that .dockerignore names are put back to the checkpoint.
  unfoldable pub reset_listed : String → String → String → List ℕ → Action W Failure (Unit {0})
  unfolding run_git_with_index
  reset_listed repo index sha [] = pure tt
  reset_listed repo index sha (b ∷ bs) = do
    output ←
        run_git_with_index repo index
          ("reset" ∷ "-q" ∷ sha ∷ "--pathspec-from-file=-" ∷ "--pathspec-file-nul" ∷ [])
          (some (b ∷ bs))
    pure tt

  unfoldable pub filter_index : String → String → String → Action W Failure (Unit {0})
  unfolding run_git_with_index reset_listed join
  filter_index repo index sha w =
      let dockerignore = join repo ".dockerignore" in
      let filtered : Action W Failure (Unit {0}) = (do
        listed ←
            run_git_with_index repo index
              ("ls-files"
                ∷ "--cached"
                ∷ "--ignored"
                ∷ "-z"
                ∷ append "--exclude-from=" dockerignore
                ∷ [])
              none
        reset_listed repo index sha listed.stdout) in
      if m.exists dockerignore w then filtered w else pure tt w

  -- The patch file, if anything has changed.
  unfoldable pub generate_checkpoint_diff : String → String → Action W Failure (Option String)
  unfolding run_git_with_index filter_index
  generate_checkpoint_diff repo checkpoint_sha = do
    index ← m.new_temp_file
    seeded ← run_git_with_index repo index ("read-tree" ∷ checkpoint_sha ∷ []) none
    staged ← run_git_with_index repo index ("add" ∷ "-A" ∷ []) none
    filter_index repo index checkpoint_sha
    output ←
        run_git_with_index repo index ("diff" ∷ "--cached" ∷ "--binary" ∷ checkpoint_sha ∷ []) none
    if all is_ascii_whitespace output.stdout then pure none else (do
      patch_file ← m.new_temp_file
      m.write_all patch_file output.stdout
      pure (some patch_file))
