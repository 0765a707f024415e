-- ===== src/Cache/Traced.antt =====
-- A record of what src/image_cache.rs calls: the exports of commits, the builds of images, and the notes.
use offload.Base.{
  String, ◌≡◌, Bool, true, false, Option, none, some, List, [], ◌∷◌, ◌++◌, if◌then◌else◌, All, ◌==◌,
  comparable_number, comparable_text, Result, ok, err, Action, Ends, Ensures, Keeps,
}
use offload.Git.{NoteContents}
use offload.Cache.{Repository}
use offload.Cache.Prewarm.{ImageBuilder, Surroundings}

-- A call with its arguments and what matters of its answer: whether the export succeeded, and the image.
pub data Call : Type 0 where
  exported : String → String → Bool → Call
  built : Option String → Option String → Call
  wrote : String → NoteContents → Call

-- The commit that a directory holds an export of, by the latest export to it. The last call comes first.
abbrev pub last_export : String → List Call → Option String
last_export dir [] = none
last_export dir (exported sha d done ∷ log) =
    let earlier = last_export dir log in
    if d == dir then (if done then some sha else none) else earlier
last_export dir (built d image ∷ log) = last_export dir log
last_export dir (wrote sha contents ∷ log) = last_export dir log

-- A build from an export of the commit has returned the image.
pub data IsBuilt (sha id : String) : List Call → Type 0 where
  from_export :
      (dir : String) (log : List Call)
      → last_export dir log ≡ some sha
      → IsBuilt sha id (built (some dir) (some id) ∷ log)
  before : (c : Call) (log : List Call) → IsBuilt sha id log → IsBuilt sha id (c ∷ log)

-- Every image in a note was built from an export of the note's commit before the note was written, and no
-- note is written where the cache is off.
abbrev pub IsAccounted : Bool → List Call → Type 0
IsAccounted no_cache [] = Unit
IsAccounted no_cache (wrote sha contents ∷ log) =
    (no_cache ≡ false) × All (λ e. IsBuilt sha e.1.image_id log) contents × IsAccounted no_cache log
IsAccounted no_cache (exported sha d done ∷ log) = IsAccounted no_cache log
IsAccounted no_cache (built d image ∷ log) = IsAccounted no_cache log

abbrev pub Traced : Type 0 → Type 0
Traced W = W × List Call

module _ {W E A : Type 0} where
  -- An action whose call is recorded with its answer.
  abbrev pub recorded : (Result E A → List Call) → Action W E A → Action (Traced W) E A
  recorded calls m x = ((m x.0).0, ((m x.0).1, calls (m x.0).0 ++ x.1))

  abbrev pub unrecorded : Action W E A → Action (Traced W) E A
  unrecorded = recorded (λ _. [])

  recorded-Ends :
      (I : List Call → Type 0) (Q : A → List Call → Type 0) (calls : Result E A → List Call)
      (log : List Call) (y : Result E A × W)
      → ((a : A) → Q a (calls (ok a) ++ log))
      → ((e : E) → I (calls (err e) ++ log))
      → Ends {W = Traced W} (λ x. I x.1) (λ a x. Q a x.1) (y.0, (y.1, calls y.0 ++ log))
  recorded-Ends I Q calls log (ok a, w) h k = h a
  recorded-Ends I Q calls log (err e, w) h k = k e

  pub recorded-Ensures :
      (I P : List Call → Type 0) (Q : A → List Call → Type 0) (calls : Result E A → List Call)
      (m : Action W E A)
      → ((a : A) (log : List Call) → P log → Q a (calls (ok a) ++ log))
      → ((e : E) (log : List Call) → P log → I (calls (err e) ++ log))
      → Ensures {W = Traced W} (λ x. I x.1) (λ x. P x.1) (recorded calls m) (λ a x. Q a x.1)
  recorded-Ensures I P Q calls m h k = record {
    ends = λ x p. recorded-Ends I Q calls x.1 (m x.0) (λ a. h a x.1 p) (λ e. k e x.1 p);
  }

  pub unrecorded-Keeps :
      (I : List Call → Type 0) (m : Action W E A) → Keeps {W = Traced W} (λ x. I x.1) (unrecorded m)
  unrecorded-Keeps I m = recorded-Ensures I I (λ _. I) (λ _. []) m (λ a log i. i) (λ e log i. i)

abbrev pub succeeded : {E A : Type 0} → Result E A → Bool
succeeded (ok a) = true
succeeded (err e) = false

abbrev pub image_of : {E : Type 0} → Result E (Option String) → Option String
image_of (ok image) = image
image_of (err e) = none

module _ {W : Type 0} where
  abbrev pub traced_repository : Repository W → Repository (Traced W)
  traced_repository r = record {
    head_sha = unrecorded r.head_sha;
    repo_root = unrecorded r.repo_root;
    nearest_ancestor_touching = λ paths. unrecorded (r.nearest_ancestor_touching paths);
    read_note = λ sha. unrecorded (r.read_note sha);
    write_note =
        λ sha contents. recorded (λ _. wrote sha contents ∷ []) (r.write_note sha contents);
    push_notes = λ remote. unrecorded (r.push_notes remote);
    fetch_notes = λ remote. unrecorded (r.fetch_notes remote);
    configure_notes_fetch = λ remote. unrecorded (r.configure_notes_fetch remote);
    export_tree =
        λ sha dir. recorded (λ x. exported sha dir (succeeded x) ∷ []) (r.export_tree sha dir);
    generate_checkpoint_diff = λ sha. unrecorded (r.generate_checkpoint_diff sha);
  }

  abbrev pub traced_builder : ImageBuilder W → ImageBuilder (Traced W)
  traced_builder b = record {
    build_full = λ copy_dirs init waits dir.
        recorded (λ x. built dir (image_of x) ∷ []) (b.build_full copy_dirs init waits dir);
    build_incremental =
        λ id patch root cmd waits. unrecorded (b.build_incremental id patch root cmd waits);
  }

  abbrev pub traced_surroundings : Surroundings W → Surroundings (Traced W)
  traced_surroundings s = record {
    delays = s.delays;
    tempdir = unrecorded s.tempdir;
    current_dir = unrecorded s.current_dir;
    read_to_string = λ path x. s.read_to_string path x.0;
    rsync = λ args. unrecorded (s.rsync args);
  }
