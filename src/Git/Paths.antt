-- ===== src/Git/Paths.antt =====
-- Rust's Path, as far as src/git.rs uses it, and the key of a configuration file in a note.
use Prim.Native.Char.{code}
use Prim.Native.String.{◌++◌ as append}
use offload.Base.{
  String, Bool, false, not, ◌&&◌, ◌||◌, Option, none, some, List, [], ◌∷◌, if◌then◌else◌, is_some,
  unwrap_or, keep, ◌==◌, comparable_number, comparable_text, Result, ok, err, Failure, failed,
}
use offload.Base.Texts.{split, split_once, strip_prefix}

abbrev is_absolute : String → Bool
is_absolute path = is_some (strip_prefix path "/")

abbrev ends_with_slash : String → Bool
ends_with_slash String.[] = false
ends_with_slash (String.◌∷◌ c s) = if s == "" then code c == b'/' else ends_with_slash s

-- Path::join
unfoldable pub join : String → String → String
unfolding strip_prefix
join base path =
    if is_absolute path
    then path
    else if base == "" || ends_with_slash base
    then append base path
    else append base (append "/" path)

-- The components of a path after its root: "." and what is empty are none.
unfoldable pub components : String → List String
unfolding split
components path = keep (λ c. not (c == "" || c == ".")) (split b'/' path)

-- A path without the separators and the "." that it begins with, or ends with.
abbrev skip : String → String
skip String.[] = ""
skip (String.◌∷◌ c s) =
    let rest = skip s in
    if code c == b'/' || (code c == b'.' && (s == "" || is_absolute s))
    then rest
    else String.◌∷◌ c s

abbrev reverse_onto : String → String → String
reverse_onto done String.[] = done
reverse_onto done (String.◌∷◌ c s) = reverse_onto (String.◌∷◌ c done) s

abbrev trim_path : String → String
trim_path path = reverse_onto "" (skip (reverse_onto "" (skip path)))

abbrev strip_components : String → List String → Option String
strip_components path [] = some (trim_path path)
strip_components path (b ∷ base) =
    let (first, rest) = split_once b'/' (skip path) in
    let stripped = strip_components (unwrap_or rest "") base in
    if first == b then stripped else none

-- Path::strip_prefix, of an absolute path.
unfoldable pub strip_base : String → String → Option String
unfolding components split_once strip_prefix
strip_base path base =
    if is_absolute base
    then strip_components path (components base)
    else if base == ""
    then some path
    else none

unfoldable pub canonicalize_config_path : String → String → Result Failure String
unfolding strip_base strip_prefix
canonicalize_config_path config_path repo_root =
    let stripped = unwrap_or (strip_prefix config_path "./") config_path in
    if is_absolute stripped
    then elim (strip_base stripped repo_root) [ some rel ↦ ok rel | none ↦ err failed ]
    else ok stripped
