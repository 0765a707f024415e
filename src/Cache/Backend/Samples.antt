-- ===== src/Cache/Backend/Samples.antt =====
-- The machine of one note, for the cached images of src/image_cache.rs.
use offload.Base.{◌≡◌, refl, Option, some, comparable_number, comparable_text, insert, ok}
use offload.Git.Notes.{write_note}
use offload.Git.Notes.Samples.{machine, machine-StoresNotes, empty, after_write}
use offload.Cache.{CachedImage, read_cached_image_for_commit}
use offload.Cache.Backend.{git_repository, read_cached_image-write_note}

abbrev found_image : Option CachedImage
found_image = some (record { image_id = "img" })

read_cached_image-write_note_example :
    (read_cached_image_for_commit
      (git_repository machine "/repo")
      "c1"
      "offload.toml"
      after_write).0
    ≡ ok found_image
unfolding write_note insert
read_cached_image-write_note_example =
    read_cached_image-write_note machine "/repo" machine-StoresNotes empty after_write "c1"
      "offload.toml" "img" refl refl
