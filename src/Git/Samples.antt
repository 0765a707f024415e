-- ===== src/Git/Samples.antt =====
-- Concrete paths for src/git.rs.
use offload.Base.{◌≡◌, refl, comparable_number, comparable_text, ok, err, failed}
use offload.Base.Texts.{split, split_once, strip_prefix}
use offload.Git.Paths.{components, strip_base, canonicalize_config_path}

inside_root : canonicalize_config_path "/a/b/./x//c.toml/." "//a//b" ≡ ok "x//c.toml"
unfolding canonicalize_config_path strip_base strip_prefix components split_once split
inside_root = refl

relative : canonicalize_config_path "./c.toml" "/a/b" ≡ ok "c.toml"
unfolding canonicalize_config_path strip_base strip_prefix components split_once split
relative = refl

beside_root : canonicalize_config_path "/a/bc/x" "/a/b" ≡ err failed
unfolding canonicalize_config_path strip_base strip_prefix components split_once split
beside_root = refl

-- The same file from a directory below the root, and from the root, has two keys.
parent : canonicalize_config_path "../c.toml" "/a/b" ≡ ok "../c.toml"
unfolding canonicalize_config_path strip_base strip_prefix components split_once split
parent = refl
