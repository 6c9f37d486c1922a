-- ===== src/Tools/DiskPolicy/Paths.antt =====
-- `normalize_path` of tools/disk_policy.py, with what it uses of `PurePosixPath`. A path is parsed
-- into its root (empty, `/`, or `//` for exactly two slashes in front) and its parts, of which the
-- empty ones and `.` are dropped.
use open_devops_agent.Prelude.{◌≡◌, refl, ◌&&◌, not, List, [], ◌∷◌, ◌++◌, if◌then◌else◌, filter_by}
use open_devops_agent.Text.{Text, codes, text_eq, starts_with, strip, is_empty, split_on, join_with}

unfoldable pub path_root : Text → Text
unfolding starts_with
path_root path =
    if not (starts_with path (codes "/"))
    then []
    else if starts_with path (codes "//") && not (starts_with path (codes "///"))
    then codes "//"
    else codes "/"

-- The parts below the root.
unfoldable pub path_parts : Text → List Text
unfolding filter_by split_on text_eq
path_parts path =
    filter_by (λ p. not (is_empty p) && not (text_eq p (codes "."))) (split_on b'/' path)

-- `resolved.parts`: the root is the first part. A relative path is taken below `/`.
unfoldable pub resolved_parts : Text → List Text
unfolding path_root path_parts
resolved_parts path =
    (if is_empty (path_root path) then codes "/" else path_root path) ∷ path_parts path

-- parts.pop(), if there are any
abbrev pub pop_last : List Text → List Text
pop_last [] = []
pop_last (p ∷ []) = []
pop_last (p ∷ q ∷ ps) = p ∷ pop_last (q ∷ ps)

-- The loop over the parts, with the parts kept so far.
unfoldable pub resolve_dots : List Text → List Text → List Text
unfolding text_eq
resolve_dots kept [] = kept
resolve_dots kept (part ∷ parts) =
    resolve_dots
      (if text_eq part (codes "..")
        then pop_last kept
        else if text_eq part (codes ".")
        then kept
        else kept ++ part ∷ [])
      parts

-- str(PurePosixPath(*parts)) with a slash in front, unless the first part is one
abbrev pub path_text : List Text → Text
path_text [] = codes "/"
path_text (root ∷ parts) =
    if text_eq root (codes "/")
    then b'/' ∷ join_with (codes "/") parts
    else if text_eq root (codes "//")
    then b'/' ∷ (codes "//" ++ join_with (codes "/") parts)
    else b'/' ∷ join_with (codes "/") (root ∷ parts)

unfoldable pub normalize_path : Text → Text
unfolding strip resolved_parts resolve_dots text_eq join_with
normalize_path path =
    let cleaned = strip path in
    if is_empty cleaned then [] else path_text (resolve_dots [] (resolved_parts cleaned))

abbrev last_or_empty : List Text → Text
last_or_empty [] = []
last_or_empty (p ∷ []) = p
last_or_empty (p ∷ q ∷ ps) = last_or_empty (q ∷ ps)

-- PurePosixPath(path).name
unfoldable pub path_name : Text → Text
unfolding path_parts
path_name path = last_or_empty (path_parts path)

normalize_path_tests :
    (normalize_path (codes " /var/log/../../etc//./passwd ") ≡ codes "/etc/passwd")
    × (normalize_path (codes "var/log/") ≡ codes "/var/log")
    × (normalize_path (codes "//etc/passwd") ≡ codes "///etc/passwd")
    × (normalize_path (codes "/..") ≡ codes "/")
unfolding normalize_path
normalize_path_tests = (refl, refl, refl, refl)
