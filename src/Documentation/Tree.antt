-- ===== src/Documentation/Tree.antt =====
-- The working tree as scripts/check_documentation.py sees it: files and directories by their paths below
-- `ROOT`, reading a text, resolving a path.
pub mod Sorted
use mathlib.Core.List.{reverse}
use coupon_service.Base.{
  ◌≡◌, Bool, true, false, ◌&&◌, Option, none, some, List, [], ◌∷◌, ◌++◌, ◌==◌, ◌=?◌, if◌then◌else◌,
  Text, codes, text_eq, text_beq, Dict, keys, lookup, select, split_on, join, starts_with,
}
use coupon_service.Base.Sort.{parts_le}
use coupon_service.Base.Utf8.{decode_utf8}
use coupon_service.Package.Checksums.{Node, file, other}
use coupon_service.Package.Paths.{suffix}

abbrev pub Tree : Type 0
Tree = Dict Text Node

abbrev pub is_file_node : Option Node → Bool
is_file_node (some (file bytes)) = true
is_file_node (some other) = false
is_file_node none = false

abbrev pub is_there : Option Node → Bool
is_there none = false
is_there (some node) = true

-- `path.is_file()` for a path below `ROOT`
unfoldable pub is_file : Tree → Text → Bool
is_file tree path = is_file_node (lookup path tree)

-- Line ends as `read_text` translates them.
abbrev pub starts_feed : Text → Bool
starts_feed [] = false
starts_feed (c ∷ cs) = c == b'\n'

unfoldable pub translate : Text → Text
translate [] = []
translate (c ∷ cs) =
    let rest = translate cs in
    if c == b'\r' then (if starts_feed cs then rest else b'\n' ∷ rest) else c ∷ rest

-- A text, the `ValidationError` for bytes that are no UTF-8, or the error of a path that is no file.
pub data Reading : Type 0 where
  content : Text → Reading
  not_utf8 no_file : Reading

abbrev pub decoded : Option Text → Reading
decoded none = not_utf8
decoded (some text) = content (translate text)

abbrev pub read_node : Option Node → Reading
read_node (some (file bytes)) = decoded (decode_utf8 bytes)
read_node (some other) = no_file
read_node none = no_file

-- `read(path)`
unfoldable pub read : Tree → Text → Reading
unfolding translate decode_utf8
read tree path = read_node (lookup path tree)

-- where no `ValidationError` is caught, both errors end the run
abbrev pub text_of : Reading → Option Text
text_of (content text) = some text
text_of not_utf8 = none
text_of no_file = none

-- The parts of a path below the root directory of the file system, the last one first. `..` at the root
-- stays there.
abbrev pub parent : List Text → List Text
parent [] = []
parent (p ∷ up) = up

unfoldable pub step_to : List Text → Text → List Text
unfolding text_beq
step_to up part =
    if part =? []
    then up
    else if part =? codes "."
    then up
    else if part =? codes ".."
    then parent up
    else part ∷ up

unfoldable pub walk : List Text → List Text → List Text
unfolding step_to
walk up [] = up
walk up (part ∷ parts) = walk (step_to up part) parts

-- `(directory / target).resolve()`, where nothing is a symbolic link
unfoldable pub resolve : List Text → Text → List Text
unfolding walk split_on starts_with
resolve directory target =
    reverse (
      walk (if starts_with target (codes "/") then [] else reverse directory)
        (split_on b'/' target))

-- `path.relative_to(directory)`; `none` is the `ValueError`
unfoldable pub relative_to : List Text → List Text → Option (List Text)
relative_to [] path = some path
relative_to (d ∷ ds) [] = none
relative_to (d ∷ ds) (p ∷ ps) = let rest = relative_to ds ps in if d =? p then rest else none

-- `as_posix()`
abbrev pub posix : List Text → Text
posix = join (codes "/")

-- `path.exists()` for the parts below `ROOT`
unfoldable pub exists : Tree → List Text → Bool
unfolding join
exists tree [] = true
exists tree (p ∷ ps) = is_there (lookup (posix (p ∷ ps)) tree)

abbrev pub all_but_last : List Text → List Text
all_but_last [] = []
all_but_last (p ∷ []) = []
all_but_last (p ∷ q ∷ ps) = p ∷ all_but_last (q ∷ ps)

abbrev pub name_of : List Text → Text
name_of [] = []
name_of (p ∷ []) = p
name_of (p ∷ q ∷ ps) = name_of (q ∷ ps)

unfoldable pub parts_of : Text → List Text
unfolding split_on
parts_of path = split_on b'/' path

-- `*.md` as the pattern of `rglob`
abbrev pub is_markdown : Text → Bool
is_markdown path = starts_with (reverse (name_of (parts_of path))) (reverse (codes ".md"))

insert_path : Text → List Text → List Text
unfolding parts_le parts_of
insert_path x [] = x ∷ []
insert_path x (y ∷ ys) =
    let rest = insert_path x ys in
    if parts_le (parts_of x) (parts_of y) then x ∷ y ∷ ys else y ∷ rest

-- `sorted` of paths: part by part
unfoldable pub sorted_paths : List Text → List Text
unfolding insert_path
sorted_paths [] = []
sorted_paths (x ∷ xs) = insert_path x (sorted_paths xs)

-- `sorted(ROOT.rglob("*.md"))`
unfoldable pub markdown_files : Tree → List Text
unfolding sorted_paths starts_with
markdown_files tree = sorted_paths (select is_markdown (keys tree))
