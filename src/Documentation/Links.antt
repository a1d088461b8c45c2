-- ===== src/Documentation/Links.antt =====
-- `validate_links` and `validate_documentation_index` of scripts/check_documentation.py.
pub mod Inside
pub mod Index
use coupon_service.Base.{
  ℕ, Bool, true, false, not, ◌&&◌, ◌||◌, Option, none, some, List, [], ◌∷◌, ◌++◌, ◌==◌, ◌=?◌,
  if◌then◌else◌, String, Text, codes, text_eq, contains, any_of, select, keys, map, starts_with,
  strip, is_space, is_empty,
}
use coupon_service.Base.Sets.{minus, unique}
use coupon_service.Base.Sort.{sorted}
use coupon_service.Contract.Report.{Reported, ◌>>◌, ◌>>=◌, nothing, complain, complain_if, for_each}
use coupon_service.Documentation.Pattern.{find_all, link, span, except}
use coupon_service.Documentation.Problem.{
  Problem, link_escapes, link_broken, not_indexed, stale_index,
}
use coupon_service.Documentation.Tree.{
  Tree, read, text_of, resolve, relative_to, exists, posix, parts_of, all_but_last, name_of,
  markdown_files, is_markdown,
}
use coupon_service.Package.Paths.{suffix}

-- `target.split(c, 1)[0]`
abbrev pub before : ℕ → Text → Text
before c text = (span (except c) text).0

abbrev pub ends_angle : Text → Bool
ends_angle [] = false
ends_angle (c ∷ []) = c == b'>'
ends_angle (c ∷ d ∷ cs) = ends_angle (d ∷ cs)

abbrev pub drop_last : Text → Text
drop_last [] = []
drop_last (c ∷ []) = []
drop_last (c ∷ d ∷ cs) = c ∷ drop_last (d ∷ cs)

-- `target[1:-1]` where the text stands in angle brackets
abbrev pub unbracket : Text → Text
unbracket [] = []
unbracket (c ∷ cs) = if c == b'<' && ends_angle (c ∷ cs) then drop_last cs else c ∷ cs

unfoldable pub normalize : Text → Text
unfolding span strip
normalize raw = before b'?' (before b'#' (unbracket (strip is_space raw)))

abbrev pub is_external : List String → Text → Bool
is_external schemes target = any_of (λ scheme. starts_with target (codes scheme)) schemes

abbrev pub schemes : List String
schemes = "http://" ∷ "https://" ∷ "mailto:" ∷ "urn:" ∷ []

-- `[path for path in ... if path != index_path]`
abbrev pub index_path : Text
index_path = codes "docs/DOCUMENTATION_INDEX.md"

-- the parts of `ROOT`, from the root directory of the file system on
module _ (root : List Text) (tree : Tree) where
  -- `path.parent`
  abbrev pub directory_of : Text → List Text
  directory_of path = root ++ all_but_last (parts_of path)

  abbrev pub check_target : Text → Text → Option (List Text) → Reported Problem
  check_target path raw none = complain (link_escapes path raw)
  check_target path raw (some inside) =
      complain_if (not (exists tree inside)) (link_broken path raw)

  unfoldable pub check_link : Text → Text → Reported Problem
  unfolding normalize starts_with resolve relative_to exists complain_if
  check_link path raw =
      if is_empty (normalize raw) || is_external schemes (normalize raw)
      then nothing
      else check_target path raw (relative_to root (resolve (directory_of path) (normalize raw)))

  unfoldable pub check_document : Text → Reported Problem
  unfolding read find_all link check_link for_each
  check_document path = do
    text ← text_of (read tree path)
    for_each (find_all link text) (check_link path)

  unfoldable pub validate_links : Reported Problem
  unfolding markdown_files check_document for_each
  validate_links = for_each (markdown_files tree) check_document

  -- what a link of the index adds to `listed`
  abbrev pub cons_some : Option (List Text) → List Text → List Text
  cons_some none paths = paths
  cons_some (some inside) paths = posix inside ∷ paths

  abbrev pub listed_target : List Text → List Text → List Text
  listed_target resolved paths =
      if suffix (name_of resolved) =? codes ".md"
      then cons_some (relative_to (root ++ codes "docs" ∷ []) resolved) paths
      else paths

  unfoldable pub listed_in : List Text → List Text
  unfolding normalize starts_with resolve relative_to suffix
  listed_in [] = []
  listed_in (raw ∷ raws) =
      let rest = listed_in raws in
      if is_empty (normalize raw) || is_external ("http://" ∷ "https://" ∷ []) (normalize raw)
      then rest
      else listed_target (resolve (directory_of index_path) (normalize raw)) rest

  abbrev pub drop_docs : Text → Text
  drop_docs (d ∷ o ∷ c ∷ s ∷ slash ∷ path) = path
  drop_docs path = path

  -- the markdown files below `docs` but for the index, from there on
  abbrev pub below_docs : List Text → List Text
  below_docs [] = []
  below_docs (path ∷ paths) =
      let rest = below_docs paths in
      if starts_with path (codes "docs/") && (is_markdown path && not (path =? index_path))
      then drop_docs path ∷ rest
      else rest

  unfoldable pub check_index : Text → Reported Problem
  unfolding find_all link listed_in sorted for_each
  check_index text =
      let listed = unique (listed_in (find_all link text)) in
      let actual = unique (below_docs (keys tree)) in
      for_each (sorted (minus actual listed)) (λ item. complain (not_indexed item))
      >> for_each (sorted (minus listed actual)) (λ item. complain (stale_index item))

  unfoldable pub validate_documentation_index : Reported Problem
  unfolding read check_index
  validate_documentation_index = do text ← text_of (read tree index_path); check_index text
