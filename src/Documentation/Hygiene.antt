-- ===== src/Documentation/Hygiene.antt =====
-- `validate_text_hygiene` of scripts/check_documentation.py.
pub mod Clean
use mathlib.Core.List.{reverse}
use coupon_service.Base.{
  ℕ, zero, suc, ◌+◌, Bool, true, false, not, ◌&&◌, ◌||◌, Option, none, some, List, [], ◌∷◌, ◌==◌,
  ◌=?◌, if◌then◌else◌, Text, codes, text_eq, contains, is_empty, occurs, starts_with, rstrip,
  splitlines_bytes, lookup, keys,
}
use coupon_service.Contract.Report.{Reported, ◌>>◌, nothing, complain, complain_if, for_each}
use coupon_service.Documentation.Problem.{Problem, crlf, no_final_newline, trailing_whitespace}
use coupon_service.Documentation.Tree.{Tree, parts_of, name_of, sorted_paths}
use coupon_service.Package.Checksums.{Node, file, other}
use coupon_service.Package.Paths.{suffix}

abbrev pub text_suffixes : List Text
text_suffixes =
    codes ".md" ∷ codes ".py" ∷ codes ".sh" ∷ codes ".yml" ∷ codes ".yaml" ∷ codes ".json" ∷ []

abbrev pub suffix_of : Text → Text
suffix_of path = suffix (name_of (parts_of path))

abbrev pub is_blank : ℕ → Bool
is_blank c = c == b' ' || c == b'\t'

-- `data and not data.endswith(b"\n")`
abbrev pub lacks_newline : Text → Bool
lacks_newline [] = false
lacks_newline (c ∷ []) = not (c == b'\n')
lacks_newline (c ∷ d ∷ cs) = lacks_newline (d ∷ cs)

-- `line.rstrip(b" \t") != line`
abbrev pub has_trailing : Text → Bool
has_trailing line = not (rstrip is_blank line =? line)

-- the loop over the numbered lines
unfoldable pub check_lines : Text → ℕ → List Text → Reported Problem
unfolding rstrip complain_if
check_lines path number [] = nothing
check_lines path number (line ∷ lines) =
    complain_if (has_trailing line) (trailing_whitespace path number)
    >> check_lines path (number + 1) lines

-- the body of the loop for a file that is read
unfoldable pub check_bytes : Text → Text → Reported Problem
unfolding occurs suffix check_lines splitlines_bytes complain_if
check_bytes path bytes = do
  complain_if (occurs (codes "\r\n") bytes) (crlf path)
  complain_if (lacks_newline bytes) (no_final_newline path)
  if suffix_of path =? codes ".md" then nothing else check_lines path 1 (splitlines_bytes bytes)

abbrev pub check_node : Text → Option Node → Reported Problem
check_node path (some (file bytes)) =
    if contains (suffix_of path) text_suffixes then check_bytes path bytes else nothing
check_node path (some other) = nothing
check_node path none = nothing

unfoldable pub check_path : Tree → Text → Reported Problem
unfolding suffix check_bytes
check_path tree path = check_node path (lookup path tree)

unfoldable pub validate_text_hygiene : Tree → Reported Problem
unfolding sorted_paths check_path for_each
validate_text_hygiene tree = for_each (sorted_paths (keys tree)) (check_path tree)
