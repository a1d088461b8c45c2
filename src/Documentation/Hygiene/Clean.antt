-- ===== src/Documentation/Hygiene/Clean.antt =====
-- When `validate_text_hygiene` finds no error.
use coupon_service.Base.{
  ℕ, ◌+◌, ◌≡◌, refl, ◌⊎◌, true, false, ◌=?◌, Option, none, some, List, [], ◌∷◌, Text, text_eq,
  codes, contains, occurs, lookup, keys, splitlines_bytes, All, rstrip,
}
use coupon_service.Contract.Laws.{Checks, seq, each, unless, otherwise, only_if}
use coupon_service.Contract.Report.{complain_if, Clean-complain_if}
use coupon_service.Documentation.Hygiene.{
  text_suffixes, suffix_of, is_blank, lacks_newline, has_trailing, check_lines, check_bytes,
  check_node, check_path, validate_text_hygiene,
}
use coupon_service.Documentation.Problem.{Problem, crlf, no_final_newline, trailing_whitespace}
use coupon_service.Documentation.Tree.{Tree, sorted_paths}
use coupon_service.Documentation.Tree.Sorted.{All-sorted_paths}
use coupon_service.Package.Checksums.{Node, file, other}

-- no blank at the end of a line
abbrev pub IsTrimmed : Text → Type 0
IsTrimmed line = rstrip is_blank line ≡ line

abbrev pub IsTidy : Text → Text → Type 0
IsTidy path bytes =
    (occurs (codes "\r\n") bytes ≡ false)
    × ((lacks_newline bytes ≡ false)
        × (((suffix_of path =? codes ".md") ≡ true) ⊎ All IsTrimmed (splitlines_bytes bytes)))

-- A file with one of the suffixes is tidy.
abbrev pub IsTidyNode : Text → Option Node → Type 0
IsTidyNode path (some (file bytes)) =
    contains (suffix_of path) text_suffixes ≡ true → IsTidy path bytes
IsTidyNode path (some other) = Unit
IsTidyNode path none = Unit

trailing-Checks :
    (line : Text) (p : Problem) → Checks (complain_if (has_trailing line) p) (IsTrimmed line)
trailing-Checks line p =
    let test = unless (rstrip is_blank line =? line) p in
    let same = text_eq.beq_iff (rstrip is_blank line) line in
    (λ h. same.0 (test.0 h), λ h. test.1 (same.1 h))

check_lines-Checks :
    (path : Text) (number : ℕ) (lines : List Text)
    → Checks (check_lines path number lines) (All IsTrimmed lines)
unfolding check_lines
check_lines-Checks path number [] = (λ _. tt, λ _. refl)
check_lines-Checks path number (line ∷ lines) =
    seq _ _ (trailing-Checks line (trailing_whitespace path number))
      (check_lines-Checks path (number + 1) lines)

check_bytes-Checks : (path bytes : Text) → Checks (check_bytes path bytes) (IsTidy path bytes)
unfolding check_bytes
check_bytes-Checks path bytes =
    seq _ _ (Clean-complain_if (occurs (codes "\r\n") bytes) (crlf path)) (
      seq _ _ (Clean-complain_if (lacks_newline bytes) (no_final_newline path)) (
        otherwise (suffix_of path =? codes ".md") _
          (check_lines-Checks path 1 (splitlines_bytes bytes))))

check_node-Checks :
    (path : Text) (node : Option Node) → Checks (check_node path node) (IsTidyNode path node)
check_node-Checks path (some (file bytes)) =
    only_if (contains (suffix_of path) text_suffixes) _ (check_bytes-Checks path bytes)
check_node-Checks path (some other) = (λ _. tt, λ _. refl)
check_node-Checks path none = (λ _. tt, λ _. refl)

-- No error is found exactly when every file with one of the suffixes has no carriage return before a
-- line feed, ends with a line feed where it is not empty, and, where it is no Markdown file, has no
-- blank at the end of a line.
pub validate_text_hygiene-Checks :
    (tree : Tree)
    → Checks
        (validate_text_hygiene tree)
        (All (λ path. IsTidyNode path (lookup path tree)) (keys tree))
unfolding validate_text_hygiene check_path
validate_text_hygiene-Checks tree =
    let loop =
      each (λ path. IsTidyNode path (lookup path tree)) (sorted_paths (keys tree)) (check_path tree)
        (λ path. check_node-Checks path (lookup path tree)) in
    let all = All-sorted_paths (λ path. IsTidyNode path (lookup path tree)) (keys tree) in
    (λ h. all.0 (loop.0 h), λ a. loop.1 (all.1 a))
