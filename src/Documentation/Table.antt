-- ===== src/Documentation/Table.antt =====
-- `parse_markdown_table` of scripts/check_documentation.py.
pub mod RoundTrip
use coupon_service.Base.{
  ℕ, Bool, not, List, [], ◌∷◌, ◌==◌, map, if◌then◌else◌, Text, codes, length, split_on, splitlines,
  starts_with, strip, is_space,
}
use coupon_service.Documentation.Problem.{Problem, table_incomplete, table_missing}

-- `[cell.strip() for cell in line.strip("|").split("|")]`
unfoldable pub cells : Text → List Text
unfolding split_on strip
cells line = map (strip is_space) (split_on b'|' (strip (λ c. c == b'|') line))

abbrev pub is_row : Text → Bool
is_row line = starts_with line (codes "|")

-- the rows up to the first line that is none; a row of another width is left out
unfoldable pub rows : ℕ → List Text → List (List Text)
unfolding cells starts_with
rows width [] = []
rows width (line ∷ lines) =
    let rest = rows width lines in
    if not (is_row line)
    then []
    else if length (cells line) == width
    then cells line ∷ rest
    else rest

-- a table, or the `ValidationError`
pub data Table : Type 0 where
  table : List Text → List (List Text) → Table
  invalid : Problem → Table

-- the line after the headers is not read
abbrev pub table_at : Text → List Text → Table
table_at line [] = invalid table_incomplete
table_at line (separator ∷ lines) = table (cells line) (rows (length (cells line)) lines)

unfoldable pub find_table : List Text → Table
unfolding rows
find_table [] = invalid table_missing
find_table (line ∷ lines) =
    let later = find_table lines in
    if starts_with line (codes "| ID |") then table_at line lines else later

unfoldable pub parse_table : Text → Table
unfolding find_table splitlines
parse_table text = find_table (splitlines text)
