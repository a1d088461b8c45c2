-- ===== src/Documentation/Table/RoundTrip.antt =====
-- A table that is written with its cells between bars is read back by `parse_markdown_table`.
use mathlib.Core.List.{append_assoc}
use mathlib.Core.Path.{ap₂}
use coupon_service.Base.{
  ℕ, suc, ◌≡◌, refl, sym, ap, ◌∙◌, Bool, true, false, not, ◌==◌, ==_iff, List, [], ◌∷◌, ◌++◌, arith,
  map, Text, codes, length, lacks, any_of, any_of-append, all_of-append, split_on, split_on-append,
  split_on_whole, splitlines, lines_from, lines_from-line, is_line_break, starts_with, strip,
  lstrip, rstrip, cons_unless, is_space, All,
}
use coupon_service.Documentation.Table.{table, cells, rows, find_table, parse_table}

abbrev pub unlines : List Text → Text
unlines [] = []
unlines (line ∷ lines) = line ++ b'\n' ∷ unlines lines

-- the cells after the first bar, and those up to the last one
abbrev pub closed : List Text → Text
closed [] = []
closed (c ∷ cs) = b' ' ∷ (c ++ b' ' ∷ b'|' ∷ closed cs)

abbrev pub row_text : List Text → Text
row_text cs = b'|' ∷ closed cs

abbrev open_rest : Text → List Text → Text
open_rest c [] = c ++ b' ' ∷ []
open_rest c (d ∷ cs) = c ++ b' ' ∷ b'|' ∷ b' ' ∷ open_rest d cs

abbrev open_row : Text → List Text → Text
open_row c cs = b' ' ∷ open_rest c cs

abbrev pub starts_dense : Text → Bool
starts_dense [] = true
starts_dense (x ∷ xs) = not (is_space x)

-- A cell has no bar, no line break and no space at its ends.
abbrev pub IsCell : Text → Type 0
IsCell c =
    (lacks b'|' c ≡ true)
    × ((any_of is_line_break c ≡ false) × ((starts_dense c ≡ true) × (rstrip is_space c ≡ c)))

abbrev is_bar : ℕ → Bool
is_bar c = c == b'|'

cons_unless-cons : (b : Bool) (y x : ℕ) (u : Text) → cons_unless b y (x ∷ u) ≡ y ∷ x ∷ u
cons_unless-cons true y x u = refl
cons_unless-cons false y x u = refl

rstrip-append :
    (p : ℕ → Bool) (s t u : Text) (x : ℕ) → rstrip p t ≡ x ∷ u → rstrip p (s ++ t) ≡ s ++ x ∷ u
unfolding rstrip
rstrip-append p [] t u x h = h
rstrip-append p (y ∷ []) t u x h = rw h (cons_unless-cons (p y) y x u)
rstrip-append p (y ∷ z ∷ s) t u x h =
    rw (rstrip-append p (z ∷ s) t u x h) (cons_unless-cons (p y) y z (s ++ x ∷ u))

-- the last bar is stripped, and nothing before it
rstrip-closed : (c : Text) (cs : List Text) → rstrip is_bar (closed (c ∷ cs)) ≡ open_row c cs
unfolding rstrip
rstrip-closed c [] = rstrip-append is_bar (b' ' ∷ c) (b' ' ∷ b'|' ∷ []) [] b' ' refl
rstrip-closed c (d ∷ cs) =
    rstrip-append is_bar (b' ' ∷ c) (b' ' ∷ b'|' ∷ closed (d ∷ cs)) (b'|' ∷ open_row d cs) b' '
      (ap (λ t. cons_unless false b' ' (cons_unless true b'|' t)) (rstrip-closed d cs))

rstrip-space : (c : Text) → rstrip is_space (c ++ b' ' ∷ []) ≡ rstrip is_space c
unfolding rstrip
rstrip-space [] = refl
rstrip-space (x ∷ xs) = rw (rstrip-space xs) refl

strip-cell : (c : Text) → IsCell c → strip is_space (b' ' ∷ (c ++ b' ' ∷ [])) ≡ c
unfolding strip lstrip rstrip
strip-cell [] _ = refl
strip-cell (x ∷ xs) (_, (_, (dense, trimmed))) =
    rw (flipped (is_space x) dense) (rstrip-space (x ∷ xs) ∙ trimmed)
  where
    flipped : (b : Bool) → not b ≡ true → b ≡ false
    flipped b h = ground arith

splitlines-unlines :
    (ls : List Text) → All (λ l. any_of is_line_break l ≡ false) ls → splitlines (unlines ls) ≡ ls
unfolding splitlines lines_from
splitlines-unlines [] a = refl
splitlines-unlines (l ∷ ls) (h, a) =
    lines_from-line is_line_break [] l (unlines ls) refl h
    ∙ ap (λ (r : List Text). l ∷ r) (splitlines-unlines ls a)

lacks-padded : (c : Text) → lacks b'|' c ≡ true → lacks b'|' (b' ' ∷ (c ++ b' ' ∷ [])) ≡ true
lacks-padded c h = ground (arith, all_of-append (λ x. not (x == b'|')) c (b' ' ∷ []))

cells-closed :
    (c : Text) (cs : List Text)
    → IsCell c
    → All IsCell cs
    → map (strip is_space) (split_on b'|' (open_row c cs)) ≡ c ∷ cs
cells-closed c [] is a =
    ap (map (strip is_space)) (split_on_whole b'|' (b' ' ∷ (c ++ b' ' ∷ [])) (lacks-padded c is.0))
    ∙ ap (λ (x : Text). x ∷ []) (strip-cell c is)
cells-closed c (d ∷ cs) is (next, a) =
    ap (λ t. map (strip is_space) (split_on b'|' (b' ' ∷ t)))
      (sym (append_assoc c (b' ' ∷ []) (b'|' ∷ open_row d cs)))
    ∙ (ap (map (strip is_space))
          (split_on-append b'|' (b' ' ∷ (c ++ b' ' ∷ [])) (open_row d cs) (lacks-padded c is.0))
        ∙ ap₂ (λ (x : Text) (l : List Text). x ∷ l) (strip-cell c is) (cells-closed d cs next a))

cells-row_text :
    (c : Text) (cs : List Text) → IsCell c → All IsCell cs → cells (row_text (c ∷ cs)) ≡ c ∷ cs
unfolding cells strip lstrip
cells-row_text c cs is a =
    ap (λ t. map (strip is_space) (split_on b'|' t)) (rstrip-closed c cs) ∙ cells-closed c cs is a

-- A row has the width of the table, and cells.
abbrev pub IsRow : ℕ → List Text → Type 0
IsRow width [] = ⊥
IsRow width (c ∷ cs) = (length (c ∷ cs) ≡ width) × (IsCell c × All IsCell cs)

closed-one_line : (cs : List Text) → All IsCell cs → any_of is_line_break (closed cs) ≡ false
closed-one_line [] a = refl
closed-one_line (c ∷ cs) ((_, (one_line, _)), a) =
    any_of-append is_line_break c (b' ' ∷ b'|' ∷ closed cs)
    ∙ rw (one_line, closed-one_line cs a) refl

rows-one_line :
    (width : ℕ) (rs : List (List Text))
    → All (IsRow width) rs
    → All (λ l. any_of is_line_break l ≡ false) (map row_text rs)
rows-one_line width [] a = tt
rows-one_line width ([] ∷ rs) (no_way, a) = absurd no_way
rows-one_line width ((c ∷ cs) ∷ rs) ((_, cells_are), a) =
    (closed-one_line (c ∷ cs) cells_are, rows-one_line width rs a)

rows-row_text :
    (width : ℕ) (rs : List (List Text)) → All (IsRow width) rs → rows width (map row_text rs) ≡ rs
unfolding rows starts_with
rows-row_text width [] a = refl
rows-row_text width ([] ∷ rs) (no_way, a) = absurd no_way
rows-row_text width ((c ∷ cs) ∷ rs) ((wide, (is, others)), a) =
    rw (cells-row_text c cs is others, (==_iff (length (c ∷ cs)) width).1 wide)
      (ap (λ (r : List (List Text)). (c ∷ cs) ∷ r) (rows-row_text width rs a))

-- The lines of a table: the headers, a line that is not read, and the rows.
abbrev pub table_text : List Text → Text → List (List Text) → Text
table_text headers rule rs = unlines (row_text headers ∷ rule ∷ map row_text rs)

-- A table whose first column is `ID` is read back with its headers and its rows, where no cell has a bar,
-- a line break or a space at its ends, and every row is as wide as the headers.
pub parse_table-table_text :
    (headers : List Text) (rule : Text) (rs : List (List Text))
    → All IsCell headers
    → any_of is_line_break rule ≡ false
    → All (IsRow (suc (length headers))) rs
    → parse_table (table_text (codes "ID" ∷ headers) rule rs) ≡ table (codes "ID" ∷ headers) rs
unfolding parse_table find_table starts_with rstrip
parse_table-table_text headers rule rs are one_line wide =
    rw
      (splitlines-unlines (row_text (codes "ID" ∷ headers) ∷ rule ∷ map row_text rs) (
        closed-one_line (codes "ID" ∷ headers) (id_cell, are),
        (one_line, rows-one_line (suc (length headers)) rs wide),
      ))
      (rw (cells-row_text (codes "ID") headers id_cell are)
        (ap (table (codes "ID" ∷ headers)) (rows-row_text (suc (length headers)) rs wide)))
  where
    id_cell : IsCell (codes "ID")
    id_cell = (refl, (refl, (refl, refl)))
