-- ===== src/Contract/Repo.antt =====
-- The repository as the checkers see it: paths with what stands there, and the helpers `read`,
-- `require_tokens` and `rglob`.
use mathlib.Core.List.{reverse}
use coupon_service.Base.{
  ◌≡◌, Bool, true, false, not, Option, none, some, List, [], ◌∷◌, ◌++◌, String, ◌<>◌, ◌=?◌,
  if◌then◌else◌, string_eq, Text, codes, text_eq, text_beq, occurs, split_on, starts_with, Dict,
  keys, lookup, All, any_of,
}
use coupon_service.Base.Sort.{parts_le}
use coupon_service.Contract.Report.{Report, ◌>>=◌, complain_if, for_each}

abbrev last_of {ℓ} : {A : Type ℓ} → A → List A → A
last_of d [] = d
last_of d (x ∷ xs) = last_of x xs

-- What stands at a path. Reading a directory, or bytes that are not UTF-8, raises.
pub data Item : Type 0 where
  text : String → Item
  undecodable : Item
  directory : Item

-- paths relative to `ROOT`
abbrev pub Repo : Type 0
Repo = Dict String Item

abbrev is_file_item : Option Item → Bool
is_file_item (some (text _)) = true
is_file_item (some undecodable) = true
is_file_item (some directory) = false
is_file_item none = false

abbrev text_of : Option Item → Option String
text_of (some (text s)) = some s
text_of (some undecodable) = none
text_of (some directory) = none
text_of none = none

-- `path.is_file()`
unfoldable pub is_file : Repo → String → Bool
is_file repo path = is_file_item (lookup path repo)

-- `path.read_text(encoding="utf-8")`; `none` is an exception
unfoldable pub read : Repo → String → Option String
read repo path = text_of (lookup path repo)

-- `token in text`
unfoldable pub in_text : String → String → Bool
unfolding occurs
in_text token content = occurs (codes token) (codes content)

-- `for token in tokens: if token not in text: errors.append(message(token))`
unfoldable pub missing_tokens : (String → String) → List String → String → Report
unfolding for_each complain_if
missing_tokens message tokens content =
    for_each tokens (λ token. complain_if (not (in_text token content)) (message token))

-- `for token in tokens: if token in text: errors.append(message(token))`
unfoldable pub present_tokens : (String → String) → List String → String → Report
unfolding for_each complain_if
present_tokens message tokens content =
    for_each tokens (λ token. complain_if (in_text token content) (message token))

-- `require_tokens(path, tokens, errors)` of check_emp003.py and check_emp007.py
unfoldable pub require_tokens : Repo → String → List String → Report
unfolding missing_tokens
require_tokens repo path tokens = do
  content ← read repo path
  missing_tokens (λ token. path <> " missing token: " <> token) tokens content

-- `for path in REQUIRED_FILES: if not path.is_file(): errors.append(...)`
unfoldable pub missing_files : (String → String) → Repo → List String → Report
unfolding for_each complain_if
missing_files message repo paths =
    for_each paths (λ path. complain_if (not (is_file repo path)) (message path))

-- `glob` on the last component of a path: a fixed name, or `*` and a suffix; and the directory in
-- which the path has to lie.
unfoldable pub last_component : Text → Text
last_component path = last_of [] (split_on b'/' path)

unfoldable pub ends_with : Text → Text → Bool
unfolding starts_with
ends_with s t = starts_with (reverse s) (reverse t)

unfoldable pub is_named : String → String → Bool
unfolding last_component text_beq
is_named name path = last_component (codes path) =? codes name

unfoldable pub has_suffix : String → String → Bool
unfolding ends_with last_component
has_suffix suffix path = ends_with (last_component (codes path)) (codes suffix)

unfoldable pub is_under : String → String → Bool
unfolding starts_with
is_under dir path = starts_with (codes path) (codes dir ++ codes "/")

-- `list(ROOT.rglob("CODEX_PROMPT.md"))` is not empty
unfoldable pub has_prompt_file : Repo → Bool
unfolding is_named
has_prompt_file repo = any_of (is_named "CODEX_PROMPT.md") (keys repo)

-- `glob` in one directory: the path is the directory, a slash and the last component.
unfoldable pub is_child : String → String → Bool
unfolding last_component text_beq
is_child dir path = codes path =? codes dir ++ (codes "/" ++ last_component (codes path))

parts_of : String → List Text
unfolding split_on
parts_of path = split_on b'/' (codes path)

insert_path : String → List String → List String
unfolding parts_le parts_of
insert_path x [] = x ∷ []
insert_path x (y ∷ ys) =
    let rest = insert_path x ys in
    if parts_le (parts_of x) (parts_of y) then x ∷ y ∷ ys else y ∷ rest

-- `sorted` of paths: part by part
unfoldable pub sorted_paths : List String → List String
unfolding insert_path
sorted_paths [] = []
sorted_paths (x ∷ xs) = insert_path x (sorted_paths xs)

-- `re.search("^START", text, re.MULTILINE)` for a literal `START`: a line begins with it
unfoldable pub has_line : String → String → Bool
unfolding split_on starts_with
has_line start content =
    any_of (λ line. starts_with line (codes start)) (split_on b'\n' (codes content))

-- `separator.join(parts)`
unfoldable pub join_strings : String → List String → String
join_strings sep [] = ""
join_strings sep (x ∷ []) = x
join_strings sep (x ∷ y ∷ ys) = x <> sep <> join_strings sep (y ∷ ys)

-- every token stands in the text; no token stands in it
abbrev pub HasAll : String → List String → Type 0
HasAll content = All (λ token. in_text token content ≡ true)

abbrev pub HasNone : String → List String → Type 0
HasNone content = All (λ token. in_text token content ≡ false)

-- `path` is a readable text of which `P` holds
abbrev pub Reads : Repo → String → (String → Type 0) → Type 0
Reads repo path P = (content : String) × (read repo path ≡ some content) × P content
