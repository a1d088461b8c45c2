-- ===== src/Coverage/Xml.antt =====
-- `xml.etree.ElementTree` as the checkers use it: elements with attributes, text and children, and the
-- searches `find`, `findall` and `.//tag`.
use coupon_service.Base.{
  Option, none, some, List, [], ◌∷◌, ◌++◌, ◌=?◌, if◌then◌else◌, Text, text_eq, is_space, strip,
  Dict, lookup, insert,
}

mutual
  pub data Element : Type 0 where
    -- tag, attributes, text before the first child, children
    element : Text → Dict Text Text → Option Text → Elements → Element

  pub data Elements : Type 0 where
    nil : Elements
    cons : Element → Elements → Elements

abbrev pub tag : Element → Text
tag (element t attrs s kids) = t

abbrev pub attributes : Element → Dict Text Text
attributes (element t attrs s kids) = attrs

abbrev pub text : Element → Option Text
text (element t attrs s kids) = s

abbrev pub children : Element → Elements
children (element t attrs s kids) = kids

-- `element.get(name)`
abbrev pub get : Text → Element → Option Text
get name e = lookup name (attributes e)

-- `element.get(name, "")`
abbrev pub or_empty : Option Text → Text
or_empty none = []
or_empty (some t) = t

-- `element.set(name, value)`
unfoldable pub set : Text → Text → Element → Element
set name value (element t attrs s kids) = element t (insert name value attrs) s kids

-- the children with a tag
unfoldable pub with_tag : Text → Elements → List Element
with_tag t nil = []
with_tag t (cons e es) = let rest = with_tag t es in if tag e =? t then e ∷ rest else rest

unfoldable pub flat_find : (Element → List Element) → List Element → List Element
flat_find f [] = []
flat_find f (e ∷ es) = f e ++ flat_find f es

-- `element.findall("a/b/c")`
unfoldable pub findall : List Text → Element → List Element
unfolding with_tag flat_find
findall [] e = e ∷ []
findall (t ∷ path) e = flat_find (findall path) (with_tag t (children e))

abbrev pub first {ℓ} : {A : Type ℓ} → List A → Option A
first [] = none
first (x ∷ xs) = some x

-- `element.find("a/b/c")`
unfoldable pub find : List Text → Element → Option Element
unfolding findall
find path e = first (findall path e)

-- `element.findall(".//tag")`: all descendants with the tag
unfoldable mutual
  pub descendants : Text → Element → List Element
  descendants t (element _ _ _ kids) = descendants_among t kids

  pub descendants_among : Text → Elements → List Element
  descendants_among t nil = []
  descendants_among t (cons e es) =
      (if tag e =? t then e ∷ [] else []) ++ (descendants t e ++ descendants_among t es)

-- `node.text.strip() if node is not None and node.text else None`
abbrev pub stripped : Option Text → Option Text
stripped none = none
stripped (some []) = none
stripped (some (c ∷ cs)) = some (strip is_space (c ∷ cs))

abbrev pub node_text : Option Element → Option Text
node_text none = none
node_text (some e) = stripped (text e)
