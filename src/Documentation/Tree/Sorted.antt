-- ===== src/Documentation/Tree/Sorted.antt =====
-- Sorting paths keeps them all.
use coupon_service.Base.{◌↔◌, Bool, true, false, List, [], ◌∷◌, Text, All, if◌then◌else◌}
use coupon_service.Documentation.Tree.{insert_path, sorted_paths, parts_of}
use coupon_service.Base.Sort.{parts_le}

module _ {ℓ} (P : Text → Type ℓ) where
  either-All :
      (b : Bool) (x y : Text) (ys rest : List Text)
      → (All P rest ↔ (P x × All P ys))
      → All P (if b then x ∷ y ∷ ys else y ∷ rest) ↔ (P x × (P y × All P ys))
  either-All true x y ys rest f = (λ a. a, λ a. a)
  either-All false x y ys rest f =
      (λ (py, a). let (px, b) = f.0 a in (px, (py, b)), λ (px, (py, b)). (py, f.1 (px, b)))

  All-insert_path : (x : Text) (ys : List Text) → All P (insert_path x ys) ↔ (P x × All P ys)
  unfolding insert_path
  All-insert_path x [] = (λ a. a, λ a. a)
  All-insert_path x (y ∷ ys) =
      either-All (parts_le (parts_of x) (parts_of y)) x y ys (insert_path x ys)
        (All-insert_path x ys)

  pub All-sorted_paths : (xs : List Text) → All P (sorted_paths xs) ↔ All P xs
  unfolding sorted_paths
  All-sorted_paths [] = (λ a. a, λ a. a)
  All-sorted_paths (x ∷ xs) =
      let first = All-insert_path x (sorted_paths xs) in
      let rest = All-sorted_paths xs in
      (λ a. let (p, b) = first.0 a in (p, rest.0 b), λ (p, b). first.1 (p, rest.1 b))
