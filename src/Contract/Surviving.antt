-- ===== src/Contract/Surviving.antt =====
-- When the steps of a checker end without an exception.
use coupon_service.Base.{
  ◌≡◌, refl, ◌∙◌, Bool, true, false, ◌&&◌, if◌then◌else◌, Option, none, some, List, [], ◌∷◌, Text,
  text_eq, all_of,
}
use coupon_service.Contract.Report.{Reported, reported, crashed, ◌>>◌, ◌>>=◌, complain_if, for_each}

abbrev pub survives : {M : Type 0} → Reported M → Bool
survives crashed = false
survives (reported es) = true

pub survives->> : {M : Type 0} (r s : Reported M) → survives (r >> s) ≡ (survives r && survives s)
survives->> crashed s = refl
survives->> (reported es) crashed = refl
survives->> (reported es) (reported fs) = refl

pub survives-complain_if : {M : Type 0} (b : Bool) (m : M) → survives (complain_if b m) ≡ true
unfolding complain_if
survives-complain_if true m = refl
survives-complain_if false m = refl

pub survives_messages :
    {M : Type 0} (ps : List M) (r : Reported M) → survives (reported ps >> r) ≡ survives r
survives_messages ps r = survives->> (reported ps) r

pub survives_complaint :
    {M : Type 0} (ps : List M) (b : Bool) (m : M) (r : Reported M)
    → survives (reported ps >> (complain_if b m >> r)) ≡ survives r
survives_complaint ps b m r =
    survives_messages ps (complain_if b m >> r)
    ∙ (survives->> (complain_if b m) r ∙ rw (survives-complain_if b m))

pub survives_both :
    {M : Type 0} (r s : Reported M)
    → survives r ≡ true
    → survives s ≡ true
    → survives (r >> s) ≡ true
survives_both r s f g = rw (survives->> r s, f, g) refl

pub survives_and :
    {M : Type 0} (r s : Reported M) {a b : Bool}
    → survives r ≡ a
    → survives s ≡ b
    → survives (r >> s) ≡ (a && b)
survives_and r s f g = rw (survives->> r s, f, g) refl

pub survives_if :
    {M : Type 0} (b : Bool) (r s : Reported M)
    → survives r ≡ true
    → survives s ≡ true
    → survives (if b then r else s) ≡ true
survives_if true r s f g = f
survives_if false r s f g = g

pub survives-for_each {ℓ} :
    {A : Type ℓ} {M : Type 0} (p : A → Bool) (xs : List A) (body : A → Reported M)
    → ((x : A) → survives (body x) ≡ p x)
    → survives (for_each xs body) ≡ all_of p xs
unfolding for_each
survives-for_each p [] body f = refl
survives-for_each p (x ∷ xs) body f =
    rw (survives->> (body x) (for_each xs body), f x, survives-for_each p xs body f)

all_true {ℓ} : {A : Type ℓ} (xs : List A) → all_of (λ _. true) xs ≡ true
all_true [] = refl
all_true (x ∷ xs) = all_true xs

pub survives_each {ℓ} :
    {A : Type ℓ} {M : Type 0} (xs : List A) (body : A → Reported M)
    → ((x : A) → survives (body x) ≡ true)
    → survives (for_each xs body) ≡ true
survives_each xs body f = survives-for_each (λ _. true) xs body f ∙ all_true xs

abbrev pub is_some : Option Text → Bool
is_some none = false
is_some (some text) = true

pub survives_reading :
    {M : Type 0} (o : Option Text) (k : Text → Reported M)
    → ((text : Text) → survives (k text) ≡ true)
    → survives (o >>= k) ≡ is_some o
survives_reading none k f = refl
survives_reading (some text) k f = f text
