-- ===== src/Loaders/Nss/Link.antt =====
-- What `findBones` makes of the names of children: how often each bone is then a child.
use kgl.Common.{
  ℕ, zero, suc, ◌+◌, ◌<◌, ◌≡◌, refl, sym, ◌∙◌, List, [], ◌∷◌, ◌++◌, Option, none, some, map,
  get_elem?, from_option, if◌then◌else◌, ◌==◌, equal, arith,
}
use kgl.Loaders.Nss.{Bone, NssFileData, matches, all_matches, names_of, link, find_bones}

-- How often a place is in a list of places, and a name in a list of names.
abbrev pub occurrences : ℕ → List ℕ → ℕ
occurrences i [] = 0
occurrences i (j ∷ js) = if j == i then suc (occurrences i js) else occurrences i js

abbrev pub times : List ℕ → List (List ℕ) → ℕ
times name [] = 0
times name (child ∷ children) =
    if equal name child then suc (times name children) else times name children

occurrences-append :
    (i : ℕ) (js ks : List ℕ) → occurrences i (js ++ ks) ≡ occurrences i js + occurrences i ks
occurrences-append i [] ks = ground arith
occurrences-append i (j ∷ js) ks = ground (arith, occurrences-append i js ks)

matches_below :
    (names : List (List ℕ)) (start : ℕ) (child : List ℕ) (k : ℕ)
    → k < start
    → occurrences k (matches names start child) ≡ 0
unfolding matches
matches_below [] start child k h = refl
matches_below (name ∷ names) start child k h =
    ground (arith, matches_below names (suc start) child k)

occurrences-matches :
    (names : List (List ℕ)) (start : ℕ) (child : List ℕ) (k : ℕ)
    → occurrences (start + k) (matches names start child)
      ≡ from_option (λ (name : List ℕ). if equal name child then 1 else 0) 0 (get_elem? names k)
unfolding matches
occurrences-matches [] start child k = refl
occurrences-matches (name ∷ names) start child zero =
    ground (arith, matches_below names (suc start) child start)
occurrences-matches (name ∷ names) start child (suc k) =
    ground (arith, occurrences-matches names (suc start) child k)

from_option_zero : {A : Type 0} (o : Option A) → from_option {B = ℕ} (λ (a : A). 0) 0 o ≡ 0
from_option_zero none = refl
from_option_zero (some a) = refl

occurrences-all_matches :
    (names children : List (List ℕ)) (i : ℕ)
    → occurrences i (all_matches names children)
      ≡ from_option (λ (name : List ℕ). times name children) 0 (get_elem? names i)
unfolding all_matches
occurrences-all_matches names [] i = sym (from_option_zero (get_elem? names i))
occurrences-all_matches names (child ∷ children) i =
    occurrences-append i (matches names 0 child) (all_matches names children)
    ∙ ground (arith, occurrences-matches names 0 child i, occurrences-all_matches names children i)

get_elem?-map :
    {A B : Type 0} (f : A → B) (xs : List A) (i : ℕ)
    → get_elem? (map f xs) i ≡ from_option (λ (a : A). some (f a)) none (get_elem? xs i)
get_elem?-map f [] i = refl
get_elem?-map f (x ∷ xs) zero = refl
get_elem?-map f (x ∷ xs) (suc i) = get_elem?-map f xs i

-- A bone before and after its names of children are looked up among the bones.
pub record IsLinked {F : Type 0} (bones : List (Bone F)) (b b' : Bone F) : Type 0 where
  pub same_name : b'.name ≡ b.name
  pub none_left : b'.tmp_children ≡ []
  pub occurs :
      (i : ℕ)
      → occurrences i b'.children
        ≡ occurrences i b.children
          + from_option (λ (c : Bone F). times c.name b.tmp_children) 0 (get_elem? bones i)

module _ {F : Type 0} where
  times_of_names :
      (bones : List (Bone F)) (children : List (List ℕ)) (i : ℕ)
      → from_option (λ (name : List ℕ). times name children) 0 (get_elem? (names_of bones) i)
        ≡ from_option (λ (c : Bone F). times c.name children) 0 (get_elem? bones i)
  times_of_names [] children i = refl
  times_of_names (b ∷ bones) children zero = refl
  times_of_names (b ∷ bones) children (suc i) = times_of_names bones children i

  link-IsLinked : (bones : List (Bone F)) (b : Bone F) → IsLinked bones b (link (names_of bones) b)
  unfolding link
  link-IsLinked bones b = record {
    same_name = refl;
    none_left = refl;
    occurs = λ i.
        occurrences-append i b.children (all_matches (names_of bones) b.tmp_children)
        ∙ rw (
          occurrences-all_matches (names_of bones) b.tmp_children i,
          times_of_names bones b.tmp_children i,
        );
  }

  -- `findBones` keeps every bone at its place, with its name. A bone is added to the children of
  -- another as often as that one has noted its name for a child; a place that has no bone is never
  -- added, and no noted name is left.
  pub find_bones-IsLinked :
      (d : NssFileData F) (j : ℕ) (b : Bone F)
      → get_elem? d.bones j ≡ some b
      → (b' : Bone F) × (get_elem? (find_bones d).bones j ≡ some b') × IsLinked d.bones b b'
  unfolding find_bones
  find_bones-IsLinked d j b h = (
    link (names_of d.bones) b,
    get_elem?-map (link (names_of d.bones)) d.bones j ∙ rw h,
    link-IsLinked d.bones b,
  )
