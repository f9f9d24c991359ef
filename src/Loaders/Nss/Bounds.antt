-- ===== src/Loaders/Nss/Bounds.antt =====
-- The bones of a skeleton, whatever file was read: the places that their pointers to children have.
use kgl.Common.{
  ℕ, suc, ◌+◌, ◌<◌, ◌≡◌, refl, sym, ◌∙◌, Bool, true, List, [], ◌∷◌, map, length, length-map, All,
  All-append, ◌==◌, equal, arith, ok, ok_value, bind-eq-ok, Bool-cases, inl, inr,
}
use mathlib.Core.Path.{subst}
use kgl.Loaders.Stream.{pure, fresh, read_unsigned, read_string, read_onto, read_magic}
use kgl.Loaders.Stream.Yields.{Yields, Yields-then, Yields-bind, Yields-pure, read_onto-Yields}
use kgl.Loaders.Nss.{
  magic_number, Bone, NssFileData, matches, all_matches, names_of, link, find_bones, reset,
  read_mat4, read_bone_v1, read_animation_v1, read_v1, read_case, read_versioned, load_stream, load,
}

-- Every child is one of `n` places, and no name of a child is left.
abbrev pub IsPlaced : {F : Type 0} → ℕ → Bone F → Type 0
IsPlaced n b = All (λ i. i < n) b.children × (b.tmp_children ≡ [])

abbrev pub HasChildren : {F : Type 0} → NssFileData F → Type 0
HasChildren d = All (IsPlaced (length d.bones)) d.bones

matches-All :
    (names : List (List ℕ)) (start : ℕ) (child : List ℕ) (n : ℕ)
    → start + length names ≡ n
    → All (λ i. i < n) (matches names start child)
unfolding matches
matches-All [] start child n h = tt
matches-All (name ∷ names) start child n h =
    let later = matches-All names (suc start) child n (omega arith) in
    elim (Bool-cases (equal name child)) [
      | inl same ↦ rw same ((omega arith), later)
      | inr other ↦ rw other later
    ]

all_matches-All :
    (names children : List (List ℕ)) → All (λ i. i < length names) (all_matches names children)
unfolding all_matches
all_matches-All names [] = tt
all_matches-All names (child ∷ children) =
    All-append (λ i. i < length names) (matches names 0 child) _
      (matches-All names 0 child (length names) (omega arith)) (all_matches-All names children)

module _ {F : Type 0} where
  -- A bone as it is read.
  abbrev IsBare : Bone F → Type 0
  IsBare b = b.children ≡ []

  link-IsPlaced :
      (names : List (List ℕ)) (b : Bone F) → IsBare b → IsPlaced (length names) (link names b)
  unfolding link
  link-IsPlaced names b h = (rw h (all_matches-All names b.tmp_children), refl)

  links-IsPlaced :
      (names : List (List ℕ)) (bs : List (Bone F))
      → All IsBare bs
      → All (IsPlaced (length names)) (map (link names) bs)
  links-IsPlaced names [] h = tt
  links-IsPlaced names (b ∷ bs) h = (link-IsPlaced names b h.0, links-IsPlaced names bs h.1)

  find_bones-HasChildren : (d : NssFileData F) → All IsBare d.bones → HasChildren (find_bones d)
  unfolding find_bones
  find_bones-HasChildren d h =
      let names = names_of d.bones in
      subst (λ n. All (IsPlaced n) (map (link names) d.bones))
        (length-map (λ (b : Bone F). b.name) d.bones ∙ sym (length-map (link names) d.bones))
        (links-IsPlaced names d.bones h)

module _ {F : Type 0} (atof : List ℕ → F) where
  read_bone-IsBare : Yields (read_bone_v1 atof) IsBare
  unfolding read_bone_v1
  read_bone-IsBare = Yields-then read_string _ IsBare λ name.
      Yields-then (read_mat4 atof) _ IsBare λ transform.
        Yields-then read_unsigned _ IsBare
          λ n. Yields-then (read_onto n read_string []) _ IsBare λ names. Yields-pure _ IsBare refl

  read_v1-HasChildren : (d : NssFileData F) → Yields (read_v1 atof d) HasChildren
  unfolding read_v1
  read_v1-HasChildren d = Yields-then read_unsigned _ HasChildren λ root.
      Yields-then read_unsigned _ HasChildren λ n. Yields-then read_unsigned _ HasChildren λ k.
        Yields-bind (read_onto n (read_bone_v1 atof) []) _ (All IsBare) HasChildren
          (read_onto-Yields (read_bone_v1 atof) IsBare read_bone-IsBare n [] tt)
          λ bones bare.
            Yields-then (read_onto k (read_animation_v1 atof) []) _ HasChildren
              λ animations. Yields-pure _ HasChildren (find_bones-HasChildren _ bare)

  read_case-HasChildren :
      (version : ℕ) (d : NssFileData F)
      → HasChildren d
      → Yields (read_case atof version d) HasChildren
  unfolding read_case
  read_case-HasChildren version d h = elim (Bool-cases (version == 1)) [
    | inl same ↦ rw same (read_v1-HasChildren d)
    | inr other ↦ rw other (Yields-pure d HasChildren h)
  ]

  load_stream-HasChildren :
      (d : NssFileData F) → Yields (load_stream atof (reset d)) (λ r. HasChildren r.1)
  unfolding load_stream read_versioned reset
  load_stream-HasChildren d = Yields-then read_magic _ _ λ magic.
      elim (Bool-cases (magic == magic_number)) [
        | inl same ↦ rw same (
            Yields-then read_unsigned _ _ λ version.
              Yields-bind (read_case atof version _) (λ e. pure (true, e)) HasChildren _
                (read_case-HasChildren version _ tt)
                λ e c. Yields-pure (true, e) (λ r. HasChildren r.1) c)
        | inr other ↦ rw other (Yields-pure _ (λ r. HasChildren r.1) tt)
      ]

  -- However a load ends that returns, every child of a bone is a place among the bones of the
  -- object, and no bone has a name of a child left.
  pub load-HasChildren :
      (bytes : List ℕ) (d : NssFileData F) {b : Bool} {d' : NssFileData F}
      → load atof bytes d ≡ ok (b, d')
      → HasChildren d'
  unfolding load
  load-HasChildren bytes d e =
      let (p, streamed, same) =
        bind-eq-ok (load_stream atof (reset d) (fresh bytes)) (λ (r, s). ok r) e in
      subst (λ r. HasChildren r.1) (ok_value same)
        (load_stream-HasChildren d (fresh bytes) p.1 p.0 streamed)
