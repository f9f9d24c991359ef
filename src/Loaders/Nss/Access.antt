-- ===== src/Loaders/Nss/Access.antt =====
-- The queries of `NssFile`, `Bone`, `Animation` and `AnimationNode`. Every static dummy is made of
-- empty strings and vectors and of the float `zero_float`.
use kgl.Common.{
  ℕ, ◌<◌, ◌≡◌, ◌≢◌, refl, Bool, true, false, List, [], ◌∷◌, ◌++◌, some, length, ltb, get_elem?, All,
  Result, ok, fault, indeterminate, bind, index, index_or, from_option, ◌%◌, ◌^◌, if◌then◌else◌,
  equal, equal_iff, Bool-cases, inl, inr, ◌∙◌, index-some, All-get_elem?, guarded_index,
  get_elem?-some, Option-cases,
}
use kgl.Loaders.Stream.{c_str}
use kgl.Loaders.Nss.{
  Vec4, Mat4, AnimationTransform, AnimationNode, Animation, Bone, NssFileData, load,
}
use kgl.Loaders.Nss.Bounds.{IsPlaced, load-HasChildren}

module _ {F : Type 0} where
  unfoldable pub bone_count : NssFileData F → ℕ
  bone_count d = length d.bones % 2 ^ 32

  unfoldable pub animation_count : NssFileData F → ℕ
  animation_count d = length d.animations % 2 ^ 32

  unfoldable pub num_children : Bone F → ℕ
  num_children b = length b.children % 2 ^ 32

  unfoldable pub node_count : Animation F → ℕ
  node_count a = length a.nodes % 2 ^ 32

  unfoldable pub transform_count : AnimationNode F → ℕ
  transform_count n = length n.transforms % 2 ^ 32

  -- `bone.name() == std::string( name )` compares the name up to its first zero.
  unfoldable pub is_named : List ℕ → Bone F → Bool
  is_named name b = equal (c_str b.name) name

  -- The loop of `has`.
  unfoldable pub has_among : List ℕ → List (Bone F) → Bool
  has_among name [] = false
  has_among name (b ∷ bones) = if is_named name b then true else has_among name bones

  unfoldable pub has : NssFileData F → List ℕ → Bool
  has d name = has_among name d.bones

module _ {F : Type 0} (zero_float : F) where
  abbrev zero_vec4 : Vec4 F
  zero_vec4 = record { x = zero_float; y = zero_float; z = zero_float; w = zero_float }

  abbrev zero_mat4 : Mat4 F
  zero_mat4 = record { x = zero_vec4; y = zero_vec4; z = zero_vec4; w = zero_vec4 }

  abbrev pub dummy_transform : AnimationTransform F
  dummy_transform = record {
    time = zero_float;
    position = zero_vec4;
    scale = zero_vec4;
    rotation = zero_vec4;
  }

  abbrev pub dummy_animation : Animation F
  dummy_animation = record { name = []; duration = zero_float; fps = zero_float; nodes = [] }

  abbrev pub dummy_bone : Bone F
  dummy_bone = record { name = []; transform = zero_mat4; children = []; tmp_children = [] }

  -- A root index that was never set is indeterminate.
  unfoldable pub root : NssFileData F → Result (Bone F)
  root d =
      from_option (λ (i : ℕ). index_or d.bones i (λ b. b) dummy_bone) (fault indeterminate)
        d.root_index

  unfoldable pub bone : NssFileData F → ℕ → Result (Bone F)
  bone d i = if ltb i (bone_count d) then index d.bones i else ok dummy_bone

  unfoldable pub animation : NssFileData F → ℕ → Result (Animation F)
  animation d i = if ltb i (animation_count d) then index d.animations i else ok dummy_animation

  -- `*data().children[ index ]`, the bone that the pointer leads to.
  unfoldable pub child : NssFileData F → Bone F → ℕ → Result (Bone F)
  child d b i =
      if ltb i (length b.children) then bind (index b.children i) (index d.bones) else ok dummy_bone

  unfoldable pub transform : AnimationNode F → ℕ → Result (AnimationTransform F)
  transform n i = index_or n.transforms i (λ t. t) dummy_transform

  -- The loop of `bone( name )`.
  unfoldable pub first_named : List ℕ → List (Bone F) → Bone F
  first_named name [] = dummy_bone
  first_named name (b ∷ bones) = if is_named name b then b else first_named name bones

  unfoldable pub bone_named : NssFileData F → List ℕ → Bone F
  bone_named d name = first_named name d.bones

unfoldable pub node : {F : Type 0} → Animation F → ℕ → Result (AnimationNode F)
node a i = index_or a.nodes i (λ n. n) (record { name = []; transforms = [] })

-- What `has` and `bone` answer for a name: the first bone of that name, or none and the dummy.
pub data Answer {F : Type 0} (zero_float : F) (name : List ℕ)
    : List (Bone F) → Bool → Bone F → Type 0 where
  is_there :
      (before after : List (Bone F)) (b : Bone F)
      → All (λ x. c_str x.name ≢ name) before
      → c_str b.name ≡ name
      → Answer zero_float name (before ++ b ∷ after) true b
  is_missing :
      (bones : List (Bone F))
      → All (λ x. c_str x.name ≢ name) bones
      → Answer zero_float name bones false (dummy_bone zero_float)

module _ {F : Type 0} (zero_float : F) where
  Answer-cons :
      (name : List ℕ) (x : Bone F) (bones : List (Bone F)) (h : Bool) (b : Bone F)
      → c_str x.name ≢ name
      → Answer zero_float name bones h b
      → Answer zero_float name (x ∷ bones) h b
  Answer-cons name x _ _ _ other (is_there before after b earlier same) =
      is_there (x ∷ before) after b (other, earlier) same
  Answer-cons name x _ _ _ other (is_missing bones all) = is_missing (x ∷ bones) (other, all)

  first_named-Answer :
      (name : List ℕ) (bones : List (Bone F))
      → Answer zero_float name bones (has_among name bones) (first_named zero_float name bones)
  unfolding has_among first_named is_named
  first_named-Answer name [] = is_missing [] tt
  first_named-Answer name (x ∷ bones) = elim (Bool-cases (equal (c_str x.name) name)) [
    | inl same ↦ rw same (is_there [] bones x tt ((equal_iff (c_str x.name) name).0 same))
    | inr other ↦ rw other (
        Answer-cons name x bones _ _ (λ e. cc ((equal_iff (c_str x.name) name).1 e))
          (first_named-Answer name bones))
  ]

  -- `has` and `bone` agree on every name: both find the first bone whose name, up to its first
  -- zero, is the one asked for, or there is no such bone, and the answers are false and the dummy.
  pub bone_named-Answer :
      (d : NssFileData F) (name : List ℕ)
      → Answer zero_float name d.bones (has d name) (bone_named zero_float d name)
  unfolding has bone_named
  bone_named-Answer d name = first_named-Answer name d.bones

  -- In an object that a load has filled, the query for a child answers for every bone and every
  -- index, with the bone at the child's place, or with the dummy past the last child.
  pub load-child :
      (atof : List ℕ → F) (bytes : List ℕ) (d : NssFileData F) (b : Bool) (d' : NssFileData F)
      → load atof bytes d ≡ ok (b, d')
      → (j : ℕ) (parent : Bone F) → get_elem? d'.bones j ≡ some parent
      → (i : ℕ)
      → (c : Bone F) × (child zero_float d' parent i ≡ ok c)
        × from_option
            (λ p. get_elem? d'.bones p ≡ some c)
            (c ≡ dummy_bone zero_float)
            (get_elem? parent.children i)
  unfolding child
  load-child atof bytes d b d' e j parent h i =
      let placed =
        All-get_elem? (IsPlaced (length d'.bones)) d'.bones j parent
          (load-HasChildren atof bytes d e) h in
      let answer = guarded_index parent.children i (index d'.bones) (dummy_bone zero_float) in
      elim (Option-cases (get_elem? parent.children i)) [
        | inl past ↦ (dummy_bone zero_float, answer ∙ rw past, rw past refl)
        | inr (p, there) ↦
            let inside =
              All-get_elem? (λ q. q < length d'.bones) parent.children i p placed.0 there in
            let (c, at) = get_elem?-some d'.bones p inside in
            (c, answer ∙ rw there (index-some d'.bones p c at), rw there at)
      ]
