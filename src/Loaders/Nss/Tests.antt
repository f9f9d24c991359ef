-- ===== src/Loaders/Nss/Tests.antt =====
-- Runs of the skeleton loader, and its theorems at a file of two bones. A float is here a natural
-- number, and `atof` reads decimal digits.
use kgl.Common.{
  ℕ, ◌+◌, ◌-◌, ◌*◌, ◌≡◌, refl, true, [], ◌∷◌, ◌++◌, some, ok, fault, indeterminate, arith,
  get_elem?,
}
use kgl.Loaders.Nss.{
  Vec4, Mat4, Bone, Animation, AnimationTransform, NssFileData, new_data, load, find_bones, link,
  all_matches, matches,
}
use kgl.Loaders.Stream.{c_str}
use kgl.Loaders.Nss.Format.{Text, Contents, BoneFits, ContentsFit, put_skeleton, skeleton_of}
use kgl.Loaders.Nss.RoundTrip.{load-put_skeleton}
use kgl.Loaders.Nss.Link.{IsLinked, find_bones-IsLinked}
use kgl.Loaders.Nss.Access.{Answer, has, bone_named, bone_named-Answer, child, load-child, root}

abbrev number : ℕ → Text → ℕ
number n [] = n
number n (b ∷ bs) = number (n * 10 + (b - 48)) bs

abbrev atof : Text → ℕ
atof = number 0

abbrev one : Vec4 Text
one = record { x = b'1' ∷ []; y = b'0' ∷ []; z = b'0' ∷ []; w = b'2' ∷ b'5' ∷ [] }

abbrev identity : Mat4 Text
identity = record { x = one; y = one; z = one; w = one }

abbrev hip : Bone Text
hip = record {
  name = b'h' ∷ b'i' ∷ [];
  transform = identity;
  children = [];
  tmp_children = (b'l' ∷ []) ∷ (b'x' ∷ []) ∷ [];
}

abbrev leg : Bone Text
leg = record { name = b'l' ∷ []; transform = identity; children = []; tmp_children = [] }

abbrev step : AnimationTransform Text
step = record { time = b'7' ∷ []; position = one; scale = one; rotation = one }

abbrev walk : Animation Text
walk = record {
  name = b'w' ∷ [];
  duration = b'9' ∷ [];
  fps = b'2' ∷ b'4' ∷ [];
  nodes = record { name = b'l' ∷ []; transforms = step ∷ [] } ∷ [];
}

abbrev contents : Contents
contents = record { root_index = 0; bones = hip ∷ leg ∷ []; animations = walk ∷ [] }

hip_fits : BoneFits hip
hip_fits = record {
  name_fits = omega arith;
  transform_fits = omega arith;
  count_fits = omega arith;
  children_fit = omega arith;
}

leg_fits : BoneFits leg
leg_fits = record {
  name_fits = omega arith;
  transform_fits = omega arith;
  count_fits = omega arith;
  children_fit = tt;
}

contents_fit : ContentsFit contents
contents_fit = record {
  root_fits = omega arith;
  bones_count = omega arith;
  animations_count = omega arith;
  bones_fit = (hip_fits, (leg_fits, tt));
  animations_fit = (
    record {
      name_fits = omega arith;
      duration_fits = omega arith;
      fps_fits = omega arith;
      count_fits = omega arith;
      nodes_fit = omega arith;
    },
    tt,
  );
}

-- A root that no load has set.
no_root : root 0 (new_data {F = ℕ}) ≡ fault indeterminate
unfolding root
no_root = refl

load-put_skeleton_example :
    load atof (put_skeleton contents ++ 5 ∷ []) new_data ≡ ok (true, skeleton_of atof contents)
load-put_skeleton_example = load-put_skeleton atof contents (5 ∷ []) new_data contents_fit

abbrev number_one : Vec4 ℕ
number_one = record { x = 1; y = 0; z = 0; w = 25 }

abbrev number_identity : Mat4 ℕ
number_identity = record { x = number_one; y = number_one; z = number_one; w = number_one }

abbrev bare_hip : Bone ℕ
bare_hip = record {
  name = b'h' ∷ b'i' ∷ [];
  transform = number_identity;
  children = [];
  tmp_children = (b'l' ∷ []) ∷ (b'x' ∷ []) ∷ [];
}

abbrev linked_hip : Bone ℕ
linked_hip = record bare_hip { children = 1 ∷ []; tmp_children = [] }

abbrev number_leg : Bone ℕ
number_leg = record {
  name = b'l' ∷ [];
  transform = number_identity;
  children = [];
  tmp_children = [];
}

abbrev unlinked : NssFileData ℕ
unlinked = record {
  version = 1;
  root_index = some 0;
  bones = bare_hip ∷ number_leg ∷ [];
  animations = [];
}

find_bones-IsLinked_example :
    (b' : Bone ℕ) × (get_elem? (find_bones unlinked).bones 0 ≡ some b')
    × IsLinked unlinked.bones bare_hip b'
find_bones-IsLinked_example = find_bones-IsLinked unlinked 0 bare_hip refl

bone_named-Answer_example :
    Answer 0
      (b'l' ∷ [])
      unlinked.bones
      (has unlinked (b'l' ∷ []))
      (bone_named 0 unlinked (b'l' ∷ []))
bone_named-Answer_example = bone_named-Answer 0 unlinked (b'l' ∷ [])

load-child_example :
    (c : Bone ℕ) × (child 0 (skeleton_of atof contents) linked_hip 0 ≡ ok c)
    × (get_elem? (skeleton_of atof contents).bones 1 ≡ some c)
unfolding skeleton_of find_bones link all_matches matches c_str
load-child_example =
    load-child 0 atof (put_skeleton contents ++ 5 ∷ []) new_data true (skeleton_of atof contents)
      (load-put_skeleton atof contents (5 ∷ []) new_data contents_fit) 0 linked_hip refl 0
