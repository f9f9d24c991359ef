-- ===== src/Loaders/Nss/Format.antt =====
-- The layout of a skeleton file of version 1, written out independently of the code that reads it.
-- A float is stored as its text.
use kgl.Common.{ℕ, List, [], ◌++◌, map, length, All, some}
use kgl.Common.Words.{IsU32, to_bytes}
use kgl.Loaders.Stream.{c_str}
use kgl.Loaders.Stream.Codec.{put_string}
use kgl.Loaders.Stream.Loops.{put_all}
use kgl.Loaders.Nss.{
  magic_number, Vec4, Mat4, AnimationTransform, AnimationNode, Animation, Bone, NssFileData,
  find_bones,
}

abbrev pub Text : Type 0
Text = List ℕ

pub record Contents : Type 0 where
  pub root_index : ℕ
  pub bones : List (Bone Text)
  pub animations : List (Animation Text)

unfoldable pub put_vec4 : Vec4 Text → List ℕ
put_vec4 v = put_string v.x ++ (put_string v.y ++ (put_string v.z ++ put_string v.w))

unfoldable pub put_mat4 : Mat4 Text → List ℕ
put_mat4 m = put_vec4 m.x ++ (put_vec4 m.y ++ (put_vec4 m.z ++ put_vec4 m.w))

unfoldable pub put_bone : Bone Text → List ℕ
put_bone b =
    put_string b.name
    ++ (put_mat4 b.transform
        ++ (to_bytes 4 (length b.tmp_children) ++ put_all put_string b.tmp_children))

unfoldable pub put_transform : AnimationTransform Text → List ℕ
put_transform t =
    put_string t.time ++ (put_vec4 t.position ++ (put_vec4 t.scale ++ put_vec4 t.rotation))

unfoldable pub put_node : AnimationNode Text → List ℕ
put_node n =
    put_string n.name ++ (to_bytes 4 (length n.transforms) ++ put_all put_transform n.transforms)

unfoldable pub put_animation : Animation Text → List ℕ
put_animation a =
    put_string a.name
    ++ (put_string a.duration
        ++ (put_string a.fps ++ (to_bytes 4 (length a.nodes) ++ put_all put_node a.nodes)))

unfoldable pub put_skeleton : Contents → List ℕ
put_skeleton c =
    to_bytes 8 magic_number
    ++ (to_bytes 4 1
        ++ (to_bytes 4 c.root_index
            ++ (to_bytes 4 (length c.bones)
                ++ (to_bytes 4 (length c.animations)
                    ++ (put_all put_bone c.bones ++ put_all put_animation c.animations)))))

abbrev pub TextFits : Text → Type 0
TextFits text = IsU32 (length text)

abbrev pub Vec4Fits : Vec4 Text → Type 0
Vec4Fits v = TextFits v.x × TextFits v.y × TextFits v.z × TextFits v.w

abbrev pub Mat4Fits : Mat4 Text → Type 0
Mat4Fits m = Vec4Fits m.x × Vec4Fits m.y × Vec4Fits m.z × Vec4Fits m.w

pub record BoneFits (b : Bone Text) : Type 0 where
  pub name_fits : TextFits b.name
  pub transform_fits : Mat4Fits b.transform
  pub count_fits : IsU32 (length b.tmp_children)
  pub children_fit : All TextFits b.tmp_children

abbrev pub TransformFits : AnimationTransform Text → Type 0
TransformFits t = TextFits t.time × Vec4Fits t.position × Vec4Fits t.scale × Vec4Fits t.rotation

abbrev pub NodeFits : AnimationNode Text → Type 0
NodeFits n = TextFits n.name × IsU32 (length n.transforms) × All TransformFits n.transforms

pub record AnimationFits (a : Animation Text) : Type 0 where
  pub name_fits : TextFits a.name
  pub duration_fits : TextFits a.duration
  pub fps_fits : TextFits a.fps
  pub count_fits : IsU32 (length a.nodes)
  pub nodes_fit : All NodeFits a.nodes

-- Every number and every length fits its word of four bytes.
pub record ContentsFit (c : Contents) : Type 0 where
  pub root_fits : IsU32 c.root_index
  pub bones_count : IsU32 (length c.bones)
  pub animations_count : IsU32 (length c.animations)
  pub bones_fit : All BoneFits c.bones
  pub animations_fit : All AnimationFits c.animations

-- What the texts stand for.
module _ {F : Type 0} (atof : Text → F) where
  abbrev pub float_of : Text → F
  float_of text = atof (c_str text)

  abbrev pub vec4_of : Vec4 Text → Vec4 F
  vec4_of v = record { x = float_of v.x; y = float_of v.y; z = float_of v.z; w = float_of v.w }

  abbrev pub mat4_of : Mat4 Text → Mat4 F
  mat4_of m = record { x = vec4_of m.x; y = vec4_of m.y; z = vec4_of m.z; w = vec4_of m.w }

  abbrev pub bone_of : Bone Text → Bone F
  bone_of b = record {
    name = b.name;
    transform = mat4_of b.transform;
    children = [];
    tmp_children = b.tmp_children;
  }

  abbrev pub transform_of : AnimationTransform Text → AnimationTransform F
  transform_of t = record {
    time = float_of t.time;
    position = vec4_of t.position;
    scale = vec4_of t.scale;
    rotation = vec4_of t.rotation;
  }

  abbrev pub node_of : AnimationNode Text → AnimationNode F
  node_of n = record { name = n.name; transforms = map transform_of n.transforms }

  abbrev pub animation_of : Animation Text → Animation F
  animation_of a = record {
    name = a.name;
    duration = float_of a.duration;
    fps = float_of a.fps;
    nodes = map node_of a.nodes;
  }

  -- The object that holds the contents, its bones linked.
  unfoldable pub skeleton_of : Contents → NssFileData F
  skeleton_of c = find_bones (record {
    version = 1;
    root_index = some c.root_index;
    bones = map bone_of c.bones;
    animations = map animation_of c.animations;
  })
