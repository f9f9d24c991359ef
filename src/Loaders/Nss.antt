-- ===== src/Loaders/Nss.antt =====
-- src/loaders/NssFile.{h,cpp}: the skeleton file, its bones and animations. Floats and `std::atof`
-- are parameters. A `std::string` is its list of bytes, and a `Bone*` the place of the bone.
pub mod Link
pub mod Bounds
pub mod Access
pub mod Format
pub mod RoundTrip
mod Tests
use kgl.Common.{
  take, length, ◌%◌, ◌^◌, ℕ, zero, suc, ◌≡◌, Bool, true, false, List, [], ◌∷◌, ◌++◌, Option, none,
  some, map, Result, ok, bind, if◌then◌else◌, ◌==◌, equal,
}
use kgl.Loaders.Stream.{
  M, ◌>>=◌, pure, fresh, read_unsigned, read_string, read_magic, read_onto, c_str,
}

abbrev pub magic_number : ℕ
magic_number = 0x29657d692b450a

pub record Vec4 (F : Type 0) : Type 0 where
  pub x : F
  pub y : F
  pub z : F
  pub w : F

pub record Mat4 (F : Type 0) : Type 0 where
  pub x : Vec4 F
  pub y : Vec4 F
  pub z : Vec4 F
  pub w : Vec4 F

pub record AnimationTransform (F : Type 0) : Type 0 where
  pub time : F
  pub position : Vec4 F
  pub scale : Vec4 F
  pub rotation : Vec4 F

pub record AnimationNode (F : Type 0) : Type 0 where
  pub name : List ℕ
  pub transforms : List (AnimationTransform F)

pub record Animation (F : Type 0) : Type 0 where
  pub name : List ℕ
  pub duration : F
  pub fps : F
  pub nodes : List (AnimationNode F)

pub record Bone (F : Type 0) : Type 0 where
  pub name : List ℕ
  pub transform : Mat4 F
  pub children : List ℕ
  pub tmp_children : List (List ℕ)

-- The constructor leaves `root_index` unset: `none`.
pub record NssFileData (F : Type 0) : Type 0 where
  pub version : ℕ
  pub root_index : Option ℕ
  pub bones : List (Bone F)
  pub animations : List (Animation F)

-- `if( bone_two.data().name == child ) bone.data().children.push_back( &bone_two )` for every
-- bone; the names are those of the bones from place `i` on.
unfoldable pub matches : List (List ℕ) → ℕ → List ℕ → List ℕ
matches [] i child = []
matches (name ∷ names) i child =
    let rest = matches names (suc i) child in if equal name child then i ∷ rest else rest

-- The loop over the names of the children.
unfoldable pub all_matches : List (List ℕ) → List (List ℕ) → List ℕ
all_matches names [] = []
all_matches names (child ∷ tmp_children) = matches names 0 child ++ all_matches names tmp_children

module _ {F : Type 0} where
  -- `NssFileData()`
  abbrev pub new_data : NssFileData F
  new_data = record { version = 0; root_index = none; bones = []; animations = [] }

  abbrev pub names_of : List (Bone F) → List (List ℕ)
  names_of = map (λ (b : Bone F). b.name)

  -- The round of `findBones` for one bone.
  unfoldable pub link : List (List ℕ) → Bone F → Bone F
  link names b = record b {
    children = b.children ++ all_matches names b.tmp_children;
    tmp_children = [];
  }

  -- `findBones`: a round changes no name.
  unfoldable pub find_bones : NssFileData F → NssFileData F
  find_bones d = record d { bones = map (link (names_of d.bones)) d.bones }

  -- The version and the index of the root stay.
  unfoldable pub reset : NssFileData F → NssFileData F
  reset d = record d { bones = []; animations = [] }

module _ {F : Type 0} (atof : List ℕ → F) where
  unfoldable pub read_float : M F
  read_float = do text ← read_string; pure (atof (c_str text))

  unfoldable pub read_vec4 : M (Vec4 F)
  read_vec4 = do
    x ← read_float
    y ← read_float
    z ← read_float
    w ← read_float
    pure (record { x = x; y = y; z = z; w = w })

  -- `readMat4`, row by row in the order of the sixteen reads.
  unfoldable pub read_mat4 : M (Mat4 F)
  read_mat4 = do
    x ← read_vec4
    y ← read_vec4
    z ← read_vec4
    w ← read_vec4
    pure (record { x = x; y = y; z = z; w = w })

  unfoldable pub read_bone_v1 : M (Bone F)
  read_bone_v1 = do
    name ← read_string
    transform ← read_mat4
    num_children ← read_unsigned
    tmp_children ← read_onto num_children read_string []
    pure (record { name = name; transform = transform; children = []; tmp_children = tmp_children })

  -- The body of the loop in `readAnimNodeV1`.
  unfoldable pub read_transform : M (AnimationTransform F)
  read_transform = do
    time ← read_float
    position ← read_vec4
    scale ← read_vec4
    rotation ← read_vec4
    pure (record { time = time; position = position; scale = scale; rotation = rotation })

  unfoldable pub read_anim_node_v1 : M (AnimationNode F)
  read_anim_node_v1 = do
    name ← read_string
    num_transforms ← read_unsigned
    transforms ← read_onto num_transforms read_transform []
    pure (record { name = name; transforms = transforms })

  unfoldable pub read_animation_v1 : M (Animation F)
  read_animation_v1 = do
    name ← read_string
    duration ← read_float
    fps ← read_float
    num_nodes ← read_unsigned
    nodes ← read_onto num_nodes read_anim_node_v1 []
    pure (record { name = name; duration = duration; fps = fps; nodes = nodes })

  -- `case 1` of `load`
  unfoldable pub read_v1 : NssFileData F → M (NssFileData F)
  read_v1 d = do
    root_index ← read_unsigned
    num_bones ← read_unsigned
    num_animations ← read_unsigned
    bones ← read_onto num_bones read_bone_v1 []
    animations ← read_onto num_animations read_animation_v1 []
    pure (
        find_bones
          (record d { root_index = some root_index; bones = bones; animations = animations }))

  -- The `switch` on the version.
  unfoldable pub read_case : ℕ → NssFileData F → M (NssFileData F)
  read_case version d = if version == 1 then read_v1 d else pure d

  unfoldable pub read_versioned : NssFileData F → M (Bool × NssFileData F)
  read_versioned d = do
    version ← read_unsigned
    d' ← read_case version (record d { version = version })
    pure (true, d')

  unfoldable pub load_stream : NssFileData F → M (Bool × NssFileData F)
  load_stream d = do
    magic ← read_magic
    if magic == magic_number then read_versioned d else pure (false, d)

  -- `load( bytes, size )`
  unfoldable pub load : List ℕ → NssFileData F → Result (Bool × NssFileData F)
  load bytes d = bind (load_stream (reset d) (fresh bytes)) (λ (r, s). ok r)

  -- `load( path )`: `none` is a path that cannot be opened. The size is narrowed
  -- to `unsigned`.
  unfoldable pub load_path : Option (List ℕ) → NssFileData F → Result (Bool × NssFileData F)
  load_path none d = ok (false, d)
  load_path (some bytes) d = load (take (length bytes % 2 ^ 32) bytes) d
