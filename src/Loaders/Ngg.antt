-- ===== src/Loaders/Ngg.antt =====
-- src/loaders/NggFile.{h,cpp}: the file of meshes. A float is its pattern of 32 bits, as it is
-- stored, and a C string the bytes before its zero. `m_indices` is the buffer of bytes behind the
-- pointer: a byte that was not read is `none`.
pub mod Bounds
pub mod Format
pub mod RoundTrip
pub mod Names
pub mod Indices
mod Tests
use kgl.Common.{
  ℕ, zero, suc, ◌+◌, ◌*◌, ◌%◌, ◌^◌, ◌≡◌, Bool, true, false, List, [], ◌∷◌, ◌++◌, Option, none, some,
  map, Result, ok, fault, overrun, bind, if◌then◌else◌, ◌==◌, ltb, leb, length, take, drop, index,
}
use kgl.Common.Words.{of_bytes}
use kgl.Loaders.Stream.{
  M, ◌>>=◌, pure, lift, fresh, read_unsigned, read_string, read_magic, read_bytes, read_words,
  read_onto, filled, c_str,
}

abbrev pub magic_number : ℕ
magic_number = 0x26656d696b750a

abbrev pub max_name_size : ℕ
max_name_size = 50

pub record Vertex : Type 0 where
  pub position : List ℕ
  pub normals : List ℕ
  pub weights : List ℕ
  pub ids : List ℕ
  pub uvs : List ℕ

pub record Material : Type 0 where
  pub num_diffuse : ℕ
  pub num_specular : ℕ
  pub num_normal : ℕ
  pub num_height : ℕ
  pub m_diffuse : List (List ℕ)
  pub m_specular : List (List ℕ)
  pub m_normal : List (List ℕ)
  pub m_height : List (List ℕ)

pub record Mesh : Type 0 where
  pub m_name : List ℕ
  pub m_vertices : List Vertex
  pub m_indices : List (Option ℕ)
  pub num_vertices : ℕ
  pub num_indices : ℕ
  pub material : Material

pub record NggFileData : Type 0 where
  pub version : ℕ
  pub meshes : List Mesh

-- `NggFileData()`
unfoldable pub new_data : NggFileData
new_data = record { version = 0; meshes = [] }

-- `strcpy( mesh.m_name, str.c_str() )`: the zero at the end must fit the array too.
unfoldable pub copy_name : List ℕ → Result (List ℕ)
copy_name str = if ltb (length (c_str str)) max_name_size then ok (c_str str) else fault overrun

unfoldable pub read_vertex : M Vertex
read_vertex = do
  position ← read_words 4
  normals ← read_words 4
  weights ← read_words 4
  ids ← read_words 4
  uvs ← read_words 2
  pure (record { position = position; normals = normals; weights = weights; ids = ids; uvs = uvs })

-- A string copied into an array of its own, which is large enough.
unfoldable pub read_path : M (List ℕ)
read_path = do tmp ← read_string; pure (c_str tmp)

-- The bytes of `num_indices` numbers, in `unsigned`.
abbrev pub indices_size : ℕ → ℕ
indices_size num_indices = num_indices * 4 % 2 ^ 32

-- The part of `readMeshV1` from the copy of the name on.
unfoldable pub read_arrays : List ℕ → ℕ → ℕ → ℕ → ℕ → ℕ → ℕ → M Mesh
read_arrays str num_vertices num_indices num_diffuse num_specular num_normal num_height = do
  name ← lift (copy_name str)
  vertices ← read_onto num_vertices read_vertex []
  indices ← read_bytes (indices_size num_indices)
  diffuse ← read_onto num_diffuse read_path []
  specular ← read_onto num_specular read_path []
  normal ← read_onto num_normal read_path []
  height ← read_onto num_height read_path []
  pure (record {
    m_name = name;
    m_vertices = vertices;
    m_indices = indices;
    num_vertices = num_vertices;
    num_indices = num_indices;
    material = record {
      num_diffuse = num_diffuse;
      num_specular = num_specular;
      num_normal = num_normal;
      num_height = num_height;
      m_diffuse = diffuse;
      m_specular = specular;
      m_normal = normal;
      m_height = height;
    };
  })

unfoldable pub read_mesh_v1 : M Mesh
read_mesh_v1 = do
  str ← read_string
  num_vertices ← read_unsigned
  num_indices ← read_unsigned
  num_diffuse ← read_unsigned
  num_specular ← read_unsigned
  num_normal ← read_unsigned
  num_height ← read_unsigned
  read_arrays str num_vertices num_indices num_diffuse num_specular num_normal num_height

-- The heap objects are released; the version stays.
unfoldable pub reset : NggFileData → NggFileData
reset d = record d { meshes = [] }

-- `case 1` of `load`
unfoldable pub read_v1 : NggFileData → M NggFileData
read_v1 d = do
  num_meshes ← read_unsigned
  meshes ← read_onto num_meshes read_mesh_v1 []
  pure (record d { meshes = meshes })

-- The `switch` on the version.
unfoldable pub read_case : ℕ → NggFileData → M NggFileData
read_case version d = if version == 1 then read_v1 d else pure d

unfoldable pub read_versioned : NggFileData → M (Bool × NggFileData)
read_versioned d = do
  version ← read_unsigned
  d' ← read_case version (record d { version = version })
  pure (true, d')

unfoldable pub load_stream : NggFileData → M (Bool × NggFileData)
load_stream d = do
  magic ← read_magic
  if magic == magic_number then read_versioned d else pure (false, d)

-- `load( bytes, size )`
unfoldable pub load : List ℕ → NggFileData → Result (Bool × NggFileData)
load bytes d = bind (load_stream (reset d) (fresh bytes)) (λ (r, s). ok r)

-- `load( path )`: `none` is a path that cannot be opened. The size is narrowed
-- to `unsigned`.
unfoldable pub load_path : Option (List ℕ) → NggFileData → Result (Bool × NggFileData)
load_path none d = ok (false, d)
load_path (some bytes) d = load (take (length bytes % 2 ^ 32) bytes) d

unfoldable pub mesh_count : NggFileData → ℕ
mesh_count d = length d.meshes % 2 ^ 32

-- The static dummy is all zeros and null pointers.
abbrev pub dummy_mesh : Mesh
dummy_mesh = record {
  m_name = [];
  m_vertices = [];
  m_indices = [];
  num_vertices = 0;
  num_indices = 0;
  material = record {
    num_diffuse = 0;
    num_specular = 0;
    num_normal = 0;
    num_height = 0;
    m_diffuse = [];
    m_specular = [];
    m_normal = [];
    m_height = [];
  };
}

unfoldable pub mesh : NggFileData → ℕ → Result Mesh
mesh d i = if ltb i (mesh_count d) then index d.meshes i else ok dummy_mesh

abbrev pub dummy_vertex : Vertex
dummy_vertex =
    let zeros : List ℕ = 0 ∷ 0 ∷ 0 ∷ 0 ∷ [] in
    record { position = zeros; normals = zeros; weights = zeros; ids = zeros; uvs = 0 ∷ 0 ∷ [] }

unfoldable pub vertex : Mesh → ℕ → Result Vertex
vertex m i = if ltb i m.num_vertices then index m.m_vertices i else ok dummy_vertex

-- `m_indices[ i ]`
unfoldable pub word_at : List (Option ℕ) → ℕ → Result ℕ
word_at cells i =
    if leb (i * 4 + 4) (length cells)
    then bind (filled (take 4 (drop (i * 4) cells))) (λ bs. ok (of_bytes bs))
    else fault overrun

unfoldable pub index_at : Mesh → ℕ → Result ℕ
index_at m i = if ltb i m.num_indices then word_at m.m_indices i else ok 0

unfoldable pub diffuse : Material → ℕ → Result (List ℕ)
diffuse m i = if ltb i m.num_diffuse then index m.m_diffuse i else ok []

unfoldable pub specular : Material → ℕ → Result (List ℕ)
specular m i = if ltb i m.num_specular then index m.m_specular i else ok []

unfoldable pub normal : Material → ℕ → Result (List ℕ)
normal m i = if ltb i m.num_normal then index m.m_normal i else ok []

unfoldable pub height : Material → ℕ → Result (List ℕ)
height m i = if ltb i m.num_height then index m.m_height i else ok []
