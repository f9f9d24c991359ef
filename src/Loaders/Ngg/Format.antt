-- ===== src/Loaders/Ngg/Format.antt =====
-- The layout of a file of meshes of version 1, written out independently of the code that reads it.
use kgl.Common.{ℕ, ◌*◌, ◌^◌, ◌<◌, ◌≡◌, List, ◌++◌, map, length, All, some}
use kgl.Common.Words.{IsU32, to_bytes}
use kgl.Loaders.Stream.{c_str}
use kgl.Loaders.Stream.Codec.{put_string}
use kgl.Loaders.Stream.Loops.{put_all}
use kgl.Loaders.Stream.Buffers.{put_words}
use kgl.Loaders.Ngg.{magic_number, max_name_size, Vertex, Mesh}

pub record MeshSource : Type 0 where
  pub name : List ℕ
  pub vertices : List Vertex
  pub indices : List ℕ
  pub diffuse : List (List ℕ)
  pub specular : List (List ℕ)
  pub normal : List (List ℕ)
  pub height : List (List ℕ)

unfoldable pub put_vertex : Vertex → List ℕ
put_vertex v =
    put_words v.position
    ++ (put_words v.normals ++ (put_words v.weights ++ (put_words v.ids ++ put_words v.uvs)))

-- The name and the counts, and what comes after them.
unfoldable pub put_counts : MeshSource → List ℕ
put_counts f =
    to_bytes 4 (length f.vertices)
    ++ (to_bytes 4 (length f.indices)
        ++ (to_bytes 4 (length f.diffuse)
            ++ (to_bytes 4 (length f.specular)
                ++ (to_bytes 4 (length f.normal) ++ to_bytes 4 (length f.height)))))

unfoldable pub put_arrays : MeshSource → List ℕ
put_arrays f =
    put_all put_vertex f.vertices
    ++ (put_words f.indices
        ++ (put_all put_string f.diffuse
            ++ (put_all put_string f.specular
                ++ (put_all put_string f.normal ++ put_all put_string f.height))))

unfoldable pub put_mesh : MeshSource → List ℕ
put_mesh f = put_string f.name ++ (put_counts f ++ put_arrays f)

unfoldable pub put_meshes : List MeshSource → List ℕ
put_meshes fs =
    to_bytes 8 magic_number ++ (to_bytes 4 1 ++ (to_bytes 4 (length fs) ++ put_all put_mesh fs))

abbrev pub AreFloats : ℕ → List ℕ → Type 0
AreFloats n ws = (length ws ≡ n) × All IsU32 ws

abbrev pub VertexFits : Vertex → Type 0
VertexFits v =
    AreFloats 4 v.position
    × AreFloats 4 v.normals
    × AreFloats 4 v.weights
    × AreFloats 4 v.ids
    × AreFloats 2 v.uvs

abbrev pub PathFits : List ℕ → Type 0
PathFits path = IsU32 (length path)

-- The counts fit their words of four bytes.
pub record CountsFit (f : MeshSource) : Type 0 where
  pub name_fits : PathFits f.name
  pub vertices_count : IsU32 (length f.vertices)
  pub indices_count : length f.indices * 4 < 2 ^ 32
  pub diffuse_count : IsU32 (length f.diffuse)
  pub specular_count : IsU32 (length f.specular)
  pub normal_count : IsU32 (length f.normal)
  pub height_count : IsU32 (length f.height)

-- The name fits its array, with its zero.
pub record MeshFits (f : MeshSource) : Type 0 where
  pub counts_fit : CountsFit f
  pub short_name : length (c_str f.name) < max_name_size
  pub vertices_fit : All VertexFits f.vertices
  pub indices_fit : All IsU32 f.indices
  pub diffuse_fit : All PathFits f.diffuse
  pub specular_fit : All PathFits f.specular
  pub normal_fit : All PathFits f.normal
  pub height_fit : All PathFits f.height

-- The mesh that is stored in the file.
unfoldable pub mesh_of : MeshSource → Mesh
mesh_of f = record {
  m_name = c_str f.name;
  m_vertices = f.vertices;
  m_indices = map some (put_words f.indices);
  num_vertices = length f.vertices;
  num_indices = length f.indices;
  material = record {
    num_diffuse = length f.diffuse;
    num_specular = length f.specular;
    num_normal = length f.normal;
    num_height = length f.height;
    m_diffuse = map c_str f.diffuse;
    m_specular = map c_str f.specular;
    m_normal = map c_str f.normal;
    m_height = map c_str f.height;
  };
}
