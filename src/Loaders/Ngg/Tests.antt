-- ===== src/Loaders/Ngg/Tests.antt =====
-- Runs of the mesh loader, and its theorems at small files and at one whose buffer size wraps.
use kgl.Common.{
  bind, ℕ, ◌≡◌, ◌^◌, refl, true, List, [], ◌∷◌, ◌++◌, ok, fault, overrun, arith, replicate,
}
use kgl.Common.Words.{to_bytes, of_bytes}
use kgl.Loaders.Stream.{
  read, read_word, read_unsigned, read_string, read_magic, read_bytes, read_onto, c_str,
}
use kgl.Loaders.Ngg.{
  magic_number, Vertex, NggFileData, new_data, reset, copy_name, read_path, read_arrays,
  read_mesh_v1, read_v1, read_case, read_versioned, load_stream, load, index_at, mesh, mesh_count,
  dummy_mesh,
}
use kgl.Loaders.Ngg.Format.{MeshSource, CountsFit, MeshFits, put_meshes, mesh_of}
use kgl.Loaders.Ngg.RoundTrip.{load-put_meshes}
use kgl.Loaders.Ngg.Names.{load-long_name}
use kgl.Loaders.Ngg.Indices.{index_at-load}
use kgl.Loaders.Ngg.Bounds.{AnswersAt, load-AnswersAt, load-index_overrun}

abbrev corner : Vertex
corner =
    let four : List ℕ = 1 ∷ 2 ∷ 3 ∷ 4 ∷ [] in
    record { position = four; normals = four; weights = four; ids = four; uvs = 5 ∷ 6 ∷ [] }

abbrev cube : MeshSource
cube = record {
  name = b'c' ∷ b'u' ∷ [];
  vertices = corner ∷ [];
  indices = 0 ∷ 7 ∷ 258 ∷ [];
  diffuse = (b'd' ∷ []) ∷ [];
  specular = [];
  normal = [];
  height = [];
}

cube_counts : CountsFit cube
cube_counts = record {
  name_fits = omega arith;
  vertices_count = omega arith;
  indices_count = omega arith;
  diffuse_count = omega arith;
  specular_count = omega arith;
  normal_count = omega arith;
  height_count = omega arith;
}

cube_fits : MeshFits cube
unfolding c_str
cube_fits = record {
  counts_fit = cube_counts;
  short_name = omega arith;
  vertices_fit = (
    (
      (refl, omega arith),
      (refl, omega arith),
      (refl, omega arith),
      (refl, omega arith),
      (refl, omega arith),
    ),
    tt,
  );
  indices_fit = omega arith;
  diffuse_fit = omega arith;
  specular_fit = tt;
  normal_fit = tt;
  height_fit = tt;
}

load-put_meshes_example :
    load (put_meshes (cube ∷ []) ++ 5 ∷ []) new_data
    ≡ ok (true, record { version = 1; meshes = mesh_of cube ∷ [] })
load-put_meshes_example =
    load-put_meshes (cube ∷ []) (5 ∷ []) new_data (omega arith) (cube_fits, tt)

index_at-load_example :
    bind
      (load (put_meshes (cube ∷ []) ++ 5 ∷ []) new_data)
      (λ (b, d'). bind (mesh d' 0) λ m. index_at m 2)
    ≡ ok 258
index_at-load_example =
    index_at-load (cube ∷ []) (5 ∷ []) new_data 0 2 (omega arith) (cube_fits, tt)

-- The array is too small for fifty bytes and a zero.
abbrev fifty : MeshSource
fifty = record cube { name = replicate 50 b'n' }

fifty_counts : CountsFit fifty
fifty_counts = record {
  name_fits = omega arith;
  vertices_count = omega arith;
  indices_count = omega arith;
  diffuse_count = omega arith;
  specular_count = omega arith;
  normal_count = omega arith;
  height_count = omega arith;
}

load-long_name_example : load (put_meshes (cube ∷ fifty ∷ []) ++ []) new_data ≡ fault overrun
unfolding c_str
load-long_name_example =
    load-long_name fifty [] (cube ∷ []) [] new_data (omega arith) (cube_fits, tt) fifty_counts
      (omega arith)

-- A mesh without a name or arrays that claims 2 ^ 30 indices: the buffer for them is empty.
abbrev wrapped_file : List ℕ
wrapped_file =
    to_bytes 8 magic_number
    ++ (to_bytes 4 1
        ++ (to_bytes 4 1
            ++ (to_bytes 4 0
                ++ (to_bytes 4 0
                    ++ (to_bytes 4 (2 ^ 30)
                        ++ (to_bytes 4 0 ++ (to_bytes 4 0 ++ (to_bytes 4 0 ++ to_bytes 4 0))))))))

abbrev wrapped : NggFileData
wrapped = record { version = 1; meshes = record dummy_mesh { num_indices = 2 ^ 30 } ∷ [] }

load-wrapped : load wrapped_file new_data ≡ ok (true, wrapped)
unfolding load load_stream read_versioned read_case read_v1 read_mesh_v1 read_arrays read_path
    copy_name reset new_data read_onto read_magic read_unsigned read_string read_word read_bytes
    read of_bytes to_bytes c_str
load-wrapped = refl

load-index_overrun_example : index_at (record dummy_mesh { num_indices = 2 ^ 30 }) 0 ≡ fault overrun
load-index_overrun_example =
    load-index_overrun wrapped_file new_data true wrapped load-wrapped 0
      (record dummy_mesh { num_indices = 2 ^ 30 }) refl 0 (omega arith) (omega arith)

load-AnswersAt_example : AnswersAt (mesh_of cube) 0
load-AnswersAt_example =
    load-AnswersAt (put_meshes (cube ∷ []) ++ 5 ∷ []) new_data true
      (record { version = 1; meshes = mesh_of cube ∷ [] })
      (load-put_meshes (cube ∷ []) (5 ∷ []) new_data (omega arith) (cube_fits, tt)) 0 (mesh_of cube)
      refl 0

-- Past the meshes the query answers with the dummy.
no_mesh : mesh wrapped 3 ≡ ok dummy_mesh
unfolding mesh mesh_count
no_mesh = refl
