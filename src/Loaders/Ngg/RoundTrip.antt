-- ===== src/Loaders/Ngg/RoundTrip.antt =====
-- The readers of a file of meshes on what its layout stores.
use kgl.Common.{
  ℕ, ◌*◌, ◌^◌, ◌<◌, ◌≡◌, ◌∙◌, true, List, [], ◌++◌, map, length, All, ok, append_assoc, arith,
  lt→ltb, some,
}
use mathlib.Core.Path.{subst}
use kgl.Common.Words.{IsU32, to_bytes}
use kgl.Loaders.Stream.{fresh, M, read_string, read_onto, read_words, read_bytes, lift, c_str}
use kgl.Loaders.Stream.Codec.{
  Decodes, Decodes-bind, Decodes-map, put_string, read_unsigned-Decodes, read_string-Decodes,
  read_magic-Decodes,
}
use kgl.Loaders.Stream.Loops.{put_all, read_onto-Decodes, read_onto-Decodes_map}
use kgl.Loaders.Stream.Buffers.{put_words, length-put_words, read_words-Decodes, read_bytes-Decodes}
use kgl.Loaders.Ngg.{
  magic_number, max_name_size, Vertex, Mesh, NggFileData, copy_name, read_vertex, read_path,
  indices_size, read_arrays, read_mesh_v1, read_v1, read_case, read_versioned, load_stream, load,
  reset,
}
use kgl.Loaders.Ngg.Format.{
  MeshSource, put_vertex, put_counts, put_arrays, put_mesh, put_meshes, AreFloats, VertexFits,
  PathFits, CountsFit, MeshFits, mesh_of,
}

read_floats-Decodes :
    (n : ℕ) (ws : List ℕ) → AreFloats n ws → Decodes (read_words n) (put_words ws) ws
read_floats-Decodes n ws h =
    subst (λ k. Decodes (read_words k) (put_words ws) ws) h.0 (read_words-Decodes ws h.1)

read_vertex-Decodes : (v : Vertex) → VertexFits v → Decodes read_vertex (put_vertex v) v
unfolding read_vertex put_vertex
read_vertex-Decodes v h =
    Decodes-bind (read_words 4) _ _ _ v.position _ (read_floats-Decodes 4 v.position h.0) (
      Decodes-bind (read_words 4) _ _ _ v.normals _ (read_floats-Decodes 4 v.normals h.1) (
        Decodes-bind (read_words 4) _ _ _ v.weights _ (read_floats-Decodes 4 v.weights h.2) (
          Decodes-bind (read_words 4) _ _ _ v.ids _ (read_floats-Decodes 4 v.ids h.3)
            (Decodes-map (read_words 2) _ _ v.uvs (read_floats-Decodes 2 v.uvs h.4)))))

read_path-Decodes :
    (path : List ℕ) → PathFits path → Decodes read_path (put_string path) (c_str path)
unfolding read_path
read_path-Decodes path h = Decodes-map read_string c_str _ path (read_string-Decodes path h)

read_paths-Decodes :
    (paths : List (List ℕ))
    → All PathFits paths
    → Decodes (read_onto (length paths) read_path []) (put_all put_string paths) (map c_str paths)
read_paths-Decodes paths h =
    read_onto-Decodes_map read_path put_string PathFits c_str read_path-Decodes paths [] h

copy_name-Decodes :
    (str : List ℕ)
    → length (c_str str) < max_name_size
    → Decodes (lift (copy_name str)) [] (c_str str)
unfolding copy_name
copy_name-Decodes str h rest = rw (lt→ltb (length (c_str str)) max_name_size h)

read_indices-Decodes :
    (ws : List ℕ)
    → length ws * 4 < 2 ^ 32
    → Decodes (read_bytes (indices_size (length ws))) (put_words ws) (map some (put_words ws))
read_indices-Decodes ws h =
    read_bytes-Decodes (put_words ws) (indices_size (length ws))
      (omega (arith, length-put_words ws))

-- `readMeshV1` from the copy of the name on.
abbrev pub arrays_reader : MeshSource → M Mesh
arrays_reader f =
    read_arrays f.name (length f.vertices) (length f.indices) (length f.diffuse) (length f.specular)
      (length f.normal) (length f.height)

read_arrays-Decodes :
    (f : MeshSource) → MeshFits f → Decodes (arrays_reader f) (put_arrays f) (mesh_of f)
unfolding read_arrays put_arrays mesh_of
read_arrays-Decodes f h =
    Decodes-bind (lift (copy_name f.name)) _ [] _ (c_str f.name) _
      (copy_name-Decodes f.name h.short_name)
      (Decodes-bind (read_onto (length f.vertices) read_vertex []) _ _ _ f.vertices _
        (read_onto-Decodes read_vertex put_vertex VertexFits read_vertex-Decodes f.vertices []
          h.vertices_fit)
        (Decodes-bind (read_bytes (indices_size (length f.indices))) _ _ _ _ _
          (read_indices-Decodes f.indices h.counts_fit.indices_count)
          (Decodes-bind (read_onto (length f.diffuse) read_path []) _ _ _ (map c_str f.diffuse) _
            (read_paths-Decodes f.diffuse h.diffuse_fit)
            (Decodes-bind (read_onto (length f.specular) read_path []) _ _ _ (map c_str f.specular)
              _ (read_paths-Decodes f.specular h.specular_fit)
              (Decodes-bind (read_onto (length f.normal) read_path []) _ _ _ (map c_str f.normal) _
                (read_paths-Decodes f.normal h.normal_fit)
                (Decodes-map (read_onto (length f.height) read_path []) _ _ _
                  (read_paths-Decodes f.height h.height_fit)))))))

-- The name and the counts are read whatever follows them.
pub read_mesh_from :
    (f : MeshSource) (rest : List ℕ)
    → CountsFit f
    → read_mesh_v1 (fresh (put_string f.name ++ (put_counts f ++ rest)))
      ≡ arrays_reader f (fresh rest)
unfolding read_mesh_v1 put_counts
read_mesh_from f rest h = rw (
  append_assoc (to_bytes 4 (length f.vertices)) _ rest,
  append_assoc (to_bytes 4 (length f.indices)) _ rest,
  append_assoc (to_bytes 4 (length f.diffuse)) _ rest,
  append_assoc (to_bytes 4 (length f.specular)) _ rest,
  append_assoc (to_bytes 4 (length f.normal)) (to_bytes 4 (length f.height)) rest,
  read_string-Decodes f.name h.name_fits _,
  read_unsigned-Decodes _ h.vertices_count _,
  read_unsigned-Decodes (length f.indices) (omega (arith, h.indices_count)) _,
  read_unsigned-Decodes _ h.diffuse_count _,
  read_unsigned-Decodes _ h.specular_count _,
  read_unsigned-Decodes _ h.normal_count _,
  read_unsigned-Decodes _ h.height_count _,
)

pub read_mesh-Decodes :
    (f : MeshSource) → MeshFits f → Decodes read_mesh_v1 (put_mesh f) (mesh_of f)
unfolding put_mesh
read_mesh-Decodes f h rest =
    rw (append_assoc (put_string f.name) _ rest, append_assoc (put_counts f) _ rest)
      (read_mesh_from f (put_arrays f ++ rest) h.counts_fit ∙ read_arrays-Decodes f h rest)

-- Loading a file of meshes of version 1, in which every number and size fits its field, names have
-- fewer than MAX_NAME_SIZE bytes before their first zero, and no mesh has 2^30 indices or more,
-- succeeds, whatever follows the file. It leaves the file's meshes in order and nothing of what the
-- object held; names and paths end at their first zero.
pub load-put_meshes :
    (fs : List MeshSource) (rest : List ℕ) (d : NggFileData)
    → IsU32 (length fs)
    → All MeshFits fs
    → load (put_meshes fs ++ rest) d ≡ ok (true, record { version = 1; meshes = map mesh_of fs })
unfolding load load_stream read_versioned read_case read_v1 put_meshes reset
load-put_meshes fs rest d n h = rw (
  append_assoc (to_bytes 8 magic_number) _ rest,
  append_assoc (to_bytes 4 1) _ rest,
  append_assoc (to_bytes 4 (length fs)) _ rest,
  read_magic-Decodes magic_number (omega arith) _,
  read_unsigned-Decodes 1 (omega arith) _,
  read_unsigned-Decodes (length fs) n _,
  read_onto-Decodes_map read_mesh_v1 put_mesh MeshFits mesh_of read_mesh-Decodes fs [] h rest,
)
