-- ===== src/Loaders/Ngg/Names.antt =====
-- A name that is too long for the array that `readMeshV1` copies it into.
use kgl.Common.{
  ℕ, ◌≤◌, ◌≡◌, ◌∙◌, false, List, [], ◌∷◌, ◌++◌, length, All, fault, overrun, append_assoc, arith,
  ltb,
}
use kgl.Common.Words.{IsU32, to_bytes}
use kgl.Loaders.Stream.{fresh, read_onto, c_str}
use kgl.Loaders.Stream.Codec.{put_string, read_unsigned-Decodes, read_magic-Decodes}
use kgl.Loaders.Stream.Loops.{put_all}
use kgl.Loaders.Ngg.{
  magic_number, max_name_size, NggFileData, copy_name, read_arrays, read_mesh_v1, read_v1,
  read_case, read_versioned, load_stream, load,
}
use kgl.Loaders.Ngg.Format.{
  MeshSource, put_counts, put_arrays, put_mesh, put_meshes, CountsFit, MeshFits, mesh_of,
}
use kgl.Loaders.Ngg.RoundTrip.{arrays_reader, read_mesh_from, read_mesh-Decodes}

long_name :
    (f : MeshSource) (rest : List ℕ)
    → max_name_size ≤ length (c_str f.name)
    → arrays_reader f (fresh rest) ≡ fault overrun
unfolding read_arrays copy_name
long_name f rest h =
    let long : ltb (length (c_str f.name)) max_name_size ≡ false = ground arith in rw long

read_mesh-overrun :
    (f : MeshSource) (rest : List ℕ)
    → CountsFit f
    → max_name_size ≤ length (c_str f.name)
    → read_mesh_v1 (fresh (put_mesh f ++ rest)) ≡ fault overrun
unfolding put_mesh
read_mesh-overrun f rest h long =
    rw (append_assoc (put_string f.name) _ rest, append_assoc (put_counts f) _ rest)
      (read_mesh_from f (put_arrays f ++ rest) h ∙ long_name f (put_arrays f ++ rest) long)

module _ (f : MeshSource) (after : List MeshSource) where
  read_onto-overrun :
      (before : List MeshSource) (rest : List ℕ)
      → All MeshFits before
      → CountsFit f
      → max_name_size ≤ length (c_str f.name)
      → (out : _)
      → read_onto
          (length (before ++ f ∷ after))
          read_mesh_v1
          out
          (fresh (put_all put_mesh (before ++ f ∷ after) ++ rest))
        ≡ fault overrun
  unfolding read_onto
  read_onto-overrun [] rest p h long out =
      rw (append_assoc (put_mesh f) _ rest, read_mesh-overrun f _ h long)
  read_onto-overrun (b ∷ before) rest p h long out = rw (
    append_assoc (put_mesh b) _ rest,
    read_mesh-Decodes b p.0 _,
    read_onto-overrun before rest p.1 h long (out ++ mesh_of b ∷ []),
  )

  -- A file of meshes of version 1 in which a name has too many bytes before its first zero, after
  -- meshes that fit, is not loaded: the copy of the name writes past the end of the array.
  pub load-long_name :
      (before : List MeshSource) (rest : List ℕ) (d : NggFileData)
      → IsU32 (length (before ++ f ∷ after))
      → All MeshFits before
      → CountsFit f
      → max_name_size ≤ length (c_str f.name)
      → load (put_meshes (before ++ f ∷ after) ++ rest) d ≡ fault overrun
  unfolding load load_stream read_versioned read_case read_v1 put_meshes
  load-long_name before rest d n p h long = rw (
    append_assoc (to_bytes 8 magic_number) _ rest,
    append_assoc (to_bytes 4 1) _ rest,
    append_assoc (to_bytes 4 (length (before ++ f ∷ after))) _ rest,
    read_magic-Decodes magic_number (omega arith) _,
    read_unsigned-Decodes 1 (omega arith) _,
    read_unsigned-Decodes (length (before ++ f ∷ after)) n _,
    read_onto-overrun before rest p h long [],
  )
