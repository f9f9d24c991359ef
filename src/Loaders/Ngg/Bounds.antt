-- ===== src/Loaders/Ngg/Bounds.antt =====
-- The arrays of a loaded mesh against the counts that its queries test.
use kgl.Common.{
  ℕ, ◌+◌, ◌*◌, ◌<◌, ◌≡◌, Bool, true, false, List, [], some, ok, fault, overrun, ok_value,
  bind-eq-ok, length, get_elem?, All, index, from_option, index_within, All-get_elem?, leb, lt→ltb,
  ltb, if◌then◌else◌, ◌==◌, arith, Bool-cases, inl, inr,
}
use mathlib.Core.Path.{subst}
use kgl.Loaders.Stream.{
  pure, lift, fresh, read_unsigned, read_string, read_onto, read_bytes, read_magic,
}
use kgl.Loaders.Stream.Yields.{
  Yields, Yields-then, Yields-bind, Yields-pure, read_onto-Yields, read_bytes-Yields,
  length-read_onto,
}
use kgl.Loaders.Ngg.{
  magic_number, Mesh, NggFileData, copy_name, read_vertex, read_path, indices_size, read_arrays,
  read_mesh_v1, read_v1, read_case, read_versioned, load_stream, load, reset, vertex, index_at,
  word_at, diffuse, specular, normal, height, dummy_vertex,
}

-- Every array has the size that is noted for it, but the indices, whose size in bytes wraps.
pub record IsSized (m : Mesh) : Type 0 where
  pub vertices_size : length m.m_vertices ≡ m.num_vertices
  pub indices_bytes : length m.m_indices ≡ indices_size m.num_indices
  pub diffuse_size : length m.material.m_diffuse ≡ m.material.num_diffuse
  pub specular_size : length m.material.m_specular ≡ m.material.num_specular
  pub normal_size : length m.material.m_normal ≡ m.material.num_normal
  pub height_size : length m.material.m_height ≡ m.material.num_height

read_mesh-IsSized : Yields read_mesh_v1 IsSized
unfolding read_mesh_v1 read_arrays
read_mesh-IsSized = Yields-then read_string _ IsSized λ str.
    Yields-then read_unsigned _ IsSized λ nv. Yields-then read_unsigned _ IsSized λ ni.
      Yields-then read_unsigned _ IsSized λ nd. Yields-then read_unsigned _ IsSized λ ns.
        Yields-then read_unsigned _ IsSized λ nn. Yields-then read_unsigned _ IsSized λ nh.
          Yields-then (lift (copy_name str)) _ IsSized λ name.
            Yields-bind (read_onto nv read_vertex []) _ _ IsSized (length-read_onto read_vertex nv)
              λ vertices hv.
                Yields-bind (read_bytes (indices_size ni)) _ _ IsSized
                  (read_bytes-Yields (indices_size ni))
                  λ indices hi.
                    Yields-bind (read_onto nd read_path []) _ _ IsSized
                      (length-read_onto read_path nd)
                      λ diffuse hd.
                        Yields-bind (read_onto ns read_path []) _ _ IsSized
                          (length-read_onto read_path ns)
                          λ specular hs.
                            Yields-bind (read_onto nn read_path []) _ _ IsSized
                              (length-read_onto read_path nn)
                              λ normal hn.
                                Yields-bind (read_onto nh read_path []) _ _ IsSized
                                  (length-read_onto read_path nh)
                                  λ height hh. Yields-pure _ IsSized (record {
                                    vertices_size = hv;
                                    indices_bytes = hi;
                                    diffuse_size = hd;
                                    specular_size = hs;
                                    normal_size = hn;
                                    height_size = hh;
                                  })

abbrev pub AreSized : NggFileData → Type 0
AreSized d = All IsSized d.meshes

read_v1-AreSized : (d : NggFileData) → Yields (read_v1 d) AreSized
unfolding read_v1
read_v1-AreSized d = Yields-then read_unsigned _ AreSized λ n.
    Yields-bind (read_onto n read_mesh_v1 []) _ (All IsSized) AreSized
      (read_onto-Yields read_mesh_v1 IsSized read_mesh-IsSized n [] tt)
      λ meshes sized. Yields-pure _ AreSized sized

read_case-AreSized :
    (version : ℕ) (d : NggFileData) → AreSized d → Yields (read_case version d) AreSized
unfolding read_case
read_case-AreSized version d h = elim (Bool-cases (version == 1)) [
  | inl same ↦ rw same (read_v1-AreSized d)
  | inr other ↦ rw other (Yields-pure d AreSized h)
]

load_stream-AreSized : (d : NggFileData) → Yields (load_stream (reset d)) (λ r. AreSized r.1)
unfolding load_stream read_versioned reset
load_stream-AreSized d = Yields-then read_magic _ _ λ magic.
    elim (Bool-cases (magic == magic_number)) [
      | inl same ↦ rw same (
          Yields-then read_unsigned _ _ λ version.
            Yields-bind (read_case version _) (λ e. pure (true, e)) AreSized _
              (read_case-AreSized version _ tt) λ e c. Yields-pure (true, e) (λ r. AreSized r.1) c)
      | inr other ↦ rw other (Yields-pure _ (λ r. AreSized r.1) tt)
    ]

-- However a load ends that returns, every mesh has as many vertices and paths as it notes, and a
-- buffer of four bytes for each index, in `unsigned`, which wraps.
pub load-AreSized :
    (bytes : List ℕ) (d : NggFileData) {b : Bool} {d' : NggFileData}
    → load bytes d ≡ ok (b, d')
    → AreSized d'
unfolding load
load-AreSized bytes d e =
    let (p, streamed, same) = bind-eq-ok (load_stream (reset d) (fresh bytes)) (λ (r, s). ok r) e in
    subst (λ r. AreSized r.1) (ok_value same)
      (load_stream-AreSized d (fresh bytes) p.1 p.0 streamed)

guarded :
    {A : Type 0} (xs : List A) (n i : ℕ) (d : A)
    → length xs ≡ n
    → (if ltb i n then index xs i else ok d) ≡ ok (from_option (λ a. a) d (get_elem? xs i))
guarded xs n i d h = rw (← h) (index_within xs i d)

-- What the queries answer on a mesh.
pub record AnswersAt (m : Mesh) (i : ℕ) : Type 0 where
  pub vertex_is : vertex m i ≡ ok (from_option (λ v. v) dummy_vertex (get_elem? m.m_vertices i))
  pub diffuse_is :
      diffuse m.material i ≡ ok (from_option (λ s. s) [] (get_elem? m.material.m_diffuse i))
  pub specular_is :
      specular m.material i ≡ ok (from_option (λ s. s) [] (get_elem? m.material.m_specular i))
  pub normal_is :
      normal m.material i ≡ ok (from_option (λ s. s) [] (get_elem? m.material.m_normal i))
  pub height_is :
      height m.material i ≡ ok (from_option (λ s. s) [] (get_elem? m.material.m_height i))

IsSized-AnswersAt : (m : Mesh) (i : ℕ) → IsSized m → AnswersAt m i
unfolding vertex diffuse specular normal height
IsSized-AnswersAt m i s = record {
  vertex_is = guarded m.m_vertices m.num_vertices i dummy_vertex s.vertices_size;
  diffuse_is = guarded m.material.m_diffuse m.material.num_diffuse i [] s.diffuse_size;
  specular_is = guarded m.material.m_specular m.material.num_specular i [] s.specular_size;
  normal_is = guarded m.material.m_normal m.material.num_normal i [] s.normal_size;
  height_is = guarded m.material.m_height m.material.num_height i [] s.height_size;
}

-- On every mesh of an object that a load has filled, the queries for vertices and paths answer for
-- every index, with the element there or the default, and never read outside an array.
pub load-AnswersAt :
    (bytes : List ℕ) (d : NggFileData) (b : Bool) (d' : NggFileData)
    → load bytes d ≡ ok (b, d')
    → (j : ℕ) (m : Mesh) → get_elem? d'.meshes j ≡ some m
    → (i : ℕ) → AnswersAt m i
load-AnswersAt bytes d b d' e j m h i =
    IsSized-AnswersAt m i (All-get_elem? IsSized d'.meshes j m (load-AreSized bytes d e) h)

overrun_of-size :
    (m : Mesh) (i : ℕ)
    → IsSized m
    → i < m.num_indices
    → indices_size m.num_indices < i * 4 + 4
    → index_at m i ≡ fault overrun
unfolding index_at word_at
overrun_of-size m i s h past =
    let inside : ltb i m.num_indices ≡ true = lt→ltb i m.num_indices h in
    let outside : leb (i * 4 + 4) (length m.m_indices) ≡ false = ground (arith, s.indices_bytes) in
    rw (inside, outside)

-- On a mesh of an object that a load has filled, the query for an index reads outside the buffer,
-- though its test has passed, where the size of the buffer in bytes has wrapped below that index.
pub load-index_overrun :
    (bytes : List ℕ) (d : NggFileData) (b : Bool) (d' : NggFileData)
    → load bytes d ≡ ok (b, d')
    → (j : ℕ) (m : Mesh) → get_elem? d'.meshes j ≡ some m
    → (i : ℕ) → i < m.num_indices
    → indices_size m.num_indices < i * 4 + 4
    → index_at m i ≡ fault overrun
load-index_overrun bytes d b d' e j m h i =
    overrun_of-size m i (All-get_elem? IsSized d'.meshes j m (load-AreSized bytes d e) h)
