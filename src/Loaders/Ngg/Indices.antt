-- ===== src/Loaders/Ngg/Indices.antt =====
-- The query for an index on a mesh whose indices have all been read.
use kgl.Common.{
  ltb, false, refl, ◌%◌, ◌^◌, bind, index-some, ℕ, zero, suc, ◌+◌, ◌*◌, ◌≡◌, ◌∙◌, true, List, [],
  ◌∷◌, ◌++◌, Option, some, map, length, length-map, take, drop, get_elem?, get_elem?-lt, ltb_out,
  drop-drop, All, All-get_elem?, ok, from_option, arith, leb, lt→ltb, le→leb, Option-cases, inl,
  inr, ap,
}
use kgl.Common.Words.{IsU32, to_bytes, of_bytes-to_bytes}
use kgl.Loaders.Stream.Buffers.{
  put_words, length-put_words, front, back, take-map, drop-map, filled-map,
}
use kgl.Loaders.Ngg.{Mesh, NggFileData, dummy_mesh, load, mesh, mesh_count, index_at, word_at}
use kgl.Loaders.Ngg.RoundTrip.{load-put_meshes}
use kgl.Loaders.Ngg.Format.{MeshSource, MeshFits, mesh_of, put_meshes}

nth_word :
    (ws : List ℕ) (i x : ℕ)
    → get_elem? ws i ≡ some x
    → take 4 (drop (i * 4) (put_words ws)) ≡ to_bytes 4 x
nth_word [] i x h = absurd (cc)
nth_word (w ∷ ws) zero x h = front w (put_words ws) ∙ ap (to_bytes 4) (cc)
nth_word (w ∷ ws) (suc i) x h =
    let further : suc i * 4 ≡ 4 + i * 4 = omega arith in
    rw (further, drop-drop 4 (i * 4) (to_bytes 4 w ++ put_words ws), back w (put_words ws))
      (nth_word ws i x h)

word_at-put_words :
    (ws : List ℕ) (i x : ℕ)
    → All IsU32 ws
    → get_elem? ws i ≡ some x
    → word_at (map some (put_words ws)) i ≡ ok x
unfolding word_at
word_at-put_words ws i x p h =
    let here = get_elem?-lt ws i x h in
    let inside : leb (i * 4 + 4) (length (map some (put_words ws))) ≡ true =
      le→leb (i * 4 + 4) (length (map some (put_words ws)))
        (omega (arith, length-map {B = Option ℕ} some (put_words ws), length-put_words ws)) in
    rw (
      inside,
      drop-map (i * 4) (put_words ws),
      take-map 4 (drop (i * 4) (put_words ws)),
      nth_word ws i x h,
      filled-map (to_bytes 4 x),
      of_bytes-to_bytes 4 x (All-get_elem? IsU32 ws i x p h),
    )

index_of_mesh :
    (f : MeshSource) (i : ℕ)
    → All IsU32 f.indices
    → index_at (mesh_of f) i ≡ ok (from_option (λ w. w) 0 (get_elem? f.indices i))
unfolding index_at mesh_of
index_of_mesh f i p = elim (Option-cases (get_elem? f.indices i)) [
  | inl past ↦ rw (past, ltb_out f.indices i past)
  | inr (x, there) ↦
      rw (lt→ltb i (length f.indices) (get_elem?-lt f.indices i x there), there)
        (word_at-put_words f.indices i x p there)
]

get_elem?-map :
    {A B : Type 0} (f : A → B) (xs : List A) (i : ℕ) (x : A)
    → get_elem? xs i ≡ some x
    → get_elem? (map f xs) i ≡ some (f x)
get_elem?-map f [] i x h = absurd (cc)
get_elem?-map f (y ∷ xs) zero x h = ap some (ap f (cc))
get_elem?-map f (y ∷ xs) (suc i) x h = get_elem?-map f xs i x h

index_of_dummy : (i : ℕ) → index_at dummy_mesh i ≡ ok 0
unfolding index_at
index_of_dummy i = let none_there : ltb i 0 ≡ false = ground arith in rw none_there refl

mesh-load :
    (fs : List MeshSource) (j i : ℕ)
    → IsU32 (length fs)
    → All MeshFits fs
    → bind (mesh (record { version = 1; meshes = map mesh_of fs }) j) (λ m. index_at m i)
      ≡ ok (from_option (λ f. from_option (λ w. w) 0 (get_elem? f.indices i)) 0 (get_elem? fs j))
unfolding mesh mesh_count
mesh-load fs j i n h =
    let count : length fs % 2 ^ 32 ≡ length fs = omega arith in
    elim (Option-cases (get_elem? fs j)) [
      | inl past ↦
          rw (past, length-map {B = Mesh} mesh_of fs, count, ltb_out fs j past) (index_of_dummy i)
      | inr (f, there) ↦ rw (
        there,
        length-map {B = Mesh} mesh_of fs,
        count,
        lt→ltb j (length fs) (get_elem?-lt fs j f there),
        index-some (map mesh_of fs) j (mesh_of f) (get_elem?-map mesh_of fs j f there),
        index_of_mesh f i (All-get_elem? MeshFits fs j f h there).indices_fit,
      )
    ]

-- After a load of a file of meshes of version 1, in which names have fewer than MAX_NAME_SIZE bytes
-- before their first zero, no mesh has 2^30 indices or more, and all numbers fit their fields: the
-- query for a mesh and then for an index of it answers with the index that the file has there, and
-- with 0 past the last mesh or index, whatever follows the file.
pub index_at-load :
    (fs : List MeshSource) (rest : List ℕ) (d : NggFileData) (j i : ℕ)
    → IsU32 (length fs)
    → All MeshFits fs
    → bind (load (put_meshes fs ++ rest) d) (λ (b, d'). bind (mesh d' j) λ m. index_at m i)
      ≡ ok (from_option (λ f. from_option (λ w. w) 0 (get_elem? f.indices i)) 0 (get_elem? fs j))
index_at-load fs rest d j i n h = rw (load-put_meshes fs rest d n h) (mesh-load fs j i n h)
