-- ===== src/Loaders/Nss/RoundTrip.antt =====
-- The readers of a skeleton file on what its layout stores.
use kgl.Common.{ℕ, ◌≡◌, true, List, [], ◌++◌, map, length, ok, append_assoc, arith}
use kgl.Common.Words.{to_bytes}
use kgl.Loaders.Stream.{read_unsigned, read_string, read_onto}
use kgl.Loaders.Stream.Codec.{
  Decodes, Decodes-bind, Decodes-map, put_string, read_unsigned-Decodes, read_string-Decodes,
  read_magic-Decodes,
}
use kgl.Loaders.Stream.Loops.{put_all, read_onto-Decodes, read_onto-Decodes_map}
use kgl.Loaders.Nss.{
  magic_number, Vec4, Mat4, AnimationTransform, AnimationNode, Animation, Bone, NssFileData,
  read_float, read_vec4, read_mat4, read_bone_v1, read_transform, read_anim_node_v1,
  read_animation_v1, read_v1, read_case, read_versioned, load_stream, load, reset,
}
use kgl.Loaders.Nss.Format.{
  Text, Contents, put_vec4, put_mat4, put_bone, put_transform, put_node, put_animation,
  put_skeleton, TextFits, Vec4Fits, Mat4Fits, BoneFits, TransformFits, NodeFits, AnimationFits,
  ContentsFit, float_of, vec4_of, mat4_of, bone_of, transform_of, node_of, animation_of,
  skeleton_of,
}

module _ {F : Type 0} (atof : Text → F) where
  read_float-Decodes :
      (text : Text)
      → TextFits text
      → Decodes (read_float atof) (put_string text) (float_of atof text)
  unfolding read_float
  read_float-Decodes text h =
      Decodes-map read_string (float_of atof) _ text (read_string-Decodes text h)

  -- Four reads of the same kind.
  read_vec4-Decodes :
      (v : Vec4 Text) → Vec4Fits v → Decodes (read_vec4 atof) (put_vec4 v) (vec4_of atof v)
  unfolding read_vec4 put_vec4
  read_vec4-Decodes v h =
      Decodes-bind (read_float atof) _ _ _ (float_of atof v.x) _ (read_float-Decodes v.x h.0) (
        Decodes-bind (read_float atof) _ _ _ (float_of atof v.y) _ (read_float-Decodes v.y h.1) (
          Decodes-bind (read_float atof) _ _ _ (float_of atof v.z) _ (read_float-Decodes v.z h.2)
            (Decodes-map (read_float atof) _ _ (float_of atof v.w) (read_float-Decodes v.w h.3))))

  read_mat4-Decodes :
      (m : Mat4 Text) → Mat4Fits m → Decodes (read_mat4 atof) (put_mat4 m) (mat4_of atof m)
  unfolding read_mat4 put_mat4
  read_mat4-Decodes m h =
      Decodes-bind (read_vec4 atof) _ _ _ (vec4_of atof m.x) _ (read_vec4-Decodes m.x h.0) (
        Decodes-bind (read_vec4 atof) _ _ _ (vec4_of atof m.y) _ (read_vec4-Decodes m.y h.1) (
          Decodes-bind (read_vec4 atof) _ _ _ (vec4_of atof m.z) _ (read_vec4-Decodes m.z h.2)
            (Decodes-map (read_vec4 atof) _ _ (vec4_of atof m.w) (read_vec4-Decodes m.w h.3))))

  read_bone-Decodes :
      (b : Bone Text) → BoneFits b → Decodes (read_bone_v1 atof) (put_bone b) (bone_of atof b)
  unfolding read_bone_v1 put_bone
  read_bone-Decodes b h =
      Decodes-bind read_string _ _ _ b.name _ (read_string-Decodes b.name h.name_fits) (
        Decodes-bind (read_mat4 atof) _ _ _ (mat4_of atof b.transform) _
          (read_mat4-Decodes b.transform h.transform_fits)
          (Decodes-bind read_unsigned _ _ _ (length b.tmp_children) _
            (read_unsigned-Decodes _ h.count_fits)
            (Decodes-map (read_onto (length b.tmp_children) read_string []) _ _ b.tmp_children (
              read_onto-Decodes read_string put_string TextFits read_string-Decodes b.tmp_children
                [] h.children_fit))))

  read_transform-Decodes :
      (t : AnimationTransform Text)
      → TransformFits t
      → Decodes (read_transform atof) (put_transform t) (transform_of atof t)
  unfolding read_transform put_transform
  read_transform-Decodes t h =
      Decodes-bind (read_float atof) _ _ _ (float_of atof t.time) _ (read_float-Decodes t.time h.0)
        (Decodes-bind (read_vec4 atof) _ _ _ (vec4_of atof t.position) _
          (read_vec4-Decodes t.position h.1)
          (Decodes-bind (read_vec4 atof) _ _ _ (vec4_of atof t.scale) _
            (read_vec4-Decodes t.scale h.2)
            (Decodes-map (read_vec4 atof) _ _ (vec4_of atof t.rotation)
              (read_vec4-Decodes t.rotation h.3))))

  read_node-Decodes :
      (n : AnimationNode Text)
      → NodeFits n
      → Decodes (read_anim_node_v1 atof) (put_node n) (node_of atof n)
  unfolding read_anim_node_v1 put_node
  read_node-Decodes n h = Decodes-bind read_string _ _ _ n.name _ (read_string-Decodes n.name h.0) (
      Decodes-bind read_unsigned _ _ _ (length n.transforms) _ (read_unsigned-Decodes _ h.1) (
        Decodes-map (read_onto (length n.transforms) (read_transform atof) []) _ _ _ (
          read_onto-Decodes_map (read_transform atof) put_transform TransformFits
            (transform_of atof) read_transform-Decodes n.transforms [] h.2)))

  read_animation-Decodes :
      (a : Animation Text)
      → AnimationFits a
      → Decodes (read_animation_v1 atof) (put_animation a) (animation_of atof a)
  unfolding read_animation_v1 put_animation
  read_animation-Decodes a h =
      Decodes-bind read_string _ _ _ a.name _ (read_string-Decodes a.name h.name_fits) (
        Decodes-bind (read_float atof) _ _ _ (float_of atof a.duration) _
          (read_float-Decodes a.duration h.duration_fits)
          (Decodes-bind (read_float atof) _ _ _ (float_of atof a.fps) _
            (read_float-Decodes a.fps h.fps_fits)
            (Decodes-bind read_unsigned _ _ _ (length a.nodes) _
              (read_unsigned-Decodes _ h.count_fits)
              (Decodes-map (read_onto (length a.nodes) (read_anim_node_v1 atof) []) _ _ _ (
                read_onto-Decodes_map (read_anim_node_v1 atof) put_node NodeFits (node_of atof)
                  read_node-Decodes a.nodes [] h.nodes_fit)))))

  read_v1-Decodes :
      (c : Contents) (d : NssFileData F)
      → ContentsFit c
      → Decodes
          (read_v1 atof (record (reset d) { version = 1 }))
          (to_bytes 4 c.root_index
            ++ (to_bytes 4 (length c.bones)
                ++ (to_bytes 4 (length c.animations)
                    ++ (put_all put_bone c.bones ++ put_all put_animation c.animations))))
          (skeleton_of atof c)
  unfolding read_v1 skeleton_of
  read_v1-Decodes c d h =
      Decodes-bind read_unsigned _ _ _ c.root_index _ (read_unsigned-Decodes _ h.root_fits) (
        Decodes-bind read_unsigned _ _ _ (length c.bones) _ (read_unsigned-Decodes _ h.bones_count)
          (Decodes-bind read_unsigned _ _ _ (length c.animations) _
            (read_unsigned-Decodes _ h.animations_count)
            (Decodes-bind (read_onto (length c.bones) (read_bone_v1 atof) []) _ _ _
              (map (bone_of atof) c.bones) _
              (read_onto-Decodes_map (read_bone_v1 atof) put_bone BoneFits (bone_of atof)
                read_bone-Decodes c.bones [] h.bones_fit)
              (Decodes-map (read_onto (length c.animations) (read_animation_v1 atof) []) _ _ _ (
                read_onto-Decodes_map (read_animation_v1 atof) put_animation AnimationFits
                  (animation_of atof) read_animation-Decodes c.animations [] h.animations_fit)))))

  -- Loading a skeleton file of version 1 succeeds, whatever follows the file, and leaves its root,
  -- its bones with their children looked up, and its animations, with the floats that the texts
  -- stand for, and nothing of what the object held.
  pub load-put_skeleton :
      (c : Contents) (rest : List ℕ) (d : NssFileData F)
      → ContentsFit c
      → load atof (put_skeleton c ++ rest) d ≡ ok (true, skeleton_of atof c)
  unfolding load load_stream read_versioned read_case put_skeleton reset
  load-put_skeleton c rest d h = rw (
    append_assoc (to_bytes 8 magic_number) _ rest,
    append_assoc (to_bytes 4 1) _ rest,
    read_magic-Decodes magic_number (omega arith) _,
    read_unsigned-Decodes 1 (omega arith) _,
    read_v1-Decodes c d h rest,
  )
