-- ===== src/Loaders/Ngt/Image.antt =====
-- What a load of a texture leaves in the object.
use kgl.Common.{
  ℕ, ◌-◌, ◌≡◌, refl, Bool, true, false, List, ◌++◌, none, some, ok, bind-eq-ok, ◌==◌, Bool-cases,
  inl, inr, map, length, replicate, take, ok_value, arith,
}
use mathlib.Core.Path.{subst}
use kgl.Common.Words.{IsU32, to_bytes}
use kgl.Loaders.Stream.{pure, fresh, read_unsigned, read_magic, read_bytes}
use kgl.Loaders.Stream.Codec.{read_unsigned-Decodes, read_magic-Decodes}
use kgl.Loaders.Stream.Buffers.{read_bytes-fresh}
use kgl.Loaders.Stream.Yields.{Yields, Yields-bind, Yields-then, Yields-pure, read_bytes-Yields}
use kgl.Loaders.Ngt.{
  magic_number, NgtFileData, reset, image_size, read_v1, read_case, read_versioned, load_stream,
  load,
}

-- The image has the size that the dimensions give in `unsigned`.
abbrev pub IsSized : NgtFileData → Type 0
IsSized d = length d.bytes ≡ image_size d.width d.height d.channels

read_v1-IsSized : (d : NgtFileData) → Yields (read_v1 d) IsSized
unfolding read_v1
read_v1-IsSized d = Yields-then read_unsigned _ IsSized λ width.
    Yields-then read_unsigned _ IsSized λ height. Yields-then read_unsigned _ IsSized λ channels.
      Yields-bind (read_bytes (image_size width height channels)) _ _ IsSized
        (read_bytes-Yields (image_size width height channels))
        λ buffer size. Yields-pure _ IsSized size

read_case-IsSized :
    (version : ℕ) (d : NgtFileData) → IsSized d → Yields (read_case version d) IsSized
unfolding read_case
read_case-IsSized version d h = elim (Bool-cases (version == 1)) [
  | inl one ↦ rw one (read_v1-IsSized d)
  | inr other ↦ rw other (Yields-pure d IsSized h)
]

read_versioned-IsSized :
    (d : NgtFileData) → IsSized d → Yields (read_versioned d) (λ r. IsSized r.1)
unfolding read_versioned
read_versioned-IsSized d h = Yields-then read_unsigned _ _ λ version.
    let d' = record d { version = some version } in
    Yields-bind (read_case version d') (λ e. pure (true, e)) IsSized _
      (read_case-IsSized version d' h) λ e sized. Yields-pure (true, e) (λ r. IsSized r.1) sized

reset-IsSized : (d : NgtFileData) → IsSized (reset d)
unfolding reset
reset-IsSized d = refl

load_stream-IsSized : (d : NgtFileData) → Yields (load_stream (reset d)) (λ r. IsSized r.1)
unfolding load_stream
load_stream-IsSized d = Yields-then read_magic _ _ λ magic.
    elim (Bool-cases (magic == magic_number)) [
      | inl same ↦ rw same (read_versioned-IsSized (reset d) (reset-IsSized d))
      | inr other ↦ rw other (Yields-pure (false, reset d) (λ r. IsSized r.1) (reset-IsSized d))
    ]

-- However a load ends that returns, the image has as many bytes as the product of the dimensions
-- in `unsigned`, which wraps.
pub load-IsSized :
    (bytes : List ℕ) (d : NgtFileData) {b : Bool} {d' : NgtFileData}
    → load bytes d ≡ ok (b, d')
    → IsSized d'
unfolding load
load-IsSized bytes d {b} {d'} e =
    let (p, streamed, same) = bind-eq-ok (load_stream (reset d) (fresh bytes)) (λ (r, s). ok r) e in
    subst (λ r. IsSized r.1) (ok_value same) (load_stream-IsSized d (fresh bytes) p.1 p.0 streamed)

-- A file of version 1: the dimensions, and the pixels that there are.
unfoldable pub put_image : ℕ → ℕ → ℕ → List ℕ → List ℕ
put_image width height channels pixels =
    to_bytes 8 magic_number
    ++ (to_bytes 4 1
        ++ (to_bytes 4 width ++ (to_bytes 4 height ++ (to_bytes 4 channels ++ pixels))))

-- A file of version 1 is loaded with `true` however many pixels it has: those that fit are in the
-- image in order, those that lack are left indeterminate, and those that are too many are dropped.
pub load-put_image :
    (width height channels : ℕ) (pixels : List ℕ) (d : NgtFileData)
    → IsU32 width
    → IsU32 height
    → IsU32 channels
    → let n = image_size width height channels in
      load (put_image width height channels pixels) d
      ≡ ok (
        true,
        record {
          width = width;
          height = height;
          channels = channels;
          element_size = 1;
          version = some 1;
          bytes = map some (take n pixels) ++ replicate (n - length (take n pixels)) none;
        },
      )
unfolding load load_stream read_versioned read_case read_v1 reset put_image
load-put_image width height channels pixels d hw hh hc =
    let n = image_size width height channels in
    rw (
      read_magic-Decodes magic_number (omega arith) _,
      read_unsigned-Decodes 1 (omega arith) _,
      read_unsigned-Decodes width hw _,
      read_unsigned-Decodes height hh _,
      read_unsigned-Decodes channels hc pixels,
      read_bytes-fresh n pixels,
    )
