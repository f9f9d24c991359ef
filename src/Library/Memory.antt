-- ===== src/Library/Memory.antt =====
-- src/library/Memory.h: memory of a framework, with its copy on the host. The framework is a
-- parameter, an interface that takes and returns the state of the device. A number that the
-- constructor leaves unset is `none`.
pub mod Offsets
pub mod Host
mod Tests
use kgl.Common.{
  ℕ, ◌+◌, ◌*◌, ◌%◌, ◌^◌, Bool, false, List, ◌++◌, map, Option, none, some, Result, ok, fault,
  dangling, overrun, indeterminate, bind, length, take, drop, replicate, ltb, leb, if◌then◌else◌,
  ◌&&◌, from_option,
}

-- What `Memory` calls of its framework: `createMemory`, with the flags and the filter where they
-- are given, and `free`. `null` is what `nullptr` converts to.
pub record Framework (W H : Type 0) : Type 0 where
  pub null : H
  pub create_memory : ℕ → ℕ → Option ℕ → Option ℕ → W → H × W
  pub free : H → ℕ → W → W

-- The pointer to the copy on the host: null, to a buffer, or to one that has been deleted.
pub data HostData : Type 0 where
  no_data released : HostData
  allocated : List (Option ℕ) → HostData

pub record Memory (H : Type 0) : Type 0 where
  pub dirty_bit : Bool
  pub host_alloc : Bool
  pub host_data : HostData
  pub byte_size : ℕ
  pub mem_offset : ℕ
  pub gpu : Option ℕ
  pub memory_ptr : H

-- `operator+`, on `unsigned`, which wraps.
unfoldable pub offset_by : {H : Type 0} → ℕ → Memory H → Memory H
offset_by offset m =
    let next_offset = (m.mem_offset + offset) % 2 ^ 32 in
    record m { mem_offset = if leb m.byte_size next_offset then m.byte_size else next_offset }

-- `if( data ) delete[] data`
unfoldable pub release : HostData → Result HostData
release no_data = ok no_data
release (allocated bytes) = ok released
release released = fault dangling

-- `memcpy( data, src, n )`
unfoldable pub copy_bytes : ℕ → List ℕ → HostData → Result HostData
copy_bytes n src (allocated bytes) =
    if leb n (length src) && leb n (length bytes)
    then ok (allocated (map some (take n src) ++ drop n bytes))
    else fault overrun
copy_bytes n src no_data = fault dangling
copy_bytes n src released = fault dangling

-- `copyToHost`, of a source of elements of `element_size` bytes. The three offsets are not used.
unfoldable pub copy_to_host :
    {H : Type 0} → ℕ → List ℕ → ℕ → ℕ → ℕ → ℕ → Memory H → Result (Memory H)
copy_to_host element_size src token_amt offset src_offset dstoffset m =
    let amt = if ltb m.byte_size token_amt then m.byte_size else token_amt in
    bind (copy_bytes (amt * element_size % 2 ^ 64) src m.host_data)
      (λ d. ok (record m { host_data = d }))

module _ {W H : Type 0} (impl : Framework W H) where
  -- `Memory()`
  unfoldable pub new_memory : Memory H
  new_memory = record {
    dirty_bit = false;
    host_alloc = false;
    host_data = no_data;
    byte_size = 0;
    mem_offset = 0;
    gpu = none;
    memory_ptr = impl.null;
  }

  -- The four forms of `initialize`. The data stays when none is allocated.
  unfoldable pub initialize : ℕ → ℕ → Option ℕ → Option ℕ → Bool → Memory H → W → Memory H × W
  initialize gpu sz flags filter host_alloc m w =
      let (created, after) = impl.create_memory gpu sz flags filter w in
      (
        record m {
          byte_size = sz;
          gpu = some gpu;
          memory_ptr = created;
          host_data = if host_alloc then allocated (replicate sz none) else m.host_data;
        },
        after,
      )

  -- The pointer to the data is not set to null.
  unfoldable pub deallocate : Memory H → W → Result (Memory H × W)
  deallocate m w = bind (release m.host_data) λ d.
      bind (from_option ok (fault indeterminate) m.gpu)
        λ gpu. ok (record m { host_data = d }, impl.free m.memory_ptr gpu w)
