-- ===== src/Library/Memory/Tests.antt =====
-- The theorems on memory at a framework whose state is the number of handles that it has given.
use kgl.Common.{◌^◌, ◌-◌, ℕ, ◌≡◌, refl, false, [], ◌∷◌, none, some, ok, fault, overrun, arith, suc}
use kgl.Library.Memory.{Framework, Memory, allocated, offset_by, copy_to_host}
use kgl.Library.Memory.Offsets.{offset_by_all, offset_by_all_lem}
use kgl.Library.Memory.Host.{copy_to_host_bytes, copy_to_host_overrun}

abbrev counting : Framework ℕ ℕ
counting = record {
  null = 0;
  create_memory = λ gpu sz flags filter w. (suc w, suc w);
  free = λ memory gpu w. w;
}

abbrev four_bytes : Memory ℕ
four_bytes = record {
  dirty_bit = false;
  host_alloc = false;
  host_data = allocated (none ∷ none ∷ none ∷ none ∷ []);
  byte_size = 4;
  mem_offset = 1;
  gpu = some 0;
  memory_ptr = 1;
}

offset_by_all_lem_example :
    offset_by_all (1 ∷ 1 ∷ 9 ∷ []) four_bytes ≡ record four_bytes { mem_offset = 4 }
offset_by_all_lem_example = offset_by_all_lem 1 (1 ∷ 9 ∷ []) four_bytes (omega arith)

-- A sum that wraps goes back into the memory.
wraps : (offset_by (2 ^ 32 - 1) four_bytes).mem_offset ≡ 0
unfolding offset_by
wraps = refl

copy_to_host_bytes_example :
    copy_to_host 1 (7 ∷ 8 ∷ 9 ∷ []) 2 3 1 2 four_bytes
    ≡ ok (record four_bytes { host_data = allocated (some 7 ∷ some 8 ∷ none ∷ none ∷ []) })
copy_to_host_bytes_example =
    copy_to_host_bytes four_bytes (none ∷ none ∷ none ∷ none ∷ []) (7 ∷ 8 ∷ 9 ∷ []) 2 3 1 2 refl
      refl (omega arith) (omega arith)

copy_to_host_overrun_example : copy_to_host 4 (7 ∷ 8 ∷ 9 ∷ []) 4 0 0 0 four_bytes ≡ fault overrun
copy_to_host_overrun_example =
    copy_to_host_overrun four_bytes (none ∷ none ∷ none ∷ none ∷ []) (7 ∷ 8 ∷ 9 ∷ []) 4 4 0 0 0 refl
      refl (omega arith) (omega arith) (omega arith) (omega arith)
