-- ===== src/Library/Memory/Offsets.antt =====
-- Offsets into a memory, which stop at its end.
use kgl.Common.{List, [], ◌∷◌, ◌∙◌, ℕ, ◌+◌, ◌%◌, ◌^◌, ◌<◌, ◌≡◌, ap, leb, if◌then◌else◌, arith}
use Prim.Native.Nat.{min}
use kgl.Library.Memory.{Memory, offset_by}

saturate :
    (size start a b : ℕ)
    → start + (a + b) < 2 ^ 32
    → let once = (if leb size ((start + a) % 2 ^ 32) then size else (start + a) % 2 ^ 32) in
      (if leb size ((once + b) % 2 ^ 32) then size else (once + b) % 2 ^ 32)
      ≡ (if leb size ((start + (a + b)) % 2 ^ 32) then size else (start + (a + b)) % 2 ^ 32)
saturate size start a b h = ground arith

-- The sum of some offsets.
abbrev pub total : List ℕ → ℕ
total [] = 0
total (offset ∷ offsets) = offset + total offsets

-- One offset after the other.
abbrev pub offset_by_all : {H : Type 0} → List ℕ → Memory H → Memory H
offset_by_all [] m = m
offset_by_all (offset ∷ offsets) m = offset_by_all offsets (offset_by offset m)

offset_by-offset_by :
    {H : Type 0} (a b : ℕ) (m : Memory H)
    → m.mem_offset + (a + b) < 2 ^ 32
    → offset_by b (offset_by a m) ≡ offset_by (a + b) m
unfolding offset_by
offset_by-offset_by a b m h =
    ap (λ o. record m { mem_offset = o }) (saturate m.byte_size m.mem_offset a b h)

-- Where the sums do not wrap, an offset and any more after it move the memory as their sum does: to
-- its start and the sum, or to its end when that is before.
pub offset_by_all_lem :
    {H : Type 0} (offset : ℕ) (offsets : List ℕ) (m : Memory H)
    → m.mem_offset + (offset + total offsets) < 2 ^ 32
    → offset_by_all (offset ∷ offsets) m
      ≡ record m { mem_offset = min m.byte_size (m.mem_offset + (offset + total offsets)) }
unfolding offset_by
offset_by_all_lem offset [] m h = ap (λ o. record m { mem_offset = o }) (ground arith)
offset_by_all_lem offset (next ∷ offsets) m h =
    ap (offset_by_all offsets) (offset_by-offset_by offset next m (omega arith))
    ∙ offset_by_all_lem (offset + next) offsets m (omega arith)
    ∙ ap (λ o. record m { mem_offset = o }) (ground arith)
