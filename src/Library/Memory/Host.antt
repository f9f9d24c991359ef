-- ===== src/Library/Memory/Host.antt =====
-- The copy on the host: what `copyToHost` writes, and how the copy is released.
use kgl.Common.{
  ℕ, ◌*◌, ◌%◌, ◌^◌, ◌<◌, ◌≤◌, ◌≡◌, refl, true, false, List, ◌++◌, map, Option, some, ok, fault,
  dangling, overrun, bind, length, take, drop, ltb, leb, le→leb, if◌then◌else◌, arith, Bool-cases,
  inl, inr,
}
use native.Mathlib.Nat.{mul-le-mul_left}
use kgl.Library.Memory.{
  Framework, Memory, allocated, release, copy_bytes, copy_to_host, initialize, deallocate,
}

module _ {W H : Type 0} (impl : Framework W H) where
  -- A memory whose copy on the host was allocated is released once; the pointer stays, and a
  -- second release deletes the buffer again.
  pub deallocate_twice :
      (gpu sz : ℕ) (flags filter : Option ℕ) (m : Memory H) (w : W)
      → let (m', w') = initialize impl gpu sz flags filter true m w in
        bind (deallocate impl m' w') (λ (m'', w''). deallocate impl m'' w'') ≡ fault dangling
  unfolding initialize deallocate release
  deallocate_twice gpu sz flags filter m w = refl

-- The number of elements that `copyToHost` takes.
abbrev pub clamped : ℕ → ℕ → ℕ
clamped byte_size token_amt = if ltb byte_size token_amt then byte_size else token_amt

-- The memory after n bytes of the source have been written over its buffer.
abbrev pub overwritten : {H : Type 0} → ℕ → List ℕ → List (Option ℕ) → Memory H → Memory H
overwritten n src buffer m = record m {
  host_data = allocated (map some (take n src) ++ drop n buffer);
}

more_than_once : (a k : ℕ) → 0 < a → 1 < k → a < a * k
more_than_once a k h l = let two : 2 ≤ k = omega arith in omega (arith, mul-le-mul_left a two)

module _ {H : Type 0} (m : Memory H) (buffer : List (Option ℕ)) (src : List ℕ) where
  -- On a memory of less than 2^32 bytes with a buffer of its size on the host, and a source of bytes
  -- with enough of them, `copyToHost` writes as many as were asked for, or as the memory has, and
  -- keeps the rest. They come from the start of the source and go to the start of the buffer,
  -- whatever the offsets are.
  pub copy_to_host_bytes :
      (token_amt offset src_offset dstoffset : ℕ)
      → m.host_data ≡ allocated buffer
      → length buffer ≡ m.byte_size
      → m.byte_size < 2 ^ 32
      → clamped m.byte_size token_amt ≤ length src
      → copy_to_host 1 src token_amt offset src_offset dstoffset m
        ≡ ok (overwritten (clamped m.byte_size token_amt) src buffer m)
  unfolding copy_to_host copy_bytes
  copy_to_host_bytes n offset src_offset dstoffset d l s h =
      let same : clamped m.byte_size n * 1 % 2 ^ 64 ≡ clamped m.byte_size n = ground arith in
      let in_src = le→leb (clamped m.byte_size n) (length src) h in
      let in_buffer : leb (clamped m.byte_size n) (length buffer) ≡ true = ground arith in
      rw (d, same, in_src, in_buffer)

  -- On a memory that is not empty, with a buffer of its size on the host, a source of larger elements
  -- than bytes, of which at least as many are asked for as the memory has bytes, is written past the
  -- end of the buffer, whatever the offsets are, as long as the size of the copy fits 64 bits.
  pub copy_to_host_overrun :
      (element_size token_amt offset src_offset dstoffset : ℕ)
      → m.host_data ≡ allocated buffer
      → length buffer ≡ m.byte_size
      → 0 < m.byte_size
      → m.byte_size ≤ token_amt
      → 1 < element_size
      → m.byte_size * element_size < 2 ^ 64
      → copy_to_host element_size src token_amt offset src_offset dstoffset m ≡ fault overrun
  unfolding copy_to_host copy_bytes
  copy_to_host_overrun k n offset src_offset dstoffset d l pos all wide fits =
      let amt : clamped m.byte_size n ≡ m.byte_size = ground arith in
      let same : m.byte_size * k % 2 ^ 64 ≡ m.byte_size * k = omega arith in
      let past : leb (m.byte_size * k) (length buffer) ≡ false =
        ground (arith, more_than_once m.byte_size k pos wide) in
      rw (d, amt, same, past)
        (elim (Bool-cases (leb (m.byte_size * k) (length src))) [
          | inl enough ↦ rw enough refl
          | inr short ↦ rw short refl
        ])
