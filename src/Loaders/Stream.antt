-- ===== src/Loaders/Stream.antt =====
-- The reading half of `std::stringstream`, and the readers that every file class of loaders/
-- defines over it: readUnsigned, readInteger, readCharacter, readMagic, readBytes, readString and
-- readSpirv. A read of more bytes than are left takes those that are left and fails the stream;
-- a failed stream yields nothing any more. A local that `read` has not filled is indeterminate,
-- and its use is the fault `indeterminate`. Bytes of a heap buffer that were not filled are `none`.
pub mod Codec
pub mod Consumes
pub mod Words
pub mod Loops
pub mod Buffers
pub mod Yields
use kgl.Common.{
  ℕ, zero, suc, ◌-◌, ◌*◌, Bool, true, false, List, [], ◌∷◌, ◌++◌, Option, none, some, map,
  if◌then◌else◌, leb, ◌==◌, length, take, drop, replicate, Result, ok, fault, indeterminate, bind,
}
use kgl.Common.Words.{of_bytes}

pub record Stream : Type 0 where
  pub bytes : List ℕ
  pub failed : Bool

abbrev pub fresh : List ℕ → Stream
fresh bs = record { bytes = bs; failed = false }

-- `stream.read( buffer, n )`: what is stored at the front of the buffer, and the stream after it.
unfoldable pub read : ℕ → Stream → List ℕ × Stream
read n s =
    if s.failed
    then ([], s)
    else if leb n (length s.bytes)
    then (take n s.bytes, fresh (drop n s.bytes))
    else (s.bytes, record { bytes = []; failed = true })

-- A computation over the stream, which may run into undefined behaviour.
abbrev pub M : Type 0 → Type 0
M A = Stream → Result (A × Stream)

module _ {A B : Type 0} where
  infixl 5 ◌>>=◌
  abbrev pub ◌>>=◌ : M A → (A → M B) → M B
  ◌>>=◌ m f s = bind (m s) (λ (a, s'). f a s')

abbrev pub pure : {A : Type 0} → A → M A
pure a s = ok (a, s)

-- A pure step that may itself meet a fault.
abbrev pub lift : {A : Type 0} → Result A → M A
lift r s = bind r (λ a. ok (a, s))

-- A little-endian word of n bytes read into an uninitialised local, which is then returned.
unfoldable pub read_word : ℕ → M ℕ
read_word n s =
    let got = (read n s).0 in
    if length got == n then ok (of_bytes got, (read n s).1) else fault indeterminate

unfoldable pub read_unsigned : M ℕ
read_unsigned = read_word 4

unfoldable pub read_character : M ℕ
read_character = read_word 1

unfoldable pub read_magic : M ℕ
read_magic = read_word 8

-- The string is resized with zeros before the bytes are read over them.
unfoldable pub read_string : M (List ℕ)
read_string = do
  sz ← read_unsigned
  λ s. let got = (read sz s).0 in ok (got ++ replicate (sz - length got) 0, (read sz s).1)

-- A new buffer of `size` bytes, filled as far as the stream reaches.
unfoldable pub read_bytes : ℕ → M (List (Option ℕ))
read_bytes size s =
    let got = (read size s).0 in
    ok (map some got ++ replicate (size - length got) none, (read size s).1)

-- `buffer[ 0 .. n )` copied out as words of four bytes: the bytes must all be filled.
unfoldable pub filled : List (Option ℕ) → Result (List ℕ)
filled [] = ok []
filled (none ∷ cells) = fault indeterminate
filled (some b ∷ cells) = bind (filled cells) (λ bs. ok (b ∷ bs))

unfoldable pub words_of : ℕ → List (Option ℕ) → Result (List ℕ)
words_of zero cells = ok []
words_of (suc n) cells =
    bind (filled (take 4 cells)) λ bs. bind (words_of n (drop 4 cells)) λ ws. ok (of_bytes bs ∷ ws)

-- `for( i = 0 ; i < n ; i++ ) out.push_back( read( stream ) )`. It is also what is left in a vector
-- that is cleared, resized to n and then assigned to from front to back.
unfoldable pub read_onto : {A : Type 0} → ℕ → M A → List A → M (List A)
read_onto zero m out = pure out
read_onto (suc n) m out = do a ← m; read_onto n m (out ++ a ∷ [])

-- `readSpirv` or `readBytes`, and the words then copied out of the buffer.
unfoldable pub read_words : ℕ → M (List ℕ)
read_words n = do buffer ← read_bytes (n * 4); lift (words_of n buffer)

-- `c_str()`: the bytes before the first that is zero.
unfoldable pub c_str : List ℕ → List ℕ
c_str [] = []
c_str (b ∷ bs) = let rest = c_str bs in if b == 0 then [] else b ∷ rest
