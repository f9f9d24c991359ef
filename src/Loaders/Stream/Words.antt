-- ===== src/Loaders/Stream/Words.antt =====
-- What the readers of words and strings take from the stream.
use kgl.Common.{
  ℕ, suc, ◌<◌, ◌^◌, ◌-◌, ◌≡◌, refl, sym, ap, ◌∙◌, false, List, ◌++◌, arith, append-nil, ◌==◌,
  Bool-cases, ==_iff, length, All, ok, inl, inr, replicate,
}
use mathlib.Core.Path.{subst}
use kgl.Common.Words.{IsByte, IsU32, to_bytes, of_bytes, to_bytes-of_bytes, of_bytes-lt}
use kgl.Loaders.Stream.{
  Stream, read, M, read_word, read_unsigned, read_string, read_magic, read_character,
}
use kgl.Loaders.Stream.Codec.{put_string}
use kgl.Loaders.Stream.Consumes.{
  Consumes, IsStrict, Consumes-bind, Consumes-mono, ok_inj, read-Taken, read-All,
}

abbrev pub IsWord : ℕ → ℕ → List ℕ → Type 0
IsWord k v u = (u ≡ to_bytes k v) × (v < 256 ^ k)

module _ (k : ℕ) (s s' : Stream) (v : ℕ) where
  read_word_inv :
      read_word k s ≡ ok (v, s')
      → (length (read k s).0 ≡ k) × (of_bytes (read k s).0 ≡ v) × ((read k s).1 ≡ s')
  unfolding read_word
  read_word_inv e = elim (Bool-cases (length (read k s).0 == k)) [
    | inl whole ↦ let (p, q) = ok_inj (rw whole at e) in ((==_iff _ k).0 whole, p, q)
    | inr short ↦ absurd (cc (rw (short, read_word) at e))
  ]

IsWord-of_bytes :
    (k v : ℕ) (bs : List ℕ) → All IsByte bs → length bs ≡ k → of_bytes bs ≡ v → IsWord k v bs
IsWord-of_bytes k v bs h p q = rw (← p, ← q) (sym (to_bytes-of_bytes bs h), of_bytes-lt bs h)

pub read_word-Consumes : (k : ℕ) → Consumes (read_word k) (IsWord k)
read_word-Consumes k s s' v bytes e =
    let (size, value, left) = read_word_inv k s s' v e in
    let (got, rest) = read-All k s bytes in
    let instance_of = λ (live : s'.failed ≡ false). read-Taken k s (rw left live) in
    (
      subst (λ t. All IsByte t.bytes) left rest,
      λ live. record {
        live = (instance_of live).live;
        used = (read k s).0;
        splits = (instance_of live).splits ∙ ap (λ t. (read k s).0 ++ t.bytes) left;
        holds = IsWord-of_bytes k v _ got size value;
      },
    )

read_some :
    (k : ℕ) (s : Stream) → length (read (suc k) s).0 ≡ suc k → (read (suc k) s).1.failed ≡ false
unfolding read
read_some k s h = ground arith

pub read_word-IsStrict : (k : ℕ) → IsStrict (read_word (suc k))
read_word-IsStrict k s s' v e =
    let (size, value, left) = read_word_inv (suc k) s s' v e in rw (← left) (read_some k s size)

pub read_unsigned-Consumes : Consumes read_unsigned (IsWord 4)
unfolding read_unsigned
read_unsigned-Consumes = read_word-Consumes 4

pub read_unsigned-IsStrict : IsStrict read_unsigned
unfolding read_unsigned
read_unsigned-IsStrict = read_word-IsStrict 3

pub read_magic-Consumes : Consumes read_magic (IsWord 8)
unfolding read_magic
read_magic-Consumes = read_word-Consumes 8

pub read_magic-IsStrict : IsStrict read_magic
unfolding read_magic
read_magic-IsStrict = read_word-IsStrict 7

pub read_character-Consumes : Consumes read_character (IsWord 1)
unfolding read_character
read_character-Consumes = read_word-Consumes 1

-- A string is stored as its length in a word of four bytes, and then its bytes.
abbrev pub IsString : List ℕ → List ℕ → Type 0
IsString str u = (u ≡ put_string str) × IsU32 (length str)

-- The second half of `read_string`, on a buffer of `sz` bytes that starts as zeros.
abbrev read_text : ℕ → M (List ℕ)
read_text sz s = ok ((read sz s).0 ++ replicate (sz - length (read sz s).0) 0, (read sz s).1)

pad_none : (bs : List ℕ) (n : ℕ) → length bs ≡ n → bs ++ replicate (n - length bs) 0 ≡ bs
pad_none bs n h = let none_left : n - length bs ≡ 0 = omega arith in rw (none_left, append-nil bs)

read_text-Consumes : (sz : ℕ) → Consumes (read_text sz) (λ str u. (str ≡ u) × (length u ≡ sz))
read_text-Consumes sz s s' str bytes e =
    let (text, left) = ok_inj e in
    let (got, rest) = read-All sz s bytes in
    let taken = λ (live : s'.failed ≡ false). read-Taken sz s (rw left live) in
    (
      subst (λ t. All IsByte t.bytes) left rest,
      λ live. record {
        live = (taken live).live;
        used = (read sz s).0;
        splits = (taken live).splits ∙ ap (λ t. (read sz s).0 ++ t.bytes) left;
        holds = (sym text ∙ pad_none _ sz (taken live).exact, (taken live).exact);
      },
    )

IsString-join :
    (sz : ℕ) (u v str : List ℕ) → IsWord 4 sz u → str ≡ v → length v ≡ sz → IsString str (u ++ v)
unfolding put_string
IsString-join sz u v str (p, q) r h = rw (r, h, p) (refl, q)

pub read_string-Consumes : Consumes read_string IsString
unfolding read_string
read_string-Consumes =
    Consumes-bind read_unsigned read_text (IsWord 4) IsString read_unsigned-Consumes (λ sz.
      Consumes-mono (read_text sz) _ _ (read_text-Consumes sz)
        (λ str v h u w. IsString-join sz u v str w h.0 h.1))
