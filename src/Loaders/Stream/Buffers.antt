-- ===== src/Loaders/Stream/Buffers.antt =====
-- Buffers of words, in both directions.
use kgl.Common.{
  ℕ, zero, suc, ◌*◌, ◌-◌, ◌<◌, ◌^◌, ◌≡◌, refl, sym, ap, ◌∙◌, List, [], ◌∷◌, ◌++◌, arith, append-nil,
  length, All, All-take, All-drop, ok, some, none, map, take, drop, take-append, drop-append,
  take-append-drop, length-append, bind, bind-eq-ok, Option, replicate, length-take, length-drop,
  false,
}
use mathlib.Core.Path.{subst}
use kgl.Common.Words.{
  IsByte, IsU32, to_bytes, of_bytes, length-to_bytes, of_bytes-to_bytes, to_bytes-of_bytes,
  of_bytes-lt,
}
use kgl.Loaders.Stream.{Stream, fresh, read, read_bytes, filled, words_of, read_words}
use kgl.Loaders.Stream.Codec.{Decodes, read_exact, read-fresh}
use kgl.Loaders.Stream.Consumes.{Consumes, read-Taken, read-All, ok_inj}
use kgl.Loaders.Stream.Loops.{put_all}

abbrev pub put_words : List ℕ → List ℕ
put_words = put_all (to_bytes 4)

pub length-put_words : (ws : List ℕ) → length (put_words ws) ≡ length ws * 4
length-put_words [] = omega arith
length-put_words (w ∷ ws) =
    omega
      (arith, length-append (to_bytes 4 w) (put_words ws), length-to_bytes 4 w, length-put_words ws)

pub filled-map : (bs : List ℕ) → filled (map some bs) ≡ ok bs
unfolding filled
filled-map [] = refl
filled-map (b ∷ bs) = rw (filled-map bs)

pub take-map : (n : ℕ) (bs : List ℕ) → take n (map some bs) ≡ map some (take n bs)
take-map zero bs = refl
take-map (suc n) [] = refl
take-map (suc n) (b ∷ bs) = ap (◌∷◌ (some b)) (take-map n bs)

pub drop-map : (n : ℕ) (bs : List ℕ) → drop n (map some bs) ≡ map some (drop n bs)
drop-map zero bs = refl
drop-map (suc n) [] = refl
drop-map (suc n) (b ∷ bs) = drop-map n bs

pub front : (w : ℕ) (bs : List ℕ) → take 4 (to_bytes 4 w ++ bs) ≡ to_bytes 4 w
front w bs =
    subst (λ n. take n (to_bytes 4 w ++ bs) ≡ to_bytes 4 w) (length-to_bytes 4 w)
      (take-append (to_bytes 4 w) bs)

pub back : (w : ℕ) (bs : List ℕ) → drop 4 (to_bytes 4 w ++ bs) ≡ bs
back w bs =
    subst (λ n. drop n (to_bytes 4 w ++ bs) ≡ bs) (length-to_bytes 4 w)
      (drop-append (to_bytes 4 w) bs)

words_of-step :
    (n : ℕ) (bs : List ℕ)
    → words_of (suc n) (map some bs)
      ≡ bind (words_of n (map some (drop 4 bs))) (λ ws. ok (of_bytes (take 4 bs) ∷ ws))
unfolding words_of
words_of-step n bs = rw (take-map 4 bs, drop-map 4 bs, filled-map (take 4 bs))

pub words_of-put_words :
    (ws : List ℕ) → All IsU32 ws → words_of (length ws) (map some (put_words ws)) ≡ ok ws
words_of-put_words [] p = unfold words_of in refl
words_of-put_words (w ∷ ws) p =
    words_of-step (length ws) (to_bytes 4 w ++ put_words ws)
    ∙ rw (
      back w (put_words ws),
      words_of-put_words ws p.1,
      front w (put_words ws),
      of_bytes-to_bytes 4 w p.0,
    )

pub read_bytes-Decodes :
    (bs : List ℕ) (n : ℕ) → length bs ≡ n → Decodes (read_bytes n) bs (map some bs)
unfolding read_bytes
read_bytes-Decodes bs n h rest =
    let full : n - length bs ≡ 0 = omega arith in
    rw (read_exact n bs rest h, full, append-nil (map some bs))

-- The buffer from a good stream, however many bytes it has.
pub read_bytes-fresh :
    (n : ℕ) (bs : List ℕ)
    → read_bytes n (fresh bs)
      ≡ ok (map some (take n bs) ++ replicate (n - length (take n bs)) none, (read n (fresh bs)).1)
unfolding read_bytes
read_bytes-fresh n bs = rw (read-fresh n bs)

pub read_words-Decodes :
    (ws : List ℕ) → All IsU32 ws → Decodes (read_words (length ws)) (put_words ws) ws
unfolding read_words
read_words-Decodes ws p rest = rw (
  read_bytes-Decodes (put_words ws) (length ws * 4) (length-put_words ws) rest,
  words_of-put_words ws p,
)

-- The words `ws`, n of them, are stored in `u`.
abbrev pub IsWords : ℕ → List ℕ → List ℕ → Type 0
IsWords n ws u = (u ≡ put_words ws) × (length ws ≡ n) × All IsU32 ws

IsWords-cons :
    (n : ℕ) (bs ws : List ℕ)
    → length (take 4 bs) ≡ 4
    → All IsByte (take 4 bs)
    → IsWords n ws (drop 4 bs)
    → IsWords (suc n) (of_bytes (take 4 bs) ∷ ws) bs
IsWords-cons n bs ws four p (rest, count, each) =
    let bound : of_bytes (take 4 bs) < 256 ^ 4 = rw four at (of_bytes-lt (take 4 bs) p) in
    let word : to_bytes 4 (of_bytes (take 4 bs)) ≡ take 4 bs =
      rw four at (to_bytes-of_bytes (take 4 bs) p) in
    (sym (take-append-drop 4 bs) ∙ rw (word, rest), ap suc count, (bound, each))

words_of-nil : (bs ws : List ℕ) → length bs ≡ 0 → words_of 0 (map some bs) ≡ ok ws → IsWords 0 ws bs
unfolding words_of
words_of-nil [] [] h e = (refl, refl, tt)
words_of-nil [] (w ∷ ws) h e = absurd (cc)
words_of-nil (b ∷ bs) ws h e = absurd (omega arith)

-- What `words_of` returns on a buffer that is full.
words_of-inv :
    (n : ℕ) (bs ws : List ℕ)
    → length bs ≡ n * 4
    → All IsByte bs
    → words_of n (map some bs) ≡ ok ws
    → IsWords n ws bs
words_of-inv zero bs ws h p e = words_of-nil bs ws (omega arith) e
words_of-inv (suc n) bs ws h p e =
    let (rest, more, done) =
      bind-eq-ok (words_of n (map some (drop 4 bs))) (λ ws. ok (of_bytes (take 4 bs) ∷ ws))
        (sym (words_of-step n bs) ∙ e) in
    let ih =
      words_of-inv n (drop 4 bs) rest (omega (arith, length-drop 4 bs)) (All-drop IsByte 4 bs p)
        more in
    subst (λ v. IsWords (suc n) v bs) {x = of_bytes (take 4 bs) ∷ rest} (cc)
      (IsWords-cons n bs rest (omega (arith, length-take 4 bs)) (All-take IsByte 4 bs p) ih)

-- The buffer of `read_bytes`.
abbrev buffer_of : ℕ → Stream → List (Option ℕ)
buffer_of n s = map some (read n s).0 ++ replicate (n - length (read n s).0) none

read_words_inv :
    (n : ℕ) (s s' : Stream) (ws : List ℕ)
    → read_words n s ≡ ok (ws, s')
    → (words_of n (buffer_of (n * 4) s) ≡ ok ws) × ((read (n * 4) s).1 ≡ s')
unfolding read_words read_bytes
read_words_inv n s s' ws e =
    let (vs, copied, done) =
      bind-eq-ok (words_of n (buffer_of (n * 4) s)) (λ vs. ok (vs, (read (n * 4) s).1)) e in
    let (same, left) = ok_inj done in (copied ∙ ap ok same, left)

full_buffer : (n : ℕ) (s : Stream) → length (read n s).0 ≡ n → buffer_of n s ≡ map some (read n s).0
full_buffer n s h =
    let none_left : n - length (read n s).0 ≡ 0 = omega arith in rw (none_left, append-nil)

pub read_words-Consumes : (n : ℕ) → Consumes (read_words n) (IsWords n)
read_words-Consumes n s s' ws bytes e =
    let (copied, left) = read_words_inv n s s' ws e in
    let (got, rest) = read-All (n * 4) s bytes in
    let taken = λ (live : s'.failed ≡ false). read-Taken (n * 4) s (rw left live) in
    (
      subst (λ t. All IsByte t.bytes) left rest,
      λ live. record {
        live = (taken live).live;
        used = (read (n * 4) s).0;
        splits = (taken live).splits ∙ ap (λ t. (read (n * 4) s).0 ++ t.bytes) left;
        holds =
            words_of-inv n (read (n * 4) s).0 ws (taken live).exact got
              (rw (full_buffer (n * 4) s (taken live).exact) at copied);
      },
    )
