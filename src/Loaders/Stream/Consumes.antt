-- ===== src/Loaders/Stream/Consumes.antt =====
-- `Consumes m R`: when `m` returns `a` from a stream of bytes and the stream has not failed, then
-- it had not failed before, and `R a` holds of the bytes that were taken. `IsStrict m`: when `m`
-- returns, the stream has not failed. Both with their rules for bind.
use kgl.Common.{
  ℕ, ◌≡◌, sym, ap, ◌∙◌, false, List, [], ◌++◌, append_assoc, arith, leb, Bool-cases, leb→le, length,
  All, take-append-drop, length-take, ok, bind-eq-ok, All-take, All-drop, inl, inr, Result,
}
use mathlib.Core.Path.{subst}
use kgl.Common.Words.{IsByte}
use kgl.Loaders.Stream.{Stream, read, M, ◌>>=◌, pure}

pub record Consumed {A : Type 0} (R : A → List ℕ → Type 0) (s : Stream) (a : A) (s' : Stream)
    : Type 0 where
  pub live : s.failed ≡ false
  pub used : List ℕ
  pub splits : s.bytes ≡ used ++ s'.bytes
  pub holds : R a used

abbrev pub Consumes : {A : Type 0} → M A → (A → List ℕ → Type 0) → Type 0
Consumes {A} m R =
    (s s' : Stream) (a : A)
    → All IsByte s.bytes
    → m s ≡ ok (a, s')
    → All IsByte s'.bytes × (s'.failed ≡ false → Consumed R s a s')

abbrev pub IsStrict : {A : Type 0} → M A → Type 0
IsStrict {A} m = (s s' : Stream) (a : A) → m s ≡ ok (a, s') → s'.failed ≡ false

abbrev pub KeepsLive : {A : Type 0} → M A → Type 0
KeepsLive {A} m = (s s' : Stream) (a : A) → s.failed ≡ false → m s ≡ ok (a, s') → s'.failed ≡ false

module _ {A B : Type 0} where
  Consumed-join :
      (R : A → List ℕ → Type 0) (S : B → List ℕ → Type 0) (s t s' : Stream) (a : A) (b : B)
      → Consumed R s a t
      → Consumed (λ b v. (u : List ℕ) → R a u → S b (u ++ v)) t b s'
      → Consumed S s b s'
  Consumed-join R S s t s' a b c d = record {
    live = c.live;
    used = c.used ++ d.used;
    splits = c.splits ∙ ap (λ v. c.used ++ v) d.splits ∙ sym (append_assoc c.used d.used s'.bytes);
    holds = d.holds c.used c.holds;
  }

  pub Consumes-bind :
      (m : M A) (f : A → M B) (R : A → List ℕ → Type 0) (S : B → List ℕ → Type 0)
      → Consumes m R
      → ((a : A) → Consumes (f a) (λ b v. (u : List ℕ) → R a u → S b (u ++ v)))
      → Consumes (m >>= f) S
  Consumes-bind m f R S hm hf s s' b bytes e =
      let (p, first, second) = bind-eq-ok (m s) (λ (a, t). f a t) e in
      let (left, early) = hm s p.1 p.0 bytes first in
      let (last, late) = hf p.0 p.1 s' b left second in
      (last, λ live. Consumed-join R S s p.1 s' p.0 b (early (late live).live) (late live))

  pub IsStrict-bind : (m : M A) (f : A → M B) → ((a : A) → IsStrict (f a)) → IsStrict (m >>= f)
  IsStrict-bind m f hf s s' b e =
      let (p, first, second) = bind-eq-ok (m s) (λ (a, t). f a t) e in hf p.0 p.1 s' b second

  pub IsStrict-then :
      (m : M A) (f : A → M B) → IsStrict m → ((a : A) → KeepsLive (f a)) → IsStrict (m >>= f)
  IsStrict-then m f hm hf s s' b e =
      let (p, first, second) = bind-eq-ok (m s) (λ (a, t). f a t) e in
      hf p.0 p.1 s' b (hm s p.1 p.0 first) second

  pub KeepsLive-bind :
      (m : M A) (f : A → M B) → KeepsLive m → ((a : A) → KeepsLive (f a)) → KeepsLive (m >>= f)
  KeepsLive-bind m f hm hf s s' b live e =
      let (p, first, second) = bind-eq-ok (m s) (λ (a, t). f a t) e in
      hf p.0 p.1 s' b (hm s p.1 p.0 live first) second

pub Consumes-mono :
    {A : Type 0} (m : M A) (R S : A → List ℕ → Type 0)
    → Consumes m R
    → ((a : A) (u : List ℕ) → R a u → S a u)
    → Consumes m S
Consumes-mono m R S h k s s' a bytes e =
    let (left, c) = h s s' a bytes e in
    (
      left,
      λ live. record {
        live = (c live).live;
        used = (c live).used;
        splits = (c live).splits;
        holds = k a (c live).used (c live).holds;
      },
    )

pub IsStrict-KeepsLive : {A : Type 0} (m : M A) → IsStrict m → KeepsLive m
IsStrict-KeepsLive m h s s' a live e = h s s' a e

pub KeepsLive-pure : {A : Type 0} (a : A) → KeepsLive (pure a)
KeepsLive-pure a s s' b live e = ground arith

pub ok_inj :
    {A : Type 0} {a b : A} {s t : Stream}
    → ◌≡◌ {A = Result (A × Stream)} (ok (a, s)) (ok (b, t))
    → (a ≡ b) × (s ≡ t)
ok_inj e = (cc, cc)

pub Consumes-pure : {A : Type 0} (a : A) (S : A → List ℕ → Type 0) → S a [] → Consumes (pure a) S
Consumes-pure a S h s s' b bytes e =
    let (p, q) = ok_inj e in
    (
      subst (λ t. All IsByte t.bytes) q bytes,
      λ live. record {
        live = rw q live;
        used = [];
        splits = ap (λ (t : Stream). t.bytes) q;
        holds = subst (λ c. S c []) p h;
      },
    )

-- A read that leaves the stream good has taken exactly n bytes.
pub record Taken (n : ℕ) (s : Stream) : Type 0 where
  pub live : s.failed ≡ false
  pub splits : s.bytes ≡ (read n s).0 ++ (read n s).1.bytes
  pub exact : length (read n s).0 ≡ n

pub read-Taken : (n : ℕ) (s : Stream) → (read n s).1.failed ≡ false → Taken n s
unfolding read
read-Taken n s h = elim (Bool-cases s.failed) [
  | inl dead ↦ absurd (cc (rw (dead, read) at h))
  | inr live ↦ elim (Bool-cases (leb n (length s.bytes))) [
    | inl enough ↦ record {
      live = live;
      splits = rw (live, enough, take-append-drop n s.bytes);
      exact =
          rw (live, enough)
            (omega (arith, length-take n s.bytes, leb→le n (length s.bytes) enough));
    }
    | inr short ↦ absurd (cc (rw (live, short, read) at h))
  ]
]

pub read-All :
    (n : ℕ) (s : Stream)
    → All IsByte s.bytes
    → All IsByte (read n s).0 × All IsByte (read n s).1.bytes
unfolding read
read-All n s h = ground (arith, All-take IsByte n s.bytes h, All-drop IsByte n s.bytes h)
