-- ===== src/Vkg/Device/Pools.antt =====
-- The queues that a device hands out, against a description without the pools of its families.
use kgl.Common.{
  ℕ, zero, suc, ◌+◌, ◌≤◌, ◌<◌, ◌≡◌, refl, sym, ap, ◌∙◌, false, if◌then◌else◌, ltb, List, [], ◌∷◌,
  ◌++◌, map, some, Result, ok, length, index-some, get_elem?, ltb→lt, All, arith, Bool-cases, inl,
  inr, length-append,
}
use mathlib.Core.Path.{subst}
use kgl.Vkg.Queue.{Queue, new_queue, initialize}
use kgl.Vkg.Device.{
  Driver, Properties, QueueFamily, Request, fits, make_queue, first_queue, queues_for,
  find_queue_families,
}

abbrev pub props : List QueueFamily → List Properties
props = map (λ f. f.prop)

abbrev HasQueues : List QueueFamily → Type 0
HasQueues = All (λ f. 0 < f.prop.queue_count)

first_stays :
    (xs ys : List Queue) (q : Queue) → get_elem? xs 0 ≡ some q → get_elem? (xs ++ ys) 0 ≡ some q
first_stays [] ys q h = absurd (cc)
first_stays (x ∷ xs) ys q h = h

module _ (vk : Driver) (device : ℕ) where
  -- The queue of a family at a place.
  abbrev pub queue_at : Properties → ℕ → Queue
  queue_at p i = initialize device (vk.get_queue p.family i) p.family p.queue_flags

  -- The first queues of a family.
  abbrev pub pool : Properties → ℕ → List Queue
  pool p zero = []
  pool p (suc n) = pool p n ++ queue_at p n ∷ []

  -- The pool of a family holds its first queues, and no more than it has.
  pub record IsPool (f : QueueFamily) : Type 0 where
    pub made : ℕ
    pub queues : f.queues ≡ pool f.prop made
    pub bound : made ≤ f.prop.queue_count

  -- The answer to a request: the first queue of the first family that fits, or the dummy.
  abbrev pub answer : Request → List Properties → Queue
  answer r [] = new_queue
  answer r (p ∷ ps) = if fits vk device r p then queue_at p 0 else answer r ps

  length-pool : (p : Properties) (n : ℕ) → length (pool p n) ≡ n
  length-pool p zero = refl
  length-pool p (suc n) =
      omega (arith, length-append (pool p n) (queue_at p n ∷ []), length-pool p n)

  get_elem?-pool : (p : Properties) (n : ℕ) → get_elem? (pool p (suc n)) 0 ≡ some (queue_at p 0)
  get_elem?-pool p zero = refl
  get_elem?-pool p (suc n) = first_stays (pool p (suc n)) _ _ (get_elem?-pool p n)

  pub record Made (f : QueueFamily) (r : Result (Queue × QueueFamily)) : Type 0 where
    pub after : QueueFamily
    pub returned : r ≡ ok (queue_at f.prop 0, after)
    pub is_pool : IsPool after
    pub same : after.prop ≡ f.prop

  full_pool :
      (p : Properties) (n : ℕ)
      → n ≤ p.queue_count
      → 0 < p.queue_count
      → ltb n p.queue_count ≡ false
      → let f : QueueFamily = record { prop = p; queues = pool p n } in
        Made f (make_queue vk device f)
  unfolding make_queue
  full_pool p zero bound some_queue full = absurd (ground arith)
  full_pool p (suc n) bound some_queue full =
      rw (length-pool p (suc n), full)
        record {
          after = record { prop = p; queues = pool p (suc n) };
          returned = rw (index-some (pool p (suc n)) 0 (queue_at p 0) (get_elem?-pool p n)) refl;
          is_pool = record { made = suc n; queues = refl; bound = bound };
          same = refl;
        }

  pool_with_room :
      (p : Properties) (n : ℕ)
      → n ≤ p.queue_count
      → 0 < p.queue_count
      → let f : QueueFamily = record { prop = p; queues = pool p n } in
        Made f (make_queue vk device f)
  unfolding make_queue
  pool_with_room p n bound some_queue = elim (Bool-cases (ltb n p.queue_count)) [
    | inl room ↦
        rw (length-pool p n, room)
          record {
            after = record { prop = p; queues = pool p (suc n) };
            returned = rw (index-some (pool p (suc n)) 0 (queue_at p 0) (get_elem?-pool p n)) refl;
            is_pool = record {
              made = suc n;
              queues = refl;
              bound = omega (arith, ltb→lt n p.queue_count room);
            };
            same = refl;
          }
    | inr full ↦ full_pool p n bound some_queue full
  ]

  make_queue-Made :
      (f : QueueFamily) → IsPool f → 0 < f.prop.queue_count → Made f (make_queue vk device f)
  make_queue-Made f i some_queue =
      subst
        (λ qs.
          let f' : QueueFamily = record { prop = f.prop; queues = qs } in
          Made f' (make_queue vk device f'))
        (sym i.queues) (pool_with_room f.prop i.made i.bound some_queue)

  abbrev ArePools : List QueueFamily → Type 0
  ArePools = All IsPool

  -- One answer, after which the families are as they were but for their pools.
  record Answered (fs : List QueueFamily) (q : Queue) (r : Result (Queue × List QueueFamily))
      : Type 0 where
    after : List QueueFamily
    returned : r ≡ ok (q, after)
    are_pools : ArePools after
    same : props after ≡ props fs

  first_queue-Answered :
      (r : Request) (fs : List QueueFamily)
      → ArePools fs
      → HasQueues fs
      → Answered fs (answer r (props fs)) (first_queue vk device r fs)
  unfolding first_queue
  first_queue-Answered r [] i h = record {
    after = [];
    returned = refl;
    are_pools = tt;
    same = refl;
  }
  first_queue-Answered r (f ∷ fs) i h = elim (Bool-cases (fits vk device r f.prop)) [
    | inl here ↦
        let m = make_queue-Made f i.0 h.0 in
        rw (here, m.returned)
          record {
            after = m.after ∷ fs;
            returned = refl;
            are_pools = (m.is_pool, i.1);
            same = ap (λ p. p ∷ props fs) m.same;
          }
    | inr further ↦
        let later = first_queue-Answered r fs i.1 h.1 in
        rw (further, later.returned)
          record {
            after = f ∷ later.after;
            returned = refl;
            are_pools = (i.0, later.are_pools);
            same = ap (◌∷◌ f.prop) later.same;
          }
  ]

  HasQueues-same : (fs gs : List QueueFamily) → props fs ≡ props gs → HasQueues gs → HasQueues fs
  HasQueues-same [] gs same h = tt
  HasQueues-same (f ∷ fs) [] same h = absurd (cc)
  HasQueues-same (f ∷ fs) (g ∷ gs) same h =
      let e : g.prop ≡ f.prop = cc in
      (subst (λ (p : Properties). 0 < p.queue_count) e h.0, HasQueues-same fs gs (cc) h.1)

  pub record AllAnswered (fs : List QueueFamily) (qs : List Queue)
      (r : Result (List Queue × List QueueFamily)) : Type 0 where
    pub after : List QueueFamily
    pub returned : r ≡ ok (qs, after)
    pub are_pools : ArePools after
    pub same : props after ≡ props fs

  queues_for-AllAnswered :
      (rs : List Request) (fs : List QueueFamily)
      → ArePools fs
      → HasQueues fs
      → AllAnswered fs (map (λ r. answer r (props fs)) rs) (queues_for vk device rs fs)
  unfolding queues_for
  queues_for-AllAnswered [] fs i h = record {
    after = fs;
    returned = refl;
    are_pools = i;
    same = refl;
  }
  queues_for-AllAnswered (r ∷ rs) fs i h =
      let one = first_queue-Answered r fs i h in
      let rest =
        queues_for-AllAnswered rs one.after one.are_pools
          (HasQueues-same one.after fs one.same h) in
      rw (one.returned, rest.returned)
        record {
          after = rest.after;
          returned = rw one.same refl;
          are_pools = rest.are_pools;
          same = rest.same ∙ one.same;
        }

  new_pools : (id : ℕ) (properties : List (ℕ × ℕ)) → ArePools (find_queue_families id properties)
  unfolding find_queue_families
  new_pools id [] = tt
  new_pools id (p ∷ properties) =
      (record { made = 0; queues = refl; bound = omega arith }, new_pools (id + 1) properties)

  new_have_queues :
      (id : ℕ) (properties : List (ℕ × ℕ))
      → All (λ p. 0 < p.1) properties
      → HasQueues (find_queue_families id properties)
  unfolding find_queue_families
  new_have_queues id [] h = tt
  new_have_queues id (p ∷ properties) h = (h.0, new_have_queues (id + 1) properties h.1)

-- When every family of the device has a queue, any requests for queues succeed. Each is answered by
-- the first queue of the first family that fits it, or by the dummy when none does: the requests
-- before it make no difference. The pool of each family then holds its first queues, at most as
-- many as it has.
pub queues_for_lem :
    (vk : Driver) (device : ℕ) (properties : List (ℕ × ℕ)) (rs : List Request)
    → All (λ p. 0 < p.1) properties
    → AllAnswered vk device
        (find_queue_families 0 properties)
        (map (λ r. answer vk device r (props (find_queue_families 0 properties))) rs)
        (queues_for vk device rs (find_queue_families 0 properties))
queues_for_lem vk device properties rs h =
    queues_for-AllAnswered vk device rs (find_queue_families 0 properties)
      (new_pools vk device 0 properties) (new_have_queues vk device 0 properties h)
