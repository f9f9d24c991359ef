-- ===== src/Vkg/Device/Tests.antt =====
-- Runs of a device.
use kgl.Common.{
  ℕ, index, ◌+◌, ◌<◌, ◌≡◌, refl, List, [], ◌∷◌, true, ◌&&◌, ◌||◌, ◌==◌, All, map, ok, bind, arith,
  equal,
}
use kgl.Vkg.Queue.{initialize, has_bit}
use kgl.Vkg.Device.{
  Driver, Request, fits, make_queue, first_queue, queues_for, find_queue_families, generate_lists,
  new_device_data, has_extension, filter_names, requested_as, add_extension,
}
use kgl.Vkg.Device.Pools.{AllAnswered, answer, queues_for_lem, props}
use kgl.Vkg.Device.Lists.{has_extension-generate_lists, listed, add_extensions}

-- Bit 1 is for graphics, bit 2 for compute; only family 1 can present.
abbrev driver : Driver
driver = record {
  get_queue = λ family i. 100 + family + i;
  surface_support = λ family surface. family == 1;
  e_graphics = 1;
  e_compute = 2;
}

-- A family for compute, and one for both.
abbrev properties : List (ℕ × ℕ)
properties = (2, 1) ∷ (3, 2) ∷ []

abbrev requests : List Request
requests = Request.graphics ∷ Request.compute ∷ Request.present 5 ∷ []

queues_run :
    bind (queues_for driver 9 requests (find_queue_families 0 properties)) (λ r. ok r.0)
    ≡ ok (initialize 9 101 1 3 ∷ initialize 9 100 0 2 ∷ initialize 9 101 1 3 ∷ [])
unfolding queues_for first_queue make_queue fits find_queue_families has_bit initialize index
queues_run = refl

some_queues : All (λ (p : ℕ × ℕ). 0 < p.1) properties
some_queues = omega arith

queues_for_lem_example :
    AllAnswered driver 9
      (find_queue_families 0 properties)
      (map (λ r. answer driver 9 r (props (find_queue_families 0 properties))) requests)
      (queues_for driver 9 requests (find_queue_families 0 properties))
queues_for_lem_example = queues_for_lem driver 9 properties requests some_queues

-- The system offers the names 1 and 2; 1 and 3 are asked for, and 2 is added.
has_extension_run :
    has_extension
      (2 ∷ [])
      (generate_lists
        ((1 ∷ []) ∷ (2 ∷ []) ∷ [])
        []
        (add_extensions ((2 ∷ []) ∷ []) (new_device_data (1 ∷ []) (3 ∷ [])))).extension_list
    ≡ true
unfolding has_extension generate_lists add_extensions add_extension new_device_data filter_names
    requested_as
has_extension_run = refl

has_extension-generate_lists_example :
    has_extension
      (3 ∷ [])
      (generate_lists
        ((1 ∷ []) ∷ (2 ∷ []) ∷ [])
        []
        (add_extensions ((2 ∷ []) ∷ []) (new_device_data (1 ∷ []) (3 ∷ [])))).extension_list
    ≡ (listed (3 ∷ []) ((1 ∷ []) ∷ (2 ∷ []) ∷ [])
        && (equal (1 ∷ []) (3 ∷ []) || equal (3 ∷ []) (3 ∷ []) || listed (3 ∷ []) ((2 ∷ []) ∷ [])))
has_extension-generate_lists_example =
    has_extension-generate_lists (1 ∷ []) (3 ∷ []) ((2 ∷ []) ∷ []) ((1 ∷ []) ∷ (2 ∷ []) ∷ []) []
      (3 ∷ [])
