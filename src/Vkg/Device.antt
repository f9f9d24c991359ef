-- ===== src/Vkg/Device.antt =====
-- src/vkg/Device.cpp: the queue families of a device, the queues that it hands out, and the extensions
-- and layers that it asks for. What Vulkan answers is a parameter.
pub mod Pools
pub mod Lists
mod Tests
use kgl.Common.{
  ℕ, zero, suc, ◌+◌, Bool, true, false, ◌&&◌, if◌then◌else◌, ltb, List, [], ◌∷◌, ◌++◌, Option, none,
  some, Result, ok, bind, length, index, equal,
}
use kgl.Vkg.Queue.{Queue, new_queue, initialize, has_bit}

-- What Vulkan answers: getQueue of a family, and whether a family can present to a surface. The bits
-- are eGraphics and eCompute.
pub record Driver : Type 0 where
  pub get_queue : ℕ → ℕ → ℕ
  pub surface_support : ℕ → ℕ → Bool
  pub e_graphics : ℕ
  pub e_compute : ℕ

-- `vk::QueueFamilyProperties`, with the number of the family.
pub record Properties : Type 0 where
  pub queue_flags : ℕ
  pub queue_count : ℕ
  pub family : ℕ

-- `QueueFamily`
pub record QueueFamily : Type 0 where
  pub prop : Properties
  pub queues : List Queue

-- `findQueueFamilies`, from the flags and counts that Vulkan returns; families are numbered from `id`.
unfoldable pub find_queue_families : ℕ → List (ℕ × ℕ) → List QueueFamily
find_queue_families id [] = []
find_queue_families id ((flags, count) ∷ properties) =
    record { prop = record { queue_flags = flags; queue_count = count; family = id }; queues = [] }
    ∷ find_queue_families (id + 1) properties

-- What a client asks for: graphicsQueue, computeQueue, or presentQueue for a surface.
pub data Request : Type 0 where
  graphics compute : Request
  present : ℕ → Request

module _ (vk : Driver) (device : ℕ) where
  -- `QueueFamily::graphics`, `compute`, and the test of presentQueue.
  unfoldable pub fits : Request → Properties → Bool
  fits graphics p = has_bit p.queue_flags vk.e_graphics
  fits compute p = has_bit p.queue_flags vk.e_compute
  fits (present surface) p =
      vk.surface_support p.family surface && has_bit p.queue_flags vk.e_graphics

  -- `QueueFamily::makeQueue`
  unfoldable pub make_queue : QueueFamily → Result (Queue × QueueFamily)
  make_queue f =
      let f' =
        if ltb (length f.queues) f.prop.queue_count
        then record f {
          queues =
              f.queues
              ++ initialize device (vk.get_queue f.prop.family (length f.queues)) f.prop.family
                  f.prop.queue_flags
                ∷ [];
        }
        else f in
      bind (index f'.queues 0) λ queue. ok (queue, f')

  -- `graphicsQueue`, `presentQueue`, `computeQueue`: the loop over the families.
  unfoldable pub first_queue : Request → List QueueFamily → Result (Queue × List QueueFamily)
  first_queue r [] = ok (new_queue, [])
  first_queue r (f ∷ fs) =
      let rest = bind (first_queue r fs) λ (queue, fs'). ok (queue, f ∷ fs') in
      if fits r f.prop then (bind (make_queue f) λ (queue, f'). ok (queue, f' ∷ fs)) else rest

  unfoldable pub queues_for :
      List Request → List QueueFamily → Result (List Queue × List QueueFamily)
  queues_for [] fs = ok ([], fs)
  queues_for (r ∷ rs) fs =
      bind (first_queue r fs)
        λ (queue, fs'). bind (queues_for rs fs') λ (queues, fs''). ok (queue ∷ queues, fs'')

-- The inner loop of filterExtensions and filterLayers.
unfoldable pub requested_as : List ℕ → List (List ℕ) → List (List ℕ)
requested_as name [] = []
requested_as name (requested ∷ list) =
    (if equal name requested then name ∷ [] else []) ++ requested_as name list

-- `filterExtensions` and `filterLayers`: what is available, and what is requested.
unfoldable pub filter_names : List (List ℕ) → List (List ℕ) → List (List ℕ)
filter_names [] list = []
filter_names (name ∷ available) list = requested_as name list ++ filter_names available list

-- `extension_list` and `layer_list` of DeviceData.
pub record DeviceData : Type 0 where
  pub extension_list : List (List ℕ)
  pub layer_list : List (List ℕ)

-- `DeviceData()`, with the names "VK_KHR_buffer_device_address" and "VK_KHR_swapchain".
unfoldable pub new_device_data : List ℕ → List ℕ → DeviceData
new_device_data buffer_device_address swapchain = record {
  extension_list = buffer_device_address ∷ swapchain ∷ [];
  layer_list = [];
}

-- `Device::addExtension`
unfoldable pub add_extension : List ℕ → DeviceData → DeviceData
add_extension name d = record d { extension_list = d.extension_list ++ name ∷ [] }

-- `Device::addValidationLayer`
unfoldable pub add_validation_layer : List ℕ → DeviceData → DeviceData
add_validation_layer name d = record d { layer_list = d.layer_list ++ name ∷ [] }

-- The lists in `generateDevice`, from the extensions and the layers that are available.
unfoldable pub generate_lists : List (List ℕ) → List (List ℕ) → DeviceData → DeviceData
generate_lists extensions layers d = record {
  extension_list = filter_names extensions d.extension_list;
  layer_list = filter_names layers d.layer_list;
}

-- `Device::hasExtension`
unfoldable pub has_extension : List ℕ → List (List ℕ) → Bool
has_extension name [] = false
has_extension name (ext ∷ list) = if equal ext name then true else has_extension name list
