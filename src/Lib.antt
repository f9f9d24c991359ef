-- ===== src/Lib.antt =====
-- KGL, the NYX graphics library: file loaders, events, windows, memory, and the Vulkan backend.
--
-- The loaders of src/loaders read binary files of shaders (NyxFile), textures (NgtFile), fonts
-- (NttFile), skeletons (NssFile) and meshes (NggFile). Each class defines the same readers over a
-- std::stringstream, checks a magic number, and fills a data object that the rest of the library
-- queries. The event system of src/event keeps one static table of subscribers, into which every
-- EventManager enrolls its own, and out of which it takes them again; src/window polls the window
-- system and pushes its events there. Memory of src/library holds memory of a framework with a copy
-- of it on the host. src/vkg is the framework over Vulkan: it converts the library's enumerations
-- and Vulkan's results, keeps the windows, hands out the queues of devices, and submits work that
-- waits on other work.
--
-- Common: Boolean tests on numbers, lists over native numbers, results with a fault for undefined
--   behaviour (an indeterminate value used, an access outside a vector, a dangling iterator),
--   little-endian words (Words), std::map with unsigned keys (OrderedMap).
-- Loaders/Stream: `read` of std::stringstream and readUnsigned, readInteger, readCharacter,
--   readMagic, readString, readBytes and readSpirv. Codec and Loops say that a reader inverts a
--   writer, Consumes and Words what a reader has taken, Yields what it has returned.
-- Loaders/Nyx: NyxFile::load (src/loaders/NyxFile.cpp) as `load`, its loops as read_attribute,
--   read_uniform, read_shader and read_shaders; Nyx/Access is ShaderIterator and the queries,
--   Nyx/Format the layout of the file, written independently of the reader.
-- Loaders/Ngt, Loaders/Ntt: the same for NgtFile::load, reset (src/loaders/NgtFile.cpp) and
--   NttFile::load, readCharactersV1, reset and the queries (src/loaders/NttFile.cpp).
-- Loaders/Nss: NssFile::load, readBoneV1, readAnimationV1, readAnimNodeV1, findBones and the queries
--   (src/loaders/NssFile.cpp), over any type of floats and any function for std::atof. Nss/Format is
--   the layout with the floats as texts, Nss/Link is about findBones, Nss/Bounds about the
--   places of children.
-- Loaders/Ngg: NggFile::load, readMeshV1, reset and the queries (src/loaders/NggFile.cpp and .h).
--   Ngg/Format is the layout, Ngg/Bounds sets the arrays of a mesh against the counts that its
--   queries test, Ngg/Names is about the copy of a name into its array.
-- Event: Key, Event::Type, MouseButton and Event (Keys, Types), std::multimap with nodes that
--   iterators name (MultiMap), and EventManager (Manager): enrollBase is enroll, enroll_type and
--   enroll_key, pushEvent is push_event, and reset and the destructor are reset and destroy.
--   Manager/Deliver is about enrolling and delivery, Manager/Reset about reset, Manager/Sequence
--   about any number of enrollings before a reset.
-- Library/Memory: Memory (src/library/Memory.h): operator+ is offset_by, the four forms of
--   initialize are one with optional arguments, copyToHost is copy_to_host; the framework is a parameter.
-- Library/Enums, Library/Attachment: the enumerations of src/library/Image.h, Chain.h and RenderPass.h,
--   with their numbers, and Attachment (src/library/RenderPass.cpp).
-- Window: src/window/Window.cpp. Keys is keyFromSDL and mouseButtonFromSDL; Events is convertEvent and
--   handleEvents, which push into the managers of Event; State is WindowData and the setters of
--   Window, with the calls of the window system that they make.
-- Vkg/Errors: Vulkan::Error and Severity, Vulkan::convert of a result, Vulkan::add and the default
--   handler (src/vkg/Vulkan.h and Vulkan.cpp). Vkg/Convert: the other forms of Vulkan::convert, each
--   a table with the numbers of Vulkan as a parameter (Common/Switch is the switch over them).
-- Vkg/Windows: the map of windows of src/vkg/Vulkan.cpp over BaseWindow (src/library/Window.h) and
--   the model in Window; Windows/Seen is the function that it stands for.
-- Vkg/Device, Vkg/Queue: the queue families and the lists of extensions of src/vkg/Device.cpp, and
--   the data of src/vkg/Queue.cpp. Device/Pools is about the queues that are handed out,
--   Device/Lists about extensions.
-- Vkg/Command: the ring of primary command buffers of src/vkg/CommandBuffer.cpp. Vkg/Chain: the chains
--   with no parent of src/vkg/Chain.cpp. Chain/Usage is the order of use of a buffer and its fence
--   (whether a command stands inside the render pass is left out), Chain/Slots is about one buffer, Chain/Ring about the loops over the four,
--   Chain/Recording, Ending and Protocol about the operations.
-- Vkg/Choice: memType, Vulkan::device and Vulkan::hasDevice of src/vkg/Vulkan.cpp.
-- Vkg/Image: src/vkg/Image.cpp, the layouts of an image over its transitions, reverts and resizes.
-- Vkg/Synchronization: src/vkg/Synchronization.cpp, with the submissions of src/vkg/Queue.cpp.
--
-- Bounds. An unsigned is a number; products and sizes that the code narrows to 32 bits are written
-- with `% 2 ^ 32`. No loop of the code needs fuel, since each counts up to a number read before
-- it. Memory is unbounded: a count that no machine could allocate is a long list.
--
-- Not modelled: how a path is opened (the bytes of the file are an argument, or nothing), texts for
-- printing, what subscribers do with an event, leaks of memory, mutexes, and the calls of Vulkan,
-- the window system and CUDA themselves: what they return is a parameter, and what they are given is
-- a list of effects or the arguments. Floats are a parameter.
pub mod Common
pub mod Event
pub mod Library
pub mod Loaders
pub mod Vkg
pub mod Window
