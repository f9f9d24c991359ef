-- ===== src/Vkg/Windows/View.antt =====
-- The map of windows does what the function from their numbers does.
use kgl.Common.{ℕ, ◌≡◌, List, Result, ok}
use kgl.Common.OrderedMap.{lookup, IsSorted}
use kgl.Window.State.{System, Setting}
use kgl.Vkg.Windows.Seen.{setting_of, seen, seen_all}
use kgl.Vkg.Windows.{Windows, Request}

record Settled (setting : Setting) (s : System) (r : Result System) : Type 0 where
  after : System
  returned : r ≡ ok after
  same : after.window_data ≡ setting_of setting s.window_data

-- One request, on every window.
record Served (r : Request) (s : Windows) (result : Result Windows) : Type 0 where
  after : Windows
  returned : result ≡ ok after
  sorted : IsSorted after.windows
  views : (i : ℕ) → lookup i after.windows ≡ seen i r (lookup i s.windows)

-- All the requests, on every window.
pub record AllServed (rs : List Request) (s : Windows) (result : Result Windows) : Type 0 where
  pub after : Windows
  pub returned : result ≡ ok after
  pub views : (i : ℕ) → lookup i after.windows ≡ seen_all i rs (lookup i s.windows)
