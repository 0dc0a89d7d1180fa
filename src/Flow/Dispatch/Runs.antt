-- ===== src/Flow/Dispatch/Runs.antt =====
-- From a reload to the flows that a message runs.
use turborg.Base.{Bool, List, Str, str_eq}
use turborg.Base.Int.{negsuc}
use turborg.Flow.Graph.{Flow}
use turborg.Flow.Reload.{replace_flows}
use turborg.Flow.Dispatch.{Engine}

module _ {Config : Type 0} (kind_known : Str → Bool) (compiles : Str → Bool) where
  -- An engine after a reload of `flows` without a cap.
  abbrev pub reloaded : List (Flow Config) → Engine Config → Engine Config
  reloaded flows e = record e { flows = replace_flows kind_known compiles (negsuc 0) flows }
