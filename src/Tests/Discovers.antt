-- ===== src/Tests/Discovers.antt =====
-- The discovery of a device at concrete inputs.
use act.Common.{ℕ, ◌≡◌, Bool, true, false, ltb}
use act.Storage.{discover_min_op_bytes}
use act.Storage.Discover.{Smallest, discover_min_op_bytes-Smallest}

-- A device that can be read from 1024 bytes on.
abbrev sizes : ℕ → Bool
sizes n = ltb 1000 n

discover_min_op_bytes_example :
    Smallest sizes (discover_min_op_bytes true sizes) × (discover_min_op_bytes false sizes ≡ 0)
discover_min_op_bytes_example = discover_min_op_bytes-Smallest sizes
