-- ===== src/Controller/Actions/Memory.antt =====
-- The memory limit that the patch sets.
use self_healing_kubernetes.Base.{ℕ, ◌+◌, ◌*◌, ◌≤◌, ◌<◌, arith}
use self_healing_kubernetes.Controller.Kubernetes.{Api, Container}
use self_healing_kubernetes.Controller.Actions.{new_bytes}

-- With an allowance of at least 50 percent the new limit of a container that has one is neither
-- below the old limit nor above the allowance over it, and it is half as much again, rounded down.
new_bytes_within :
    (api : Api) (pct : ℕ) (container : Container)
    → 50 ≤ pct
    → 0 < container.memory_limit
    → let old = container.memory_limit in
      let new = new_bytes api pct container in
      (old ≤ new) × (100 * new ≤ (100 + pct) * old) × (2 * new ≤ 3 * old) × (3 * old < 2 * new + 2)
unfolding new_bytes
new_bytes_within api pct container h pos = (ground arith, grind arith, ground arith, ground arith)

-- The patch has no floor: from any limit that is set and low enough, the new limit stays below the
-- 128Mi that the file's comment names as the minimum.
new_bytes_no_floor :
    (api : Api) (pct : ℕ) (container : Container)
    → 50 ≤ pct
    → 0 < container.memory_limit
    → container.memory_limit ≤ 85 * 1024 * 1024
    → new_bytes api pct container < 128 * 1024 * 1024
unfolding new_bytes
new_bytes_no_floor api pct container h pos low = ground arith
