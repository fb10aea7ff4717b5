-- ===== src/Redis/Scan.antt =====
-- libs/redis/redis.service.ts: the scans. A server answers SCAN with the next cursor and a page of
-- keys; "0" is the cursor of the start and of the end. A loop that runs out of fuel gives `none`.
pub mod Complete
use async_long_request_proxy.Prelude.{
  ℕ, zero, suc, String, Bool, true, false, Option, none, some, List, [], ◌∷◌, ◌++◌, ◌==◌,
  if◌then◌else◌,
}

-- SCAN cursor MATCH pattern COUNT 100, for a pattern.
abbrev pub Scan : Type 0
Scan = String → String × List String

-- The do-while loop, with the keys found so far.
unfoldable pub scan_from : ℕ → Scan → String → List String → Option (List String)
scan_from zero scan cursor keys = none
scan_from (suc fuel) scan cursor keys =
    let (next, page) = scan cursor in
    let rest = scan_from fuel scan next (keys ++ page) in
    if next == "0" then some (keys ++ page) else rest

unfoldable pub scan_single_keys : ℕ → Scan → Option (List String)
scan_single_keys fuel scan = scan_from fuel scan "0" []

-- Promise.all over the masters, then flat.
abbrev pub both : Option (List String) → Option (List String) → Option (List String)
both none rest = none
both (some keys) none = none
both (some keys) (some rest) = some (keys ++ rest)

unfoldable pub scan_cluster_keys : ℕ → List Scan → Option (List String)
scan_cluster_keys fuel [] = some []
scan_cluster_keys fuel (scan ∷ scans) =
    both (scan_single_keys fuel scan) (scan_cluster_keys fuel scans)

-- The client's own server, and the masters of a cluster.
unfoldable pub scan_keys : ℕ → Bool → Scan → List Scan → Option (List String)
scan_keys fuel is_cluster single masters =
    if is_cluster then scan_cluster_keys fuel masters else scan_single_keys fuel single
