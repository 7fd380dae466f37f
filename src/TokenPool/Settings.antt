-- ===== src/TokenPool/Settings.antt =====
-- The settings of the token pool.
use zcode2api_plus.Common.{◌≤◌, arith}
use zcode2api_plus.TokenPool.{Options, normalized}

-- Whatever the settings, with sound defaults the pool keeps at least one token and at most as many
-- as its bucket holds, solves one or two at a time when it is empty, and its tokens live.
pub normalized_bounds :
    (def o : Options)
    → 1 ≤ def.min
    → 1 ≤ def.empty_solve
    → 1 ≤ def.ttl
    → let r = normalized def o in
      (1 ≤ r.min) × (r.min ≤ r.max) × (1 ≤ r.empty_solve) × (r.empty_solve ≤ 2) × (1 ≤ r.ttl)
unfolding normalized
normalized_bounds def o m e t =
    (ground arith, ground arith, ground arith, ground arith, ground arith)
