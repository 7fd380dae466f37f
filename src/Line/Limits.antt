-- ===== src/Line/Limits.antt =====
-- The sizes of the three tables of line405.go, proxy_soft_failure.go and account405.go.
use zcode2api_plus.Common.{Bool, true, false}
use zcode2api_plus.Line.Reject.{Decision405, quarantine}

-- The decision to put a line aside.
abbrev pub isolates : Decision405 → Bool
isolates (quarantine p u n) = true
isolates d = false
