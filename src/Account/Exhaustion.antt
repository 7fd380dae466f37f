-- ===== src/Account/Exhaustion.antt =====
-- Marks of used-up models: what a mark does to scheduling, and how marks follow the snapshot.
use zcode2api_plus.Account.{Account}
