-- ===== src/Store/Counts.antt =====
-- The exact counts of crates/carryctx-sqlite/src/repos.rs, which no limit caps.
use carryctx.Base.{ℕ, String, List, map, keep, length}
use carryctx.Task.{TaskStatus}
use carryctx.Store.{Store, status_eq}

unfoldable pub count_all : Store → ℕ
count_all s = length s.tasks

unfoldable pub count_by_status : Store → TaskStatus → ℕ
count_by_status s status = length (keep (λ t. status_eq t.status status) s.tasks)

-- The newest rows first, as the store has them.
unfoldable pub list_display_ids_by_status : Store → TaskStatus → List String
list_display_ids_by_status s status =
    map (λ t. t.display_id) (keep (λ t. status_eq t.status status) s.tasks)
