-- ===== src/Dashboard.antt =====
-- internal/dashboard/handler.go: the data of the pages, over a `Storage` whose state is S. The templates
-- and the deadline of a request are left out; `queues` is what `queuesFn` returns.
pub mod Pages
use shoebox.Base.{
  ℕ, Bool, true, false, not, ◌||◌, List, [], ◌∷◌, ◌++◌, Option, none, some, leb, if◌then◌else◌,
  length, take, is_nil,
}
use shoebox.Base.Int.{pos}
use shoebox.Base.Text.{Str, str_eq, str_ltb}
use shoebox.Storage.{QueueStats, Error, Result, ok, err}
use shoebox.Storage.Interface.{Store}
use shoebox.Dlq.{Record, list_dead}

pub record QueueStat : Type 0 where
  pub name : Str
  pub depth : ℕ
  pub processed : ℕ
  pub errors : ℕ
  pub retries : ℕ
  pub dead : ℕ

pub data Page : Type 0 where
  stats_page : List QueueStat → Page
  dlq_page : Str → List Record → Page
  bad_request : Page

-- `sort.Strings`.
unfoldable pub place_name : Str → List Str → List Str
place_name q [] = q ∷ []
place_name q (x ∷ xs) = let rest = place_name q xs in if str_ltb x q then x ∷ rest else q ∷ x ∷ xs

unfoldable pub sort_names : List Str → List Str
unfolding place_name
sort_names [] = []
sort_names (q ∷ qs) = place_name q (sort_names qs)

unfoldable pub queue_stat : Str → QueueStats → QueueStat
queue_stat q s = record {
  name = q;
  depth = s.depth;
  processed = s.processed;
  errors = s.errors;
  retries = s.retries;
  dead = s.dead;
}

-- The three bytes of the ellipsis.
abbrev pub ellipsis : Str
ellipsis = 226 ∷ 128 ∷ 166 ∷ []

-- `truncatePayload`: it counts bytes.
unfoldable pub truncate_payload : Str → ℕ → Str
truncate_payload payload max_len =
    if leb (length payload) max_len then payload else take max_len payload ++ ellipsis

-- `result[q] = s` on a Go map.
unfoldable pub put_stats : Str → QueueStats → List (Str × QueueStats) → List (Str × QueueStats)
put_stats q s [] = (q, s) ∷ []
put_stats q s ((k, v) ∷ rest) =
    let others = put_stats q s rest in if str_eq k q then (q, s) ∷ rest else (k, v) ∷ others

module _ {S : Type 0} (store : Store S) where
  -- The loop of `collectStats`: a queue whose statistics fail is passed over.
  unfoldable pub stats_of : S → List Str → List QueueStat
  unfolding queue_stat
  stats_of s [] = []
  stats_of s (q ∷ qs) =
      let rest = stats_of s qs in
      elim (store.stats s q) [ err e ↦ rest | ok stats ↦ queue_stat q stats ∷ rest ]

  unfoldable pub collect_stats : S → List Str → List QueueStat
  unfolding stats_of sort_names
  collect_stats s queues = stats_of s (sort_names queues)

  -- `index` and `statsPartial` render the same data.
  unfoldable pub stats_partial : S → List Str → Page
  unfolding collect_stats
  stats_partial s queues = stats_page (collect_stats s queues)

  -- `dlqPartial`: an empty table on an error.
  unfoldable pub dlq_partial : S → Str → Page
  unfolding list_dead
  dlq_partial s queue =
      if is_nil queue then bad_request else elim (list_dead store s queue (pos 50)) [
        | err e ↦ dlq_page queue []
        | ok records ↦ dlq_page queue records
      ]

  -- The loop of `JSONHandler`.
  unfoldable pub json_stats : S → List Str → List (Str × QueueStats) → List (Str × QueueStats)
  unfolding put_stats
  json_stats s [] result = result
  json_stats s (q ∷ qs) result = elim (store.stats s q) [
    | err e ↦ json_stats s qs result
    | ok stats ↦ json_stats s qs (put_stats q stats result)
  ]

  unfoldable pub json_handler : S → List Str → List (Str × QueueStats)
  unfolding json_stats sort_names
  json_handler s queues = json_stats s (sort_names queues) []
