-- ===== src/Download/Statistics/Totals.antt =====
-- The grand totals against those of the creators.
use fansly_scraper.Common.{ℕ, ◌+◌, ◌≤◌, ◌≡◌, refl, List, [], ◌∷◌, ◌++◌, arith}
use fansly_scraper.Download.Statistics.{
  GlobalState, missing_items_count, update_global_statistics, update_all, new_global_state,
}

-- The missing items of all creators, each counted for itself.
abbrev pub missing_sum : List GlobalState → ℕ
missing_sum [] = 0
missing_sum (s ∷ ss) = missing_items_count s + missing_sum ss

missing_update :
    (g s : GlobalState)
    → missing_items_count (update_global_statistics g s)
      ≤ missing_items_count g + missing_items_count s
unfolding missing_items_count update_global_statistics
missing_update g s = omega arith

missing_all :
    (g : GlobalState) (ss : List GlobalState)
    → missing_items_count (update_all g ss) ≤ missing_items_count g + missing_sum ss
unfolding update_all
missing_all g [] = omega arith
missing_all g (s ∷ ss) =
    omega (arith, missing_update g s, missing_all (update_global_statistics g s) ss)

none_missing : missing_items_count new_global_state ≡ 0
unfolding missing_items_count
none_missing = refl

-- The number of missing items in the grand total is at most the sum of the numbers that are
-- reported for the creators: what one creator has too many can hide what another one lacks, but
-- nothing is reported as missing that no creator lacks.
pub missing_total_le :
    (ss : List GlobalState) → missing_items_count (update_all new_global_state ss) ≤ missing_sum ss
missing_total_le ss = omega (arith, missing_all new_global_state ss, none_missing)

abbrev pub size_sum : List GlobalState → ℕ
size_sum [] = 0
size_sum (s ∷ ss) = s.download_stats.total_size + size_sum ss

sizes_added :
    (g s : GlobalState) (ss : List GlobalState)
    → ((update_all g (ss ++ (s ∷ []))).download_stats.total_size
        ≡ g.download_stats.total_size + size_sum (ss ++ (s ∷ [])))
      × ((update_all g (ss ++ (s ∷ []))).download_stats.total_size_str
          ≡ s.download_stats.total_size_str)
unfolding update_all update_global_statistics
sizes_added g s [] = (omega arith, refl)
sizes_added g s (t ∷ ts) =
    let rest = sizes_added (update_global_statistics g t) s ts in (omega (arith, rest.0), rest.1)

-- The size in the grand total is the sum of the sizes of the creators, but the text beside it is
-- the one of the last creator.
pub total_size_lem :
    (s : GlobalState) (ss : List GlobalState)
    → ((update_all new_global_state (ss ++ (s ∷ []))).download_stats.total_size
        ≡ size_sum (ss ++ (s ∷ [])))
      × ((update_all new_global_state (ss ++ (s ∷ []))).download_stats.total_size_str
          ≡ s.download_stats.total_size_str)
total_size_lem s ss =
    let added = sizes_added new_global_state s ss in (omega (arith, added.0), added.1)
