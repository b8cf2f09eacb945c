-- ===== src/Filters/Walls/Tests.antt =====
-- Wall filters at a creator with three walls, and the theorems at them.
use fansly_scraper.Common.{
  ℕ, ◌≡◌, refl, false, not, ◌&&◌, Option, none, some, List, [], ◌∷◌, any, nat_beq, if◌then◌else◌,
}
use fansly_scraper.Common.Dict.{Dict, get, put}
use fansly_scraper.Helpers.Result.{ok}
use fansly_scraper.Helpers.Text.{Text, codes, lower, strip, is_digits}
use fansly_scraper.Filters.Walls.{
  WallFilterSpec, is_snowflake_token, spec_for_creator, mem_wall, resolve_wall_filter, token_hit,
}
use fansly_scraper.Filters.Walls.Resolve.{means, is_wanted, resolve_wall_filter_lem}

abbrev names : ℕ → Option Text
names n =
    if nat_beq n 1000000001
    then some (codes "Full Videos")
    else if nat_beq n 1000000002
    then some (codes "Promos")
    else none

abbrev walls : List ℕ
walls = 1000000001 ∷ 1000000002 ∷ 1000000003 ∷ []

-- the videos by name and an unnamed wall by its id, but not the promos
abbrev spec : WallFilterSpec
spec = record {
  includes = codes "full videos" ∷ codes " 1000000003 " ∷ codes "promos" ∷ [];
  excludes = codes "PROMOS" ∷ [];
  all_walls = false;
}

abbrev filters : Dict Text WallFilterSpec
filters = (codes "alice", spec) ∷ []

two_walls :
    resolve_wall_filter lower names filters (some (codes "Alice")) walls
    ≡ ok (1000000001 ∷ 1000000003 ∷ [])
unfolding resolve_wall_filter get lower token_hit is_snowflake_token is_digits strip put
two_walls = refl

alice_spec : spec_for_creator filters (some (codes "Alice")) ≡ some spec
unfolding spec_for_creator get lower
alice_spec = refl

resolve_wall_filter_lem_example : mem_wall 1000000003 (1000000001 ∷ 1000000003 ∷ []) ≡ (
    is_wanted lower names walls spec.includes 1000000003
    && not (any (λ t. means lower names walls (strip t) 1000000003) spec.excludes))
resolve_wall_filter_lem_example =
    resolve_wall_filter_lem lower names filters (some (codes "Alice")) spec walls
      (1000000001 ∷ 1000000003 ∷ []) 1000000003 alice_spec refl two_walls
