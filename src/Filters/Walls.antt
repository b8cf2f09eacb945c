-- ===== src/Filters/Walls.antt =====
-- config/wall_filters.py and download/wallfilters.py: which walls of a creator are downloaded. A set
-- of walls is a list of ids that is read by membership; `str.casefold` is an argument.
pub mod Resolve
pub mod Tests
use fansly_scraper.Common.{
  ℕ, zero, suc, Bool, true, false, not, ◌&&◌, ◌||◌, Option, none, some, List, [], ◌∷◌, ltb, leb,
  nat_beq, length, if◌then◌else◌,
}
use fansly_scraper.Common.Classes.{◌==◌, codes_keyed}
use fansly_scraper.Common.Dict.{Dict, get, put}
use fansly_scraper.Helpers.Result.{Result, ok, raise, value_error, ◌>>=◌}
use fansly_scraper.Helpers.Text.{Text, strip, lower, is_digits}
use fansly_scraper.Filters.Media.{digits_value}

-- `WallFilterSpec`
pub record WallFilterSpec : Type 0 where
  pub includes : List Text
  pub excludes : List Text
  pub all_walls : Bool

-- a token of ASCII text
unfoldable pub is_snowflake_token : Text → Bool
is_snowflake_token token = is_digits token && leb 10 (length token)

-- `if not config.wall_filters or not state.creator_name: return None`
unfoldable pub spec_for_creator : Dict Text WallFilterSpec → Option Text → Option WallFilterSpec
spec_for_creator filters none = none
spec_for_creator filters (some []) = none
spec_for_creator filters (some (c ∷ cs)) = get filters (lower (c ∷ cs))

abbrev pub mem_wall : ℕ → List ℕ → Bool
mem_wall n [] = false
mem_wall n (m ∷ ms) = nat_beq m n || mem_wall n ms

-- a | b, and a - b
abbrev pub union : List ℕ → List ℕ → List ℕ
union [] ms = ms
union (n ∷ ns) ms = n ∷ union ns ms

abbrev pub difference : List ℕ → List ℕ → List ℕ
difference [] ms = []
difference (n ∷ ns) ms = let rest = difference ns ms in if mem_wall n ms then rest else n ∷ rest

abbrev pub or_empty_set : Option (List ℕ) → List ℕ
or_empty_set none = []
or_empty_set (some ns) = ns

abbrev pub or_else_set : List ℕ → List ℕ → List ℕ
or_else_set [] other = other
or_else_set (n ∷ ns) other = n ∷ ns

module _ (casefold : Text → Text) (name_of : ℕ → Option Text) where
  -- `ids_by_name.setdefault(name.casefold(), set()).add(wall_id)` where the wall has a name
  abbrev pub note_name : Dict Text (List ℕ) → ℕ → Option Text → Dict Text (List ℕ)
  note_name d id none = d
  note_name d id (some []) = d
  note_name d id (some (c ∷ cs)) =
      put d (casefold (c ∷ cs)) (id ∷ or_empty_set (get d (casefold (c ∷ cs))))

  -- the loop over the sorted ids; `name_of` gives the name of the wall that the store holds
  unfoldable pub ids_by_name : Dict Text (List ℕ) → List ℕ → Dict Text (List ℕ)
  ids_by_name d [] = d
  ids_by_name d (id ∷ ids) = ids_by_name (note_name d id (name_of id)) ids

  -- `{int(tok)}` if the token is the id of a wall
  abbrev pub id_hit : List ℕ → ℕ → List ℕ
  id_hit walls id = if mem_wall id walls then id ∷ [] else []

  -- What a token selects: the wall of that id, else the walls of that name. `int` raises on more
  -- than 4300 digits.
  unfoldable pub token_hit : List ℕ → Dict Text (List ℕ) → Text → Result (List ℕ)
  token_hit walls names tok =
      if is_snowflake_token tok && ltb 4300 (length tok)
      then raise value_error
      else ok (
          or_else_set (if is_snowflake_token tok then id_hit walls (digits_value 0 tok) else [])
            (or_empty_set (get names (casefold tok))))

  -- `_match_tokens`
  unfoldable pub match_tokens : List ℕ → Dict Text (List ℕ) → List Text → Result (List ℕ)
  match_tokens walls names [] = ok []
  match_tokens walls names (token ∷ tokens) = do
    hit ← token_hit walls names (strip token)
    rest ← match_tokens walls names tokens
    ok (union hit rest)

  -- `if spec.includes:`
  abbrev pub included : List ℕ → Dict Text (List ℕ) → List Text → Result (List ℕ)
  included walls names [] = ok walls
  included walls names (token ∷ tokens) = match_tokens walls names (token ∷ tokens)

  abbrev pub resolve_spec : List ℕ → Option WallFilterSpec → Result (List ℕ)
  resolve_spec walls none = ok walls
  resolve_spec walls (some spec) = if spec.all_walls then ok walls else do
    resolved ← included walls (ids_by_name [] walls) spec.includes
    dropped ← match_tokens walls (ids_by_name [] walls) spec.excludes
    ok (difference resolved dropped)

  unfoldable pub resolve_wall_filter :
      Dict Text WallFilterSpec → Option Text → List ℕ → Result (List ℕ)
  unfolding ids_by_name match_tokens spec_for_creator
  resolve_wall_filter filters creator walls = resolve_spec walls (spec_for_creator filters creator)
