-- ===== src/Daemon/Polling.antt =====
-- daemon/polling.py: the home-timeline poll and the story poll. A failed API call is `none`; the
-- post cache is a test on ids, and the monitor states are a store with a cache over its rows.
pub mod Home
pub mod Stories
mod Tests
use fansly_scraper.Common.{
  ℕ, ◌+◌, ◌*◌, ◌-◌, ◌^◌, Bool, true, false, not, ◌&&◌, ◌||◌, Option, none, some, List, [], ◌∷◌,
  ◌++◌, String, leb, if◌then◌else◌,
}
use fansly_scraper.Common.Int.{ℤ, pos, negsuc, int_beq, int_ltb}
use fansly_scraper.Common.Classes.{◌==◌, int_keyed}
use fansly_scraper.Common.Sets.{member}
use fansly_scraper.Common.Dict.{Dict, get, put}
use fansly_scraper.Helpers.Result.{Result, ok, raise, type_error, value_error, key_error, ◌>>=◌}
use fansly_scraper.Helpers.Text.{codes, int_of_text}
use fansly_scraper.Helpers.Json.{
  Value, null, bool, int, float, str, arr, obj, nil, Fields, items, get_field, field_or_null,
  truthy, or_value_error, expect_dict, expect_list,
}

-- d[key]
unfoldable pub require_field : Fields → String → Result Value
unfolding get_field
require_field fs k = elim (get_field fs k) [ none ↦ raise key_error | some v ↦ ok v ]

-- int(str(value)): the text of no Boolean, None, double or container is an integer.
unfoldable pub int_of_str : Value → Result ℤ
unfolding int_of_text
int_of_str (int n) = ok n
int_of_str (str s) = or_value_error (int_of_text (codes s))
int_of_str _ = raise value_error

pub record Entry : Type 0 where
  pub post_id : ℤ
  pub creator : ℤ
  pub post : Fields

unfoldable pub read_post : Value → Result Entry
unfolding require_field int_of_str expect_dict
read_post v = do
  fs ← expect_dict v
  raw_id ← require_field fs "id"
  id ← int_of_str raw_id
  raw_creator ← require_field fs "accountId"
  creator_id ← int_of_str raw_creator
  ok (record { post_id = id; creator = creator_id; post = fs })

-- `new_creator_ids`, a set, and `posts_by_creator`
pub record Seen : Type 0 where
  pub new_creators : List ℤ
  pub by_creator : Dict ℤ (List Fields)

unfoldable pub add_id : ℤ → List ℤ → List ℤ
unfolding member
add_id c cs = if member c cs then cs else cs ++ c ∷ []

abbrev pub or_empty : Option (List Fields) → List Fields
or_empty none = []
or_empty (some ps) = ps

-- the body of the loop over the posts, once the post is read
unfoldable pub note_post : (ℤ → Bool) → Entry → Seen → Seen
unfolding add_id
note_post known e s = record {
  new_creators = if known e.post_id then s.new_creators else add_id e.creator s.new_creators;
  by_creator = put s.by_creator e.creator (or_empty (get s.by_creator e.creator) ++ e.post ∷ []);
}

unfoldable pub note_posts : (ℤ → Bool) → Seen → List Value → Result Seen
note_posts known s [] = ok s
note_posts known s (v ∷ vs) = do e ← read_post v; note_posts known (note_post known e s) vs

abbrev pub nothing_seen : Seen
nothing_seen = record { new_creators = []; by_creator = [] }

-- `data.get("posts", [])`
abbrev pub posts_or_empty : Option Value → Value
posts_or_empty none = arr nil
posts_or_empty (some v) = v

unfoldable pub poll_home_timeline : (ℤ → Bool) → Option Value → Result Seen
unfolding expect_list
poll_home_timeline known none = ok nothing_seen
poll_home_timeline known (some (obj fs)) = do
  posts ← expect_list (posts_or_empty (get_field fs "posts"))
  note_posts known nothing_seen posts
poll_home_timeline known (some _) = ok nothing_seen

pub record MonitorState : Type 0 where
  pub last_has_active_stories : Option Bool
  pub updated_at : ℕ

-- The identity map, and the rows of the table.
pub record Store : Type 0 where
  pub cache : Dict ℤ MonitorState
  pub rows : Dict ℤ MonitorState

abbrev pub first_some : Option MonitorState → Option MonitorState → Option MonitorState
first_some none o = o
first_some (some s) o = some s

unfoldable pub find_state : Store → ℤ → Option MonitorState
find_state s c = first_some (get s.cache c) (get s.rows c)

-- How the store answers while one creator is processed.
pub data Outcome : Type 0 where
  works get_fails save_fails : Outcome

-- The range that a `creatorId` must lie in.
abbrev pub is_snowflake : ℤ → Bool
is_snowflake (pos n) = leb (10 ^ 15) n && leb n (2 ^ 63 - 1)
is_snowflake (negsuc n) = false

-- `not was_active`
abbrev pub was_inactive : Option MonitorState → Bool
was_inactive none = true
was_inactive (some st) = elim st.last_has_active_stories [ none ↦ true | some b ↦ not b ]

-- A state that is changed or built stands in the cache at once; a failed save leaves the row.
unfoldable pub write_state : Outcome → ℕ → ℤ → Bool → Store → Store
write_state save_fails now c active s = record s {
  cache = put s.cache c (record { last_has_active_stories = some active; updated_at = now });
}
write_state outcome now c active s =
    let st : MonitorState = record { last_has_active_stories = some active; updated_at = now } in
    record { cache = put s.cache c st; rows = put s.rows c st }

-- Building a new state for an id that is no snowflake raises, and the exception is swallowed.
abbrev pub save_new : Option MonitorState → Outcome → ℕ → ℤ → Bool → Store → Store
save_new none outcome now c active s =
    if is_snowflake c then write_state outcome now c active s else s
save_new (some st) outcome now c active s = write_state outcome now c active s

-- The creators to return, and the store.
pub record Polled : Type 0 where
  pub flipped : List ℤ
  pub store : Store

abbrev pub with_store : Outcome → Polled → Polled → Polled
with_store get_fails failed p = failed
with_store works failed p = p
with_store save_fails failed p = p

-- the body of the loop over the story states
unfoldable pub note_story : Outcome → ℕ → ℤ → Bool → Polled → Polled
unfolding find_state write_state
note_story outcome now c active p =
    let existing = find_state p.store c in
    with_store outcome p (record {
      flipped = if active && was_inactive existing then p.flipped ++ c ∷ [] else p.flipped;
      store = save_new existing outcome now c active p.store;
    })

-- int(str(state.get("storyCount", 0) or 0))
unfoldable pub story_count : Fields → Result ℤ
unfolding int_of_str
story_count fs =
    let count = field_or_null fs "storyCount" in
    if truthy count then int_of_str count else ok (pos 0)

-- the creator and whether its stories are active
unfoldable pub read_story : Value → Result (ℤ × Bool)
unfolding story_count require_field int_of_str expect_dict
read_story v = do
  fs ← expect_dict v
  raw_creator ← require_field fs "accountId"
  creator ← int_of_str raw_creator
  count ← story_count fs
  ok (creator, truthy (field_or_null fs "hasActiveStories") || int_ltb (pos 0) count)

-- What the poll returns or raises, and the store that it leaves.
abbrev pub Answer : Type 0
Answer = Result (List ℤ) × Store

-- A malformed state raises out of the loop; the states before it stay written.
abbrev pub after_read : Polled → (ℤ → Bool → Answer) → Result (ℤ × Bool) → Answer
after_read p rest (raise e) = (raise e, p.store)
after_read p rest (ok (creator, active)) = rest creator active

-- The loop; the outcomes and the clock are by the position in the response.
unfoldable pub note_stories : (ℕ → Outcome) → (ℕ → ℕ) → ℕ → Polled → List Value → Answer
note_stories outcome clock n p [] = (ok p.flipped, p.store)
note_stories outcome clock n p (v ∷ vs) =
    after_read p
      (λ creator active.
        note_stories outcome clock (n + 1) (note_story (outcome n) (clock n) creator active p) vs)
      (read_story v)

unfoldable pub poll_story_states : (ℕ → Outcome) → (ℕ → ℕ) → Store → Option Value → Answer
poll_story_states outcome clock s (some (arr vs)) =
    note_stories outcome clock 0 (record { flipped = []; store = s }) (items vs)
poll_story_states outcome clock s _ = (ok [], s)
