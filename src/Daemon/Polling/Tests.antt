-- ===== src/Daemon/Polling/Tests.antt =====
-- Responses to the polls, and the theorems about them at concrete inputs.
use fansly_scraper.Common.{◌+◌, ◌^◌, ◌≡◌, refl, true, false, some, List, [], ◌∷◌}
use fansly_scraper.Common.Int.{ℤ, pos}
use fansly_scraper.Common.Dict.{get}
use fansly_scraper.Common.Classes.{int_keyed}
use fansly_scraper.Helpers.Result.{ok, raise, key_error}
use fansly_scraper.Helpers.Json.{
  Value, int, str, arr, obj, Items, nil, cons, items, Fields, end, field, expect_list, get_field,
  field_or_null, truthy,
}
use fansly_scraper.Daemon.Polling.{
  Entry, read_post, poll_home_timeline, Store, works, find_state, was_inactive, Polled, note_story,
  read_story, poll_story_states, note_stories,
}
use fansly_scraper.Daemon.Polling.Home.{read_posts, read_home, IsHome, poll_home_lem}
use fansly_scraper.Daemon.Polling.Stories.{read_stories, second_poll_quiet}

abbrev post_fields : Fields
post_fields = field "id" (str "11") (field "accountId" (int (pos 5)) end)

abbrev later_fields : Fields
later_fields = field "id" (str "12") (field "accountId" (str "5") end)

abbrev posts : Value
posts = arr (cons (obj post_fields) (cons (obj later_fields) nil))

abbrev home : Fields
home = field "posts" posts end

abbrev entries : List Entry
entries =
    record { post_id = pos 11; creator = pos 5; post = post_fields }
    ∷ record { post_id = pos 12; creator = pos 5; post = later_fields }
    ∷ []

home_read : read_home home ≡ ok entries
unfolding read_home expect_list get_field read_posts read_post
home_read = refl

-- a post without an account
broken_read :
    read_home (field "posts" (arr (cons (obj (field "id" (str "11") end)) nil)) end)
    ≡ raise key_error
unfolding read_home expect_list get_field read_posts read_post
broken_read = refl

poll_home_lem_example :
    IsHome (λ id. false) (read_home home) (poll_home_timeline (λ id. false) (some (obj home)))
poll_home_lem_example = poll_home_lem (λ id. false) home

abbrev creator_id : ℤ
creator_id = pos (10 ^ 15 + 7)

abbrev stories : Items
stories = cons (obj (field "accountId" (int creator_id) (field "storyCount" (str "2") end))) nil

abbrev empty_store : Store
empty_store = record { cache = []; rows = [] }

stories_read : read_stories (items stories) ≡ ok ((creator_id, true) ∷ [])
unfolding read_stories read_story field_or_null truthy
stories_read = refl

first_poll_returns :
    (poll_story_states (λ i. works) (λ i. i) empty_store (some (arr stories))).0
    ≡ ok (creator_id ∷ [])
unfolding poll_story_states note_stories note_story read_story field_or_null truthy get
first_poll_returns = refl

second_poll_quiet_example :
    (poll_story_states
      (λ i. works)
      (λ i. i)
      (poll_story_states (λ i. works) (λ i. i) empty_store (some (arr stories))).1
      (some (arr stories))).0
    ≡ ok []
second_poll_quiet_example =
    second_poll_quiet (λ c. true) (λ i. i) empty_store stories ((creator_id, true) ∷ [])
      stories_read ((refl, refl), tt)

abbrev unpolled : Polled
unpolled = record { flipped = []; store = empty_store }

unknown_is_inactive : was_inactive (find_state unpolled.store creator_id) ≡ true
unfolding find_state get
unknown_is_inactive = refl
