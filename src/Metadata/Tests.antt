-- ===== src/Metadata/Tests.antt =====
-- Runs of the entity store, and the conditions of the theorems at concrete inputs.
use mathlib.Core.List.{Perm}
use fansly_scraper.Common.{
  ℕ, Bool, true, false, not, Option, none, some, List, [], ◌∷◌, String, ltb, leb, nat_beq, ◌≡◌,
  subst, ◌⊎◌, refl, arith, any, all, if◌then◌else◌,
}
use fansly_scraper.Common.Classes.{
  ◌==◌, nat_keyed, string_keyed, int_keyed, codes_keyed, pair_keyed,
}
use fansly_scraper.Common.Dict.{Dict, get, put, pop}
use fansly_scraper.Common.Sets.{member, add, discard}
use fansly_scraper.Helpers.Text.{Text, codes}
use fansly_scraper.Metadata.Identity.{
  Entity, Store, cache_instance, invalidate_all, set_ttl, get_from_cache, is_expired,
  is_fully_loaded,
}
use fansly_scraper.Metadata.Identity.Invariant.{
  IsConsistent, Step, Steps, Steps-IsConsistent, invalidate_all-IsConsistent,
}
use fansly_scraper.Metadata.Objects as Objects
use fansly_scraper.Metadata.Objects.{Object, Model, plain, attr, save_object, is_dirty}
use fansly_scraper.Metadata.Objects.Saving.{IsSynced, IsSaved, save_object_lem}
use fansly_scraper.Metadata.Query.{
  Filter, one, many, Comparable, scalar, gt, between, parse_lookup, build_where_clauses,
  matches_filters, Condition, Param,
}
use fansly_scraper.Metadata.Query.Portable.{holds, positional, by_between, by_gt, cache-agrees}
use fansly_scraper.Metadata.Sorting.Stable.{Ordered, Lexicographic, sort_results_lem}
use fansly_scraper.Metadata.Query.Lookups.{filter_name, parse_lookup-filter_name}
use fansly_scraper.Metadata.Sorting.{Ranked, asc, desc, OrderBySpec, sort_results}
use fansly_scraper.Metadata.Session.{Schema, Session, returned, get_entity, preload, with_store}
use fansly_scraper.Metadata.Session.Preload.{ArePreloaded, preload-ArePreloaded}
use fansly_scraper.Metadata.Session.Reads.{IsRead, get_entity-IsRead}
use fansly_scraper.Metadata.Searches.{Reading, Database, find, find_one, find_iter, count, passes}
use fansly_scraper.Metadata.Searches.Lists.{concat, is_passed}
use fansly_scraper.Metadata.Searches.Cached.{has_id, is_there}
use fansly_scraper.Metadata.Searches.Exact.{find_exact, find_variants, expired-hidden}

-- class 1 is the account, class 2 the post; a value is a number
abbrev account_1 : Entity ℕ ℕ
account_1 = record { kind = 1; id = some 10; value = 7 }

abbrev empty_store : Store ℕ ℕ
empty_store = record {
  cache = [];
  type_index = [];
  timestamps = [];
  fully_loaded = [];
  type_ttls = [];
  default_ttl = none;
}

abbrev start : Store ℕ ℕ
start = invalidate_all empty_store

abbrev cached_at_5 : Store ℕ ℕ
cached_at_5 = cache_instance 5 account_1 start

abbrev with_ttl : Store ℕ ℕ
with_ttl = set_ttl 1 (some 60) cached_at_5

fresh_hit : (get_from_cache 50 1 10 with_ttl).1 ≡ some account_1
unfolding get_from_cache is_expired set_ttl cache_instance invalidate_all get put
fresh_hit = refl

expired_miss : (get_from_cache 66 1 10 with_ttl).1 ≡ none
unfolding get_from_cache is_expired set_ttl cache_instance invalidate_all get put
expired_miss = refl

Steps-IsConsistent_example : IsConsistent (get_from_cache 66 1 10 with_ttl).0
Steps-IsConsistent_example =
    Steps-IsConsistent
      (Steps.next (Step.cached start 5 account_1) (
        Steps.next (Step.ttl_set cached_at_5 1 (some 60))
          (Steps.next (Step.looked_up with_ttl 66 1 10) Steps.done)))
      (invalidate_all-IsConsistent empty_store)

-- an account with a name and a count of posts, and the table of accounts
abbrev account_model : Model
account_model = record {
  tracked_fields = "username" ∷ "posts" ∷ [];
  relationships = "walls" ∷ [];
  write_excluded = [];
  columns = "id" ∷ "username" ∷ "posts" ∷ [];
  pk_column = "id";
}

abbrev renamed : Object ℕ
renamed = record {
  fields = ("id", plain 10) ∷ ("username", plain 2) ∷ ("posts", plain 5) ∷ [];
  snapshot = ("username", plain 1) ∷ ("posts", plain 5) ∷ [];
  is_new = false;
}

abbrev account_row : Option (Dict String (Objects.Value ℕ))
account_row = some (("id", plain 10) ∷ ("username", plain 1) ∷ ("posts", plain 5) ∷ [])

save_renamed :
    (save_object (plain 0) account_model renamed account_row).1
    ≡ some (("id", plain 10) ∷ ("username", plain 2) ∷ ("posts", plain 5) ∷ [])
unfolding save_object Objects.has_changed Objects.update_changed Objects.update_where get put pop
    member
save_renamed = refl

renamed-IsSynced : IsSynced account_model renamed account_row
unfolding get member attr
renamed-IsSynced = (λ f h. ground arith, λ f. (refl, λ g h. ground arith))

save_object_lem_example :
    IsSaved account_model renamed (save_object (plain 0) account_model renamed account_row)
save_object_lem_example =
    save_object_lem (plain 0) account_model renamed account_row renamed-IsSynced

leb_total : (a b : ℕ) → (leb a b ≡ true) ⊎ (leb b a ≡ true)
leb_total a b = ground arith

leb_trans : (a b c : ℕ) → leb a b ≡ true → leb b c ≡ true → leb a c ≡ true
leb_trans a b c h k = ground arith

instance abbrev number_ranked : Ranked ℕ
number_ranked = record { leq = leb; leq_total = leb_total; leq_trans = leb_trans }

instance abbrev number_comparable : Comparable ℕ
number_comparable = record {
  keyed = nat_keyed;
  less = ltb;
  leq = leb;
  is_truthy = λ v. not (nat_beq v 0);
  is_within = λ v w. none;
  is_within_folded = λ v w. none;
  folded = λ v. v ∷ [];
  folded_list = λ vs. vs;
}

-- posts by their pinned flag and their time
abbrev post_column : ℕ × Option ℕ → String → Option ℕ
post_column (pinned, time) c = if c == "pinned" then some pinned else time

abbrev posts : List (ℕ × Option ℕ)
posts = (0, some 4) ∷ (1, some 2) ∷ (0, none) ∷ (1, some 9) ∷ []

abbrev pinned_first : OrderBySpec
pinned_first = ("pinned", desc) ∷ ("createdAt", asc) ∷ []

sorted_posts :
    sort_results post_column pinned_first posts
    ≡ (1, some 2) ∷ (1, some 9) ∷ (0, some 4) ∷ (0, none) ∷ []
unfolding sort_results
sorted_posts = refl

-- no order between posts beforehand
abbrev AnyOrder : ℕ × Option ℕ → ℕ × Option ℕ → Type 0
AnyOrder p q = Unit

sort_results_lem_example :
    Ordered
      (Lexicographic post_column pinned_first AnyOrder)
      (sort_results post_column pinned_first posts)
    × Perm (sort_results post_column pinned_first posts) posts
sort_results_lem_example =
    sort_results_lem post_column AnyOrder pinned_first posts
      ((tt, (tt, (tt, tt))), ((tt, (tt, tt)), ((tt, tt), (tt, tt))))

parse_lookup-filter_name_example :
    parse_lookup (filter_name (codes "attachments__contentId") gt)
    ≡ (codes "attachments__contentId", gt)
parse_lookup-filter_name_example = parse_lookup-filter_name (codes "attachments__contentId") gt

-- created between 3 and 8, and with more than 2 likes
abbrev recent_and_liked : List (Filter ℕ)
recent_and_liked =
    record { field = codes "createdAt"; lookup = between; value = many (3 ∷ 8 ∷ []) }
    ∷ record { field = codes "likes"; lookup = gt; value = one (some 2) }
    ∷ []

abbrev liked_row : Text → Option ℕ
liked_row f = if f == codes "likes" then some 5 else some 4

abbrev no_search : Condition → Option ℕ → Bool
no_search condition value = false

cache-agrees_example :
    (query : List Condition × List (Param ℕ) × ℕ) × (build_where_clauses recent_and_liked 1
      ≡ some query)
    × (matches_filters (λ f. scalar (liked_row f)) recent_and_liked
        ≡ some (all (holds no_search liked_row (positional query.1)) query.0))
cache-agrees_example =
    cache-agrees no_search liked_row recent_and_liked (by_between 3 8, (by_gt 2, tt))

-- two accounts in the database, and pydantic keeping the fields of a row
abbrev schema : Schema ℕ ℕ
schema = record { model = λ k. account_model; validate = λ k row. some row }

abbrev row_10 : Dict String (Objects.Value ℕ)
row_10 = ("id", plain 10) ∷ ("username", plain 1) ∷ ("posts", plain 5) ∷ []

abbrev row_11 : Dict String (Objects.Value ℕ)
row_11 = ("id", plain 11) ∷ ("username", plain 2) ∷ ("posts", plain 3) ∷ []

abbrev objects_store : Store ℕ (Object ℕ)
objects_store = invalidate_all (record {
  cache = [];
  type_index = [];
  timestamps = [];
  fully_loaded = [];
  type_ttls = (1, some 60) ∷ [];
  default_ttl = none;
})

objects_store-IsConsistent : IsConsistent objects_store
objects_store-IsConsistent = invalidate_all-IsConsistent (record {
  cache = [];
  type_index = [];
  timestamps = [];
  fully_loaded = [];
  type_ttls = (1, some 60) ∷ [];
  default_ttl = none;
})

abbrev session : Session ℕ ℕ
session = record { store = objects_store; rows = ((1, 10), row_10) ∷ ((1, 11), row_11) ∷ [] }

abbrev preloaded : Session ℕ ℕ
preloaded = (preload schema 5 (1 ∷ []) session).0

preload_returns : (preload schema 5 (1 ∷ []) session).1 ≡ returned tt
unfolding preload get invalidate_all put
preload_returns = refl

get_entity-IsRead_example :
    IsRead 1 11 session (get_entity schema 5 1 11 session).0 (get_entity schema 5 1 11 session).1
get_entity-IsRead_example = get_entity-IsRead schema 5 1 11 session objects_store-IsConsistent

preload-ArePreloaded_example : ArePreloaded (1 ∷ []) session preloaded
preload-ArePreloaded_example =
    preload-ArePreloaded schema 5 (1 ∷ []) session objects_store-IsConsistent preload_returns

abbrev number_of : Objects.Value ℕ → Option ℕ
number_of (plain x) = some x
number_of _ = none

-- the only filtered attribute of an account is the number of its posts
abbrev reading : Reading ℕ ℕ ℕ
unfolding attr
reading = record {
  attribute = λ o f. scalar (number_of (attr o.value.fields "posts"));
  column = λ o c. number_of (attr o.value.fields c);
}

abbrev database : Database ℕ ℕ ℕ
database = record {
  select = λ rows k conditions params spec limit offset. [];
  count = λ rows k conditions params. 0;
}

abbrev account_10 : Entity ℕ (Object ℕ)
account_10 = record {
  kind = 1;
  id = some 10;
  value = record {
    fields = row_10;
    snapshot = ("username", plain 1) ∷ ("posts", plain 5) ∷ [];
    is_new = false;
  };
}

abbrev account_11 : Entity ℕ (Object ℕ)
account_11 = record {
  kind = 1;
  id = some 11;
  value = record {
    fields = row_11;
    snapshot = ("username", plain 2) ∷ ("posts", plain 3) ∷ [];
    is_new = false;
  };
}

abbrev busy : List (Filter ℕ)
busy = record { field = codes "posts"; lookup = gt; value = one (some 4) } ∷ []

abbrev by_name : OrderBySpec
by_name = ("username", desc) ∷ []

abbrev loaded_store : Store ℕ (Object ℕ)
loaded_store = record {
  cache = ((1, 10), account_10) ∷ ((1, 11), account_11) ∷ [];
  type_index = (1, 11 ∷ 10 ∷ []) ∷ [];
  timestamps = ((1, 10), 5) ∷ ((1, 11), 5) ∷ [];
  fully_loaded = 1 ∷ [];
  type_ttls = (1, some 60) ∷ [];
  default_ttl = none;
}

-- what the preload leaves
preloaded_is : preloaded ≡ record { store = loaded_store; rows = session.rows }
unfolding preload get invalidate_all put add member
preloaded_is = refl

abbrev loaded : Session ℕ ℕ
loaded = record { store = loaded_store; rows = session.rows }

loaded-IsConsistent : IsConsistent loaded_store
loaded-IsConsistent =
    let p =
      preload-ArePreloaded schema 5 (1 ∷ []) session objects_store-IsConsistent preload_returns in
    subst (λ (s : Session ℕ ℕ). IsConsistent s.store) preloaded_is p.consistent

loaded_fully : is_fully_loaded 1 loaded_store ≡ true
unfolding is_fully_loaded member
loaded_fully = refl

busy_found : (find reading schema database 9 1 busy by_name loaded).1 ≡ returned (account_10 ∷ [])
unfolding find get member
busy_found = refl

find_exact_example :
    ((find reading schema database 9 1 busy by_name loaded).0 ≡ loaded)
    × ((i : ℕ)
        → any (has_id i) (account_10 ∷ [])
          ≡ is_there (λ o. is_passed (passes reading busy o)) (get loaded_store.cache (1, i)))
find_exact_example =
    find_exact reading schema database 9 1 busy by_name loaded (account_10 ∷ []) loaded-IsConsistent
      loaded_fully busy_found

find_variants_example :
    ((find_one reading schema database 9 1 busy by_name loaded).1 ≡ returned (some account_10))
    × (count reading schema database 1 busy loaded ≡ returned 1)
    × ((pages : List (List (Entity ℕ (Object ℕ)))) × ((find_iter reading schema database 7 9 1 busy
            by_name 50 loaded).1
          ≡ returned pages)
        × (concat pages ≡ account_10 ∷ []))
find_variants_example =
    find_variants reading schema database 7 9 1 busy by_name 49 loaded (account_10 ∷ [])
      loaded_fully busy_found

expired_10 : is_expired 66 1 10 loaded_store ≡ true
unfolding is_expired get
expired_10 = refl

hidden_10 :
    (find reading schema database 67 1 [] by_name
      (with_store loaded (get_from_cache 66 1 10 loaded_store).0)).1
    ≡ returned (account_11 ∷ [])
unfolding find get get_from_cache is_expired pop put discard member
hidden_10 = refl

expired-hidden_example : any (has_id 10) (account_11 ∷ []) ≡ false
expired-hidden_example =
    expired-hidden reading schema database 66 67 1 10 by_name loaded (account_11 ∷ [])
      loaded-IsConsistent loaded_fully expired_10 hidden_10
