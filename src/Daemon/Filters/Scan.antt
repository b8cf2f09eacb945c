-- ===== src/Daemon/Filters/Scan.antt =====
-- The pages of a timeline as one list of posts: the first one that is not pinned decides.
use fansly_scraper.Common.{
  ℕ, zero, suc, ◌≡◌, refl, ap, ◌∙◌, if◌then◌else◌, Bool, false, Option, none, some, List, [], ◌∷◌,
  ◌++◌, map, arith,
}
use fansly_scraper.Common.Int.{pos}
use fansly_scraper.Helpers.Result.{Result, ok}
use fansly_scraper.Helpers.Json.{
  field_or_null, truthy, Value, str, arr, obj, Items, nil, cons, Fields, end, field, items,
  get_field,
}
use fansly_scraper.Helpers.Timestamp.{Datetime, parse_timestamp}
use fansly_scraper.Daemon.Filters.{
  Loaded, Decision, field_or, objects, first_unpinned, oldest_id, Response, response, posts_of,
  is_newer_than_baseline, judge, examined, examine_page, paginate, with_prefetched,
  effective_baseline, should_process_creator,
}

abbrev pub to_items : List Value → Items
to_items [] = nil
to_items (v ∷ vs) = cons v (to_items vs)

items-to_items : (vs : List Value) → items (to_items vs) ≡ vs
items-to_items [] = refl
items-to_items (v ∷ vs) = ap (λ (r : List Value). v ∷ r) (items-to_items vs)

-- the response that holds these posts
abbrev pub page_response : List Fields → Response
page_response posts = response (obj (field "posts" (arr (to_items (map obj posts))) end))

abbrev pub last_post : Fields → List Fields → Fields
last_post p [] = p
last_post p (q ∷ qs) = last_post q qs

-- The cursor after a page.
abbrev pub next_cursor : Fields → List Fields → Value
next_cursor p ps = field_or (last_post p ps) "id" (str "0")

objects-map : (ps : List Fields) → objects (map obj ps) ≡ ok ps
unfolding objects
objects-map [] = refl
objects-map (p ∷ ps) = rw (objects-map ps)

oldest_id-map :
    (p : Fields) (ps : List Fields) → oldest_id (map obj (p ∷ ps)) ≡ ok (next_cursor p ps)
unfolding oldest_id
oldest_id-map p [] = refl
oldest_id-map p (q ∷ qs) = oldest_id-map q qs

posts_of-page : (ps : List Fields) → posts_of (page_response ps) ≡ some (map obj ps)
unfolding posts_of get_field
posts_of-page ps = ap some (items-to_items (map obj ps))

-- the first answer, if there is one, else the second
abbrev first_of_two : Option Fields → Option Fields → Option Fields
first_of_two none o = o
first_of_two (some p) o = some p

first_unpinned-append :
    (ps qs : List Fields)
    → first_unpinned (ps ++ qs) ≡ first_of_two (first_unpinned ps) (first_unpinned qs)
unfolding first_unpinned
first_unpinned-append [] qs = refl
first_unpinned-append (p ∷ ps) qs = ground (arith, first_unpinned-append ps qs)

-- the posts that are not pinned
abbrev pub unpinned : List Fields → List Fields
unpinned [] = []
unpinned (p ∷ ps) =
    let rest = unpinned ps in if truthy (field_or_null p "pinned") then rest else p ∷ rest

module _ (dt : Datetime) (baseline : dt.Instant) where
  -- Whether the first post that is not pinned is newer; no, if every post is pinned.
  abbrev verdict_at : Option Fields → Result Bool
  verdict_at none = ok false
  verdict_at (some p) = is_newer_than_baseline dt p baseline

  abbrev verdict : List Fields → Result Bool
  verdict ps = verdict_at (first_unpinned ps)

  abbrev pub first_is_newer : List Fields → Result Bool
  first_is_newer [] = ok false
  first_is_newer (p ∷ ps) = is_newer_than_baseline dt p baseline

  verdict-unpinned : (ps : List Fields) → verdict ps ≡ first_is_newer (unpinned ps)
  unfolding first_unpinned
  verdict-unpinned [] = refl
  verdict-unpinned (p ∷ ps) = ground (arith, verdict-unpinned ps)

  examine-map :
      (p : Fields) (ps : List Fields)
      → examine_page dt (map obj (p ∷ ps)) baseline ≡ judge dt baseline (first_unpinned (p ∷ ps))
  unfolding examine_page
  examine-map p ps = rw (objects-map ps)

  -- The answer of a page that is examined, before and after the posts that follow it.
  examined-verdict :
      (fetch : ℕ → Value → Response) (rest : Value → Decision) (p : Fields) (ps qs : List Fields)
      → (rest (next_cursor p ps)).answer ≡ verdict qs
      → (examined dt fetch baseline rest
          (map obj (p ∷ ps))
          (examine_page dt (map obj (p ∷ ps)) baseline)).answer
        ≡ verdict ((p ∷ ps) ++ qs)
  examined-verdict fetch rest p ps qs h =
      rw (examine-map p ps, first_unpinned-append (p ∷ ps) qs) (ground (arith, oldest_id-map p ps))

  module _ (head : ℕ → Value → Fields) (tail : ℕ → Value → List Fields) where
    -- An API that answers each request by a page of at least one post.
    abbrev pub timeline : ℕ → Value → Response
    timeline round cursor = page_response (head round cursor ∷ tail round cursor)

    -- The posts of the pages that the cursors lead through.
    unfoldable pub collected : ℕ → ℕ → Value → List Fields
    collected zero round cursor = []
    collected (suc left) round cursor =
        (head round cursor ∷ tail round cursor)
        ++ collected left (suc round) (next_cursor (head round cursor) (tail round cursor))

    paginate-verdict :
        (left round : ℕ) (cursor : Value)
        → (paginate dt timeline baseline left round cursor).answer
          ≡ verdict (collected left round cursor)
    unfolding paginate collected
    paginate-verdict zero round cursor = unfold first_unpinned in refl
    paginate-verdict (suc left) round cursor =
        let p = head round cursor in
        let ps = tail round cursor in
        rw (posts_of-page (p ∷ ps)) (
          examined-verdict timeline (paginate dt timeline baseline left (suc round)) p ps _
            (paginate-verdict left (suc round) (next_cursor p ps)))

  -- Given a baseline and an API that answers every request by a page of at least one post: the
  -- creator is processed exactly if the first post that is not pinned, among the prefetched page
  -- and the three pages that the cursors lead through, is newer than the baseline; if all of them
  -- are pinned the creator is skipped, and what a comparison raises is raised.
  pub should_process-verdict :
      (head : ℕ → Value → Fields) (tail : ℕ → Value → List Fields) (session : Option dt.Instant)
      (loaded : Loaded dt.Instant) (p : Fields) (ps : List Fields)
      → effective_baseline dt session loaded ≡ some baseline
      → (should_process_creator dt
          (timeline head tail)
          session
          loaded
          (some (map obj (p ∷ ps)))).answer
        ≡ first_is_newer (unpinned ((p ∷ ps) ++ collected head tail 3 0 (next_cursor p ps)))
  unfolding should_process_creator with_prefetched
  should_process-verdict head tail session loaded p ps e =
      rw (e, should_process_creator)
        (examined-verdict (timeline head tail) (paginate dt (timeline head tail) baseline 3 0) p ps
          _ (paginate-verdict head tail 3 0 (next_cursor p ps)))
      ∙ verdict-unpinned ((p ∷ ps) ++ collected head tail 3 0 (next_cursor p ps))

-- A post without a `createdAt` is read as one of the epoch: if that is not later than the
-- baseline, the post counts as old.
pub missing_created_is_old :
    (dt : Datetime) (baseline epoch : dt.Instant) (post : Fields)
    → get_field post "createdAt" ≡ none
    → dt.from_int false (pos 0) ≡ ok epoch
    → dt.later epoch baseline ≡ ok false
    → is_newer_than_baseline dt post baseline ≡ ok false
unfolding is_newer_than_baseline parse_timestamp
missing_created_is_old dt baseline epoch post missing at_epoch old = ground arith
