-- ===== src/Daemon/Polling/Home.antt =====
-- The home-timeline poll against the list of the posts that it reads.
use fansly_scraper.Common.{
  ◌≡◌, refl, Bool, true, not, ◌&&◌, ◌||◌, some, List, [], ◌∷◌, ◌++◌, any, arith, if◌then◌else◌,
  Bool-cases, inl, inr,
}
use mathlib.Core.List.{append-nil, append_assoc}
use fansly_scraper.Common.Int.{ℤ, int_beq_iff}
use fansly_scraper.Common.Classes.{◌==◌, int_keyed}
use fansly_scraper.Common.Sets.{member, member-append, are_distinct, are_distinct-append}
use fansly_scraper.Common.Dict.{get, get-put}
use fansly_scraper.Helpers.Result.{Result, ok, raise, ◌>>=◌}
use fansly_scraper.Helpers.Json.{Value, obj, Fields, get_field, expect_list}
use fansly_scraper.Daemon.Polling.{
  Entry, read_post, Seen, member, add_id, or_empty, note_post, note_posts, nothing_seen,
  posts_or_empty, poll_home_timeline,
}

-- every element of the response, read
unfoldable pub read_posts : List Value → Result (List Entry)
read_posts [] = ok []
read_posts (v ∷ vs) = do e ← read_post v; es ← read_posts vs; ok (e ∷ es)

-- the posts of a creator, in order
unfoldable pub posts_by : ℤ → List Entry → List Fields
posts_by c [] = []
posts_by c (e ∷ es) = if e.creator == c then e.post ∷ posts_by c es else posts_by c es

-- has the creator a post that is not known?
unfoldable pub has_new : (ℤ → Bool) → ℤ → List Entry → Bool
has_new known c es = any (λ (e : Entry). e.creator == c && not (known e.post_id)) es

member-add_id : (c d : ℤ) (cs : List ℤ) → member c (add_id d cs) ≡ (member c cs || d == c)
unfolding add_id
member-add_id c d cs = ground (arith, member-append c d cs, int_beq_iff d c)

add_id-distinct : (c : ℤ) (cs : List ℤ) → are_distinct cs ≡ true → are_distinct (add_id c cs) ≡ true
unfolding add_id
add_id-distinct c cs h = ground (arith, h, are_distinct-append c cs)

abbrev pub fold_posts : (ℤ → Bool) → Seen → List Entry → Seen
fold_posts known s [] = s
fold_posts known s (e ∷ es) = fold_posts known (note_post known e s) es

-- The loop reads all posts, then notes them.
note_posts-fold :
    (known : ℤ → Bool) (s : Seen) (vs : List Value)
    → note_posts known s vs ≡ (read_posts vs >>= λ es. ok (fold_posts known s es))
unfolding note_posts read_posts
note_posts-fold known s [] = refl
note_posts-fold known s (v ∷ vs) =
    go (read_post v) (λ e. note_posts-fold known (note_post known e s) vs)
  where
    go :
        (r : Result Entry)
        → ((e : Entry)
            → note_posts known (note_post known e s) vs
              ≡ (read_posts vs >>= λ es. ok (fold_posts known (note_post known e s) es)))
        → (r >>= λ e. note_posts known (note_post known e s) vs)
          ≡ (r >>= (λ e. read_posts vs >>= λ es. ok (e ∷ es)) >>= λ es. ok (fold_posts known s es))
    go (raise x) h = refl
    go (ok e) h = ground (arith, h e)

fold_posts-new :
    (known : ℤ → Bool) (s : Seen) (es : List Entry) (c : ℤ)
    → member c (fold_posts known s es).new_creators
      ≡ (member c s.new_creators || has_new known c es)
unfolding has_new note_post
fold_posts-new known s [] c = ground arith
fold_posts-new known s (e ∷ es) c = ground (
  arith,
  fold_posts-new known (note_post known e s) es c,
  member-add_id c e.creator s.new_creators,
)

fold_posts-by :
    (known : ℤ → Bool) (s : Seen) (es : List Entry) (c : ℤ)
    → or_empty (get (fold_posts known s es).by_creator c)
      ≡ or_empty (get s.by_creator c) ++ posts_by c es
unfolding posts_by note_post
fold_posts-by known s [] c = rw append-nil
fold_posts-by known s (e ∷ es) c =
    rw (fold_posts-by known (note_post known e s) es c, get-put)
      (elim (Bool-cases (e.creator == c)) [
        | inl same ↦
            let q : e.creator ≡ c = (int_beq_iff e.creator c).0 same in
            ground
              (arith, append_assoc (or_empty (get s.by_creator c)) (e.post ∷ []) (posts_by c es))
        | inr other ↦ rw other
      ])

fold_posts-distinct :
    (known : ℤ → Bool) (s : Seen) (es : List Entry)
    → are_distinct s.new_creators ≡ true
    → are_distinct (fold_posts known s es).new_creators ≡ true
unfolding note_post
fold_posts-distinct known s [] h = h
fold_posts-distinct known s (e ∷ es) h =
    fold_posts-distinct known (note_post known e s) es
      (ground (arith, h, add_id-distinct e.creator s.new_creators h))

-- the posts that a response holds, read; the first exception where that fails
unfoldable pub read_home : Fields → Result (List Entry)
read_home fs = expect_list (posts_or_empty (get_field fs "posts")) >>= read_posts

-- what a poll returns, by what its response holds
abbrev pub IsHome : (ℤ → Bool) → Result (List Entry) → Result Seen → Type 0
IsHome known (raise x) r = r ≡ raise x
IsHome known (ok es) r =
    (seen : Seen) × (r ≡ ok seen)
    × (are_distinct seen.new_creators ≡ true)
    × ((c : ℤ) → member c seen.new_creators ≡ has_new known c es)
    × ((c : ℤ) → or_empty (get seen.by_creator c) ≡ posts_by c es)

fold_posts-IsHome :
    (known : ℤ → Bool) (r : Result (List Entry))
    → IsHome known r (r >>= λ es. ok (fold_posts known nothing_seen es))
unfolding member get are_distinct
fold_posts-IsHome known (raise x) = refl
fold_posts-IsHome known (ok es) = (
  fold_posts known nothing_seen es,
  refl,
  fold_posts-distinct known nothing_seen es refl,
  λ c. fold_posts-new known nothing_seen es c,
  λ c. fold_posts-by known nothing_seen es c,
)

poll_home-fold :
    (known : ℤ → Bool) (r : Result (List Value))
    → (r >>= note_posts known nothing_seen)
      ≡ (r >>= read_posts >>= λ es. ok (fold_posts known nothing_seen es))
poll_home-fold known (raise x) = refl
poll_home-fold known (ok vs) = note_posts-fold known nothing_seen vs

-- A poll whose response is an object: if its list of posts or one of the posts does not read well,
-- the poll raises the first exception of the reading. Otherwise it returns the creators with a post
-- that is not known, each creator once, and for every creator all of its posts, in the order of the
-- response.
pub poll_home_lem :
    (known : ℤ → Bool) (fs : Fields)
    → IsHome known (read_home fs) (poll_home_timeline known (some (obj fs)))
unfolding poll_home_timeline read_home
poll_home_lem known fs =
    let posts = expect_list (posts_or_empty (get_field fs "posts")) in
    rw (poll_home-fold known posts) (fold_posts-IsHome known (posts >>= read_posts))
