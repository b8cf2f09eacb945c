-- ===== src/Daemon/Polling/Stories.antt =====
-- The story poll: a creator is returned when its stories become active, and not again.
use fansly_scraper.Common.{
  ℕ, ◌+◌, ◌≡◌, refl, ap, Bool, true, false, Option, none, some, List, [], ◌∷◌, ◌++◌, arith, All,
  Bool-cases, inl, inr,
}
use mathlib.Core.Path.{subst, ◌∙◌}
use fansly_scraper.Common.Int.{ℤ, int_beq_iff}
use fansly_scraper.Common.Classes.{◌==◌, int_keyed}
use fansly_scraper.Common.Dict.{get-put}
use fansly_scraper.Helpers.Result.{Result, ok, ◌>>=◌, >>=-returns}
use fansly_scraper.Helpers.Json.{Value, arr, Items, items}
use fansly_scraper.Daemon.Polling.{
  Store, works, save_fails, find_state, is_snowflake, was_inactive, Polled, note_story, read_story,
  note_stories, poll_story_states,
}

-- the activity that the store remembers of a creator
abbrev pub remembered : Store → ℤ → Option Bool
remembered s c = elim (find_state s c) [ none ↦ none | some st ↦ st.last_has_active_stories ]

-- What one creator does to the poll, on a store that works: it is returned if it is active and
-- was not, and then the store remembers its activity.
note_story-remembers :
    (now : ℕ) (c : ℤ) (active : Bool) (p : Polled)
    → is_snowflake c ≡ true
    → remembered (note_story works now c active p).store c ≡ some active
unfolding note_story find_state
note_story-remembers now c active p h = ground (
  arith,
  get-put p.store.cache c c (record { last_has_active_stories = some active; updated_at = now }),
  int_beq_iff c c,
)

note_story-others :
    (now : ℕ) (c d : ℤ) (active : Bool) (p : Polled)
    → (c == d) ≡ false
    → remembered (note_story works now c active p).store d ≡ remembered p.store d
unfolding note_story find_state
note_story-others now c d active p h = ground (
  arith,
  get-put p.store.cache c d (record { last_has_active_stories = some active; updated_at = now }),
  get-put p.store.rows c d (record { last_has_active_stories = some active; updated_at = now }),
)

-- A creator whose activity is remembered is not returned again.
note_story-quiet :
    (now : ℕ) (c : ℤ) (active : Bool) (p : Polled)
    → remembered p.store c ≡ some active
    → (note_story works now c active p).flipped ≡ p.flipped
unfolding note_story find_state
note_story-quiet now c active p h = ground arith

-- A save that fails is swallowed, and the creator is returned all the same.
pub failed_save_returns :
    (now : ℕ) (c : ℤ) (p : Polled)
    → was_inactive (find_state p.store c) ≡ true
    → ((note_story save_fails now c true p).flipped ≡ p.flipped ++ c ∷ [])
      × ((note_story save_fails now c true p).store.rows ≡ p.store.rows)
unfolding note_story find_state
failed_save_returns now c p h = (ground arith, ground arith)

-- every element of the response, read
unfoldable pub read_stories : List Value → Result (List (ℤ × Bool))
read_stories [] = ok []
read_stories (v ∷ vs) = do s ← read_story v; rest ← read_stories vs; ok (s ∷ rest)

-- the states of a response, noted on a store that works
unfoldable pub note_all : (ℕ → ℕ) → ℕ → Polled → List (ℤ × Bool) → Polled
note_all clock n p [] = p
note_all clock n p ((c, active) ∷ es) =
    note_all clock (n + 1) (note_story works (clock n) c active p) es

note_stories-all :
    (clock : ℕ → ℕ) (n : ℕ) (p : Polled) (vs : List Value) (es : List (ℤ × Bool))
    → read_stories vs ≡ ok es
    → note_stories (λ i. works) clock n p vs
      ≡ (ok (note_all clock n p es).flipped, (note_all clock n p es).store)
unfolding note_stories read_stories note_all
note_stories-all clock n p [] es h = ground arith
note_stories-all clock n p (v ∷ vs) es h =
    let (s, read, h') = >>=-returns (read_story v) _ h in
    let (rest, read', h'') = >>=-returns (read_stories vs) _ h' in
    let q : es ≡ s ∷ rest = ground arith in
    rw (read, q)
      (note_stories-all clock (n + 1) (note_story works (clock n) s.0 s.1 p) vs rest read')

-- The response says of each creator, a snowflake, what `activity` says.
abbrev pub Reports : (ℤ → Bool) → List (ℤ × Bool) → Type 0
Reports activity es = All (λ (e : ℤ × Bool). (is_snowflake e.0 ≡ true) × (e.1 ≡ activity e.0)) es

module _ (activity : ℤ → Bool) (clock : ℕ → ℕ) where
  note_story-keeps :
      (now : ℕ) (c d : ℤ) (p : Polled)
      → is_snowflake d ≡ true
      → remembered p.store c ≡ some (activity c)
      → remembered (note_story works now d (activity d) p).store c ≡ some (activity c)
  note_story-keeps now c d p snow h = elim (Bool-cases (d == c)) [
    | inl same ↦
        let q : d ≡ c = (int_beq_iff d c).0 same in
        subst (λ x. remembered (note_story works now d (activity d) p).store x ≡ some (activity x))
          q (note_story-remembers now d (activity d) p snow)
    | inr other ↦ note_story-others now d c (activity d) p other ∙ h
  ]

  note_all-keeps :
      (n : ℕ) (c : ℤ) (p : Polled) (es : List (ℤ × Bool))
      → Reports activity es
      → remembered p.store c ≡ some (activity c)
      → remembered (note_all clock n p es).store c ≡ some (activity c)
  unfolding note_all
  note_all-keeps n c p [] r h = h
  note_all-keeps n c p ((d, a) ∷ es) r h =
      note_all-keeps (n + 1) c (note_story works (clock n) d a p) es r.1
        (rw r.0.1 (note_story-keeps (clock n) c d p r.0.0 h))

  abbrev AllRemembered : Store → List (ℤ × Bool) → Type 0
  AllRemembered s es = All (λ (e : ℤ × Bool). remembered s e.0 ≡ some (activity e.0)) es

  note_story-All :
      (now : ℕ) (d : ℤ) (p : Polled) (es : List (ℤ × Bool))
      → is_snowflake d ≡ true
      → AllRemembered p.store es
      → AllRemembered (note_story works now d (activity d) p).store es
  note_story-All now d p [] snow h = tt
  note_story-All now d p ((c, a) ∷ es) snow h =
      (note_story-keeps now c d p snow h.0, note_story-All now d p es snow h.1)

  -- after the poll, every state of the response is remembered
  note_all-remembers :
      (n : ℕ) (p : Polled) (es : List (ℤ × Bool))
      → Reports activity es
      → AllRemembered (note_all clock n p es).store es
  unfolding note_all
  note_all-remembers n p [] r = tt
  note_all-remembers n p ((d, a) ∷ es) r = (
    note_all-keeps (n + 1) d (note_story works (clock n) d a p) es r.1
        (rw r.0.1 (note_story-remembers (clock n) d (activity d) p r.0.0)),
    note_all-remembers (n + 1) (note_story works (clock n) d a p) es r.1,
  )

  -- what is remembered is not returned again
  note_all-quiet :
      (n : ℕ) (p : Polled) (es : List (ℤ × Bool))
      → Reports activity es
      → AllRemembered p.store es
      → (note_all clock n p es).flipped ≡ p.flipped
  unfolding note_all
  note_all-quiet n p [] r h = refl
  note_all-quiet n p ((d, a) ∷ es) r h = rw r.0.1 (
      note_all-quiet (n + 1) (note_story works (clock n) d (activity d) p) es r.1
        (note_story-All (clock n) d p es r.0.0 h.1)
      ∙ note_story-quiet (clock n) d (activity d) p h.0)

  -- On a store that works, from any store: if a response reads well and says one thing of each
  -- creator, all of them snowflakes, then a second poll that gets the same response returns no
  -- creator.
  pub second_poll_quiet :
      (s : Store) (vs : Items) (es : List (ℤ × Bool))
      → read_stories (items vs) ≡ ok es
      → Reports activity es
      → let after = (poll_story_states (λ i. works) clock s (some (arr vs))).1 in
        (poll_story_states (λ i. works) clock after (some (arr vs))).0 ≡ ok []
  unfolding poll_story_states
  second_poll_quiet s vs es read r =
      let first =
        note_stories-all clock 0 (record { flipped = []; store = s }) (items vs) es read in
      let after = (note_all clock 0 (record { flipped = []; store = s }) es).store in
      let second =
        note_stories-all clock 0 (record { flipped = []; store = after }) (items vs) es read in
      let remembers = note_all-remembers 0 (record { flipped = []; store = s }) es r in
      rw (first, second)
        (ap (λ (cs : List ℤ). ok cs)
          (note_all-quiet 0 (record { flipped = []; store = after }) es r remembers))
