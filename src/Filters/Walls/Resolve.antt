-- ===== src/Filters/Walls/Resolve.antt =====
-- Which walls a filter selects, wall by wall.
use fansly_scraper.Common.{
  ℕ, ◌≡◌, refl, ap, inl, inr, Bool, true, false, not, ◌&&◌, ◌||◌, Option, none, some, List, [], ◌∷◌,
  arith, nat_beq, any, nat_beq_iff, Bool-cases, Option-cases, if◌then◌else◌,
}
use fansly_scraper.Common.Classes.{◌==◌, codes_keyed, codes_beq_iff}
use fansly_scraper.Common.Dict.{Dict, get, get-put}
use fansly_scraper.Helpers.Result.{Result, ok, ◌>>=◌, >>=-returns}
use fansly_scraper.Helpers.Text.{Text, strip}
use fansly_scraper.Filters.Media.{digits_value}
use fansly_scraper.Filters.Walls.{
  WallFilterSpec, is_snowflake_token, spec_for_creator, mem_wall, union, difference, or_empty_set,
  note_name, ids_by_name, token_hit, match_tokens, included, resolve_wall_filter,
}

mem_wall-union :
    (n : ℕ) (ms ns : List ℕ) → mem_wall n (union ms ns) ≡ (mem_wall n ms || mem_wall n ns)
mem_wall-union n [] ns = refl
mem_wall-union n (m ∷ ms) ns = ground (arith, mem_wall-union n ms ns)

mem_wall-difference :
    (n : ℕ) (ms ns : List ℕ)
    → mem_wall n (difference ms ns) ≡ (mem_wall n ms && not (mem_wall n ns))
mem_wall-difference n [] ns = refl
mem_wall-difference n (m ∷ ms) ns = elim (Bool-cases (nat_beq m n)) [
  | inl same ↦
      let equal : m ≡ n = (nat_beq_iff m n).0 same in
      rw (equal) (ground (arith, mem_wall-difference n ms ns))
  | inr other ↦ ground (arith, mem_wall-difference n ms ns)
]

module _ (casefold : Text → Text) (name_of : ℕ → Option Text) where
  -- The wall has a name, and it folds to this key.
  abbrev pub folds_to : Text → Option Text → Bool
  folds_to key none = false
  folds_to key (some []) = false
  folds_to key (some (c ∷ cs)) = casefold (c ∷ cs) == key

  abbrev pub is_named : Text → ℕ → Bool
  is_named key n = folds_to key (name_of n)

  note_name-mem :
      (d : Dict Text (List ℕ)) (id n : ℕ) (name : Option Text) (key : Text)
      → mem_wall n (or_empty_set (get (note_name casefold name_of d id name) key))
        ≡ (mem_wall n (or_empty_set (get d key)) || (nat_beq id n && folds_to key name))
  note_name-mem d id n none key = ground arith
  note_name-mem d id n (some []) key = ground arith
  note_name-mem d id n (some (c ∷ cs)) key =
      let k = casefold (c ∷ cs) in
      ground (arith, get-put d k key (id ∷ or_empty_set (get d k)), codes_beq_iff k key)

  ids_by_name-mem :
      (d : Dict Text (List ℕ)) (ids : List ℕ) (n : ℕ) (key : Text)
      → mem_wall n (or_empty_set (get (ids_by_name casefold name_of d ids) key))
        ≡ (mem_wall n (or_empty_set (get d key)) || (mem_wall n ids && is_named key n))
  unfolding ids_by_name
  ids_by_name-mem d [] n key = ground arith
  ids_by_name-mem d (id ∷ ids) n key =
      let rest = ids_by_name-mem (note_name casefold name_of d id (name_of id)) ids n key in
      let noted = note_name-mem d id n (name_of id) key in
      elim (Bool-cases (nat_beq id n)) [
        | inl same ↦
            ground
              (arith, rest, noted, ap (λ i. folds_to key (name_of i)) ((nat_beq_iff id n).0 same))
        | inr other ↦ ground (arith, rest, noted)
      ]

  -- A token means a wall: it is the id of a wall, and this one has it; or it is none, and this
  -- wall has that name, in any case.
  abbrev pub means : List ℕ → Text → ℕ → Bool
  means walls tok n =
      if is_snowflake_token tok && mem_wall (digits_value 0 tok) walls
      then nat_beq (digits_value 0 tok) n
      else mem_wall n walls && is_named (casefold tok) n

  token_hit-mem :
      (walls : List ℕ) (tok : Text) (hit : List ℕ) (n : ℕ)
      → token_hit casefold name_of walls (ids_by_name casefold name_of [] walls) tok ≡ ok hit
      → mem_wall n hit ≡ means walls tok n
  unfolding token_hit get
  token_hit-mem walls tok hit n e = ground (arith, ids_by_name-mem [] walls n (casefold tok))

  match_tokens-mem :
      (walls : List ℕ) (tokens : List Text) (hits : List ℕ) (n : ℕ)
      → match_tokens casefold name_of walls (ids_by_name casefold name_of [] walls) tokens ≡ ok hits
      → mem_wall n hits ≡ any (λ token. means walls (strip token) n) tokens
  unfolding match_tokens
  match_tokens-mem walls [] hits n e = ground (arith, e)
  match_tokens-mem walls (token ∷ tokens) hits n e =
      let names = ids_by_name casefold name_of [] walls in
      let first =
        >>=-returns (token_hit casefold name_of walls names (strip token))
          (λ hit. do rest ← match_tokens casefold name_of walls names tokens; ok (union hit rest))
          e in
      let second =
        >>=-returns (match_tokens casefold name_of walls names tokens)
          (λ rest. ok (union first.0 rest)) first.2 in
      ground (
        arith,
        token_hit-mem walls (strip token) first.0 n first.1,
        match_tokens-mem walls tokens second.0 n second.1,
        mem_wall-union n first.0 second.0,
        second.2,
      )

  -- A wall is wanted: no include is given, or one of them means it.
  abbrev pub is_wanted : List ℕ → List Text → ℕ → Bool
  is_wanted walls [] n = mem_wall n walls
  is_wanted walls (token ∷ tokens) n = any (λ t. means walls (strip t) n) (token ∷ tokens)

  included-mem :
      (walls : List ℕ) (tokens : List Text) (resolved : List ℕ) (n : ℕ)
      → included casefold name_of walls (ids_by_name casefold name_of [] walls) tokens ≡ ok resolved
      → mem_wall n resolved ≡ is_wanted walls tokens n
  included-mem walls [] resolved n e = ground (arith, e)
  included-mem walls (token ∷ tokens) resolved n e =
      match_tokens-mem walls (token ∷ tokens) resolved n e

  resolved_spec :
      (filters : Dict Text WallFilterSpec) (creator : Option Text) (spec : WallFilterSpec)
      (walls : List ℕ) {r : Result (List ℕ)}
      → spec_for_creator filters creator ≡ some spec
      → spec.all_walls ≡ false
      → resolve_wall_filter casefold name_of filters creator walls ≡ r
      → (do
        kept ← included casefold name_of walls (ids_by_name casefold name_of [] walls) spec.includes
        dropped ←
            match_tokens casefold name_of walls
              (ids_by_name casefold name_of [] walls)
              spec.excludes
        ok (difference kept dropped))
        ≡ r
  unfolding resolve_wall_filter
  resolved_spec filters creator spec walls found some_walls e = ground (arith, e)

  -- If a creator has a filter that does not take all walls, and the filter resolves, then a wall is
  -- downloaded exactly if an include means it, or none is given and the creator has the wall, and
  -- no exclude means it. A token means the wall that it is the id of, else every wall of its name.
  pub resolve_wall_filter_lem :
      (filters : Dict Text WallFilterSpec) (creator : Option Text) (spec : WallFilterSpec)
      (walls resolved : List ℕ) (n : ℕ)
      → spec_for_creator filters creator ≡ some spec
      → spec.all_walls ≡ false
      → resolve_wall_filter casefold name_of filters creator walls ≡ ok resolved
      → mem_wall n resolved ≡ (
          is_wanted walls spec.includes n && not (any (λ t. means walls (strip t) n) spec.excludes))
  resolve_wall_filter_lem filters creator spec walls resolved n found some_walls e =
      let names = ids_by_name casefold name_of [] walls in
      let e' = resolved_spec filters creator spec walls found some_walls e in
      let first =
        >>=-returns (included casefold name_of walls names spec.includes)
          (λ kept. do
            dropped ← match_tokens casefold name_of walls names spec.excludes
            ok (difference kept dropped))
          e' in
      let second =
        >>=-returns (match_tokens casefold name_of walls names spec.excludes)
          (λ dropped. ok (difference first.0 dropped)) first.2 in
      ground (
        arith,
        included-mem walls spec.includes first.0 n first.1,
        match_tokens-mem walls spec.excludes second.0 n second.1,
        mem_wall-difference n first.0 second.0,
        second.2,
      )

  means-mem :
      (walls : List ℕ) (tok : Text) (n : ℕ) → means walls tok n ≡ true → mem_wall n walls ≡ true
  means-mem walls tok n h = elim (Bool-cases (nat_beq (digits_value 0 tok) n)) [
    | inl same ↦
        ground (arith, ap (λ i. mem_wall i walls) ((nat_beq_iff (digits_value 0 tok) n).0 same))
    | inr other ↦ ground arith
  ]

  any-means-mem :
      (walls : List ℕ) (tokens : List Text) (n : ℕ)
      → any (λ t. means walls (strip t) n) tokens ≡ true
      → mem_wall n walls ≡ true
  any-means-mem walls [] n h = cc
  any-means-mem walls (t ∷ ts) n h =
      ground (arith, means-mem walls (strip t) n, any-means-mem walls ts n)

  wanted-mem :
      (walls : List ℕ) (tokens : List Text) (n : ℕ)
      → is_wanted walls tokens n ≡ true
      → mem_wall n walls ≡ true
  wanted-mem walls [] n h = h
  wanted-mem walls (t ∷ ts) n h = any-means-mem walls (t ∷ ts) n h

  -- Whatever the filters say, a wall that is downloaded is one that the creator has.
  pub resolved_within :
      (filters : Dict Text WallFilterSpec) (creator : Option Text) (walls resolved : List ℕ) (n : ℕ)
      → resolve_wall_filter casefold name_of filters creator walls ≡ ok resolved
      → mem_wall n resolved ≡ true
      → mem_wall n walls ≡ true
  unfolding resolve_wall_filter
  resolved_within filters creator walls resolved n e h =
      elim (Option-cases (spec_for_creator filters creator)) [
        | inl no_spec ↦ ground arith
        | inr (spec, found) ↦ elim (Bool-cases spec.all_walls) [
          | inl all_taken ↦ ground arith
          | inr some_walls ↦ wanted-mem walls spec.includes n (
              ground (
                arith,
                resolve_wall_filter_lem filters creator spec walls resolved n found some_walls e,
              ))
        ]
      ]
