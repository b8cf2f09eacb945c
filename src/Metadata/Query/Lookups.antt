-- ===== src/Metadata/Query/Lookups.antt =====
-- The names of filters: a field path and a lookup, joined by two underscores.
use mathlib.Core.List.{append-nil}
use fansly_scraper.Common.{
  ℕ, Option, none, some, List, [], ◌∷◌, ◌++◌, ◌≡◌, ◌⊎◌, refl, ap, arith, inl, inr, Bool-cases,
  Option-cases, nat_beq, sym, ◌∙◌,
}
use fansly_scraper.Common.Classes.{codes_keyed, ◌==◌}
use fansly_scraper.Helpers.Text.{Text, codes}
use fansly_scraper.Metadata.Query.{
  Lookup, exact, contains, icontains, iexact, gt, gte, lt, lte, ne, isin, isnull, between,
  lookup_name, lookups, find_lookup, after_char, rsplit, or_exact, parse_split, parse_lookup,
}

-- a field path and a lookup as the name of a filter
abbrev pub filter_name : Text → Lookup → Text
filter_name field l = field ++ (codes "__" ++ lookup_name l)

rsplit-append :
    (s t field lookup : Text)
    → rsplit t ≡ some (field, lookup)
    → rsplit (s ++ t) ≡ some (s ++ field, lookup)
unfolding rsplit
rsplit-append [] t field lookup h = h
rsplit-append (c ∷ cs) t field lookup h = rw (rsplit-append cs t field lookup h)

rsplit-lookup_name : (l : Lookup) → rsplit (codes "__" ++ lookup_name l) ≡ some ([], lookup_name l)
unfolding rsplit
rsplit-lookup_name exact = refl
rsplit-lookup_name contains = refl
rsplit-lookup_name icontains = refl
rsplit-lookup_name iexact = refl
rsplit-lookup_name gt = refl
rsplit-lookup_name gte = refl
rsplit-lookup_name lt = refl
rsplit-lookup_name lte = refl
rsplit-lookup_name ne = refl
rsplit-lookup_name isin = refl
rsplit-lookup_name isnull = refl
rsplit-lookup_name between = refl

find_lookup-lookup_name : (l : Lookup) → find_lookup lookups (lookup_name l) ≡ some l
unfolding find_lookup
find_lookup-lookup_name exact = refl
find_lookup-lookup_name contains = refl
find_lookup-lookup_name icontains = refl
find_lookup-lookup_name iexact = refl
find_lookup-lookup_name gt = refl
find_lookup-lookup_name gte = refl
find_lookup-lookup_name lt = refl
find_lookup-lookup_name lte = refl
find_lookup-lookup_name ne = refl
find_lookup-lookup_name isin = refl
find_lookup-lookup_name isnull = refl
find_lookup-lookup_name between = refl

after_char_joins :
    (c : ℕ) (cs : Text) (r : Option (Text × Text)) (field lookup : Text)
    → ((f l : Text) → r ≡ some (f, l) → cs ≡ f ++ (codes "__" ++ l))
    → after_char c cs r ≡ some (field, lookup)
    → c ∷ cs ≡ field ++ (codes "__" ++ lookup)
after_char_joins c [] none field lookup joined h = cc
after_char_joins c (d ∷ ds) none field lookup joined h = elim (Bool-cases (nat_beq c b'_')) [
  | inl first ↦ ground arith
  | inr other ↦ ground arith
]
after_char_joins c cs (some (f, l)) field lookup joined h = ground (arith, joined f l refl)

rsplit_joins :
    (s field lookup : Text) → rsplit s ≡ some (field, lookup) → s ≡ field ++ (codes "__" ++ lookup)
unfolding rsplit
rsplit_joins [] field lookup h = cc
rsplit_joins (c ∷ cs) field lookup h =
    after_char_joins c cs (rsplit cs) field lookup (rsplit_joins cs) h

find_lookup_finds :
    (ls : List Lookup) (name : Text) (l : Lookup)
    → find_lookup ls name ≡ some l
    → lookup_name l ≡ name
unfolding find_lookup
find_lookup_finds [] name l h = cc
find_lookup_finds (k ∷ ks) name l h = elim (Bool-cases (lookup_name k == name)) [
  | inl same ↦
      let found : k ≡ l = ground arith in
      ap lookup_name (sym found) ∙ (codes_keyed.same_iff (lookup_name k) name).0 same
  | inr other ↦ find_lookup_finds ks name l (rw other at h)
]

parse_split_joins :
    (key : Text) (r : Option (Text × Text))
    → ((f l : Text) → r ≡ some (f, l) → key ≡ f ++ (codes "__" ++ l))
    → (parse_split key r ≡ (key, exact))
      ⊎ (key ≡ filter_name (parse_split key r).0 (parse_split key r).1)
unfolding parse_split
parse_split_joins key none joined = inl refl
parse_split_joins key (some (field, name)) joined = elim (Option-cases (find_lookup lookups name)) [
  | inl unknown ↦ inl (rw (unknown))
  | inr (l, known) ↦
      inr (rw (known, find_lookup_finds lookups name l known) (joined field name refl))
]

parse_split-name :
    (key field : Text) (l : Lookup) → parse_split key (some (field, lookup_name l)) ≡ (field, l)
unfolding parse_split
parse_split-name key field l = ap (or_exact key field) (find_lookup-lookup_name l)

-- The name of a filter on any field path with any lookup parses into that path and lookup.
pub parse_lookup-filter_name :
    (field : Text) (l : Lookup) → parse_lookup (filter_name field l) ≡ (field, l)
unfolding parse_lookup
parse_lookup-filter_name field l =
    let split =
      rsplit-append field (codes "__" ++ lookup_name l) [] (lookup_name l) (rsplit-lookup_name l) in
    let bare = append-nil field in
    ground (arith, split, bare, parse_split-name (filter_name field l) field l)

-- Every key parses into itself and the lookup `exact`, or it is the name of the filter that it
-- parses into.
pub parse_lookup_joins :
    (key : Text)
    → (parse_lookup key ≡ (key, exact))
      ⊎ (key ≡ filter_name (parse_lookup key).0 (parse_lookup key).1)
unfolding parse_lookup
parse_lookup_joins key = parse_split_joins key (rsplit key) (rsplit_joins key)
