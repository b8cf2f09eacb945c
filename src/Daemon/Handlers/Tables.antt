-- ===== src/Daemon/Handlers/Tables.antt =====
-- The keys of `_NOOP_DESCRIPTIONS` and `_GATHERING_DESCRIPTIONS`; their texts are only logged.
use fansly_scraper.Common.{
  ℕ, ◌≡◌, ◌↔◌, Bool, true, false, ◌&&◌, ◌||◌, List, [], ◌∷◌, arith, nat_beq, nat_beq_iff, all,
}
use fansly_scraper.Common.Classes.{Keyed, ◌==◌}

-- (service id, event type)
abbrev pub Key : Type 0
Key = ℕ × ℕ

abbrev pub key_beq : Key → Key → Bool
key_beq (a, b) (c, d) = nat_beq a c && nat_beq b d

pub key_beq_iff : (k j : Key) → (key_beq k j ≡ true) ↔ (k ≡ j)
key_beq_iff (a, b) (c, d) = ground (arith, nat_beq_iff a c, nat_beq_iff b d)

instance abbrev pub event_keyed : Keyed Key
event_keyed = record { same = key_beq; same_iff = key_beq_iff }

-- `key in table`
unfoldable pub mem : List Key → Key → Bool
mem [] k = false
mem (j ∷ js) k = j == k || mem js k

abbrev pub noop_keys : List Key
noop_keys = (1, 2) ∷ (2, 2) ∷ (4, 1) ∷ (4, 2) ∷ []

abbrev pub gathering_keys : List Key
gathering_keys =
    (1, 1)
    ∷ (1, 3)
    ∷ (1, 4)
    ∷ (1, 5)
    ∷ (1, 8)
    ∷ (1, 9)
    ∷ (1, 10)
    ∷ (1, 101)
    ∷ (1, 102)
    ∷ (2, 5)
    ∷ (2, 999)
    ∷ (3, 3)
    ∷ (4, 3)
    ∷ (4, 4)
    ∷ (4, 6)
    ∷ (4, 7)
    ∷ (4, 8)
    ∷ (4, 9)
    ∷ (5, 2)
    ∷ (5, 3)
    ∷ (5, 4)
    ∷ (6, 1)
    ∷ (6, 101)
    ∷ (7, 1)
    ∷ (7, 101)
    ∷ (8, 1)
    ∷ (9, 1)
    ∷ (9, 2)
    ∷ (9, 100)
    ∷ (9, 101)
    ∷ (9, 102)
    ∷ (10, 2)
    ∷ (10, 100)
    ∷ (10, 101)
    ∷ (10, 102)
    ∷ (11, 1)
    ∷ (12, 100)
    ∷ (12, 101)
    ∷ (12, 999)
    ∷ (15, 100)
    ∷ (15, 101)
    ∷ (15, 102)
    ∷ (16, 1)
    ∷ (16, 2)
    ∷ (16, 3)
    ∷ (16, 10)
    ∷ (16, 11)
    ∷ (16, 20)
    ∷ (16, 21)
    ∷ (17, 2)
    ∷ (26, 3)
    ∷ (32, 8)
    ∷ (42, 10)
    ∷ (42, 20)
    ∷ (42, 21)
    ∷ (42, 50)
    ∷ (45, 10)
    ∷ (45, 11)
    ∷ (46, 4)
    ∷ (46, 20)
    ∷ (46, 30)
    ∷ (46, 50)
    ∷ (46, 51)
    ∷ (46, 53)
    ∷ (46, 54)
    ∷ (1000, 100)
    ∷ []

-- A test that passes on every key of a table passes on each key that is found in it.
pub mem-all :
    (p : Key → Bool) (ks : List Key) (k : Key) → all p ks ≡ true → mem ks k ≡ true → p k ≡ true
unfolding mem
mem-all p [] k h m = cc
mem-all p (j ∷ js) k h m = ground (arith, key_beq_iff j k, mem-all p js k)
