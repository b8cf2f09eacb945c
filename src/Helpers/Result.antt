-- ===== src/Helpers/Result.antt =====
-- Python functions that may raise: the exceptions that the modelled code raises or lets through.
use mathlib.Core.Path.{◌≡◌, refl}
use fansly_scraper.Common.{Bool, true, false}

pub data Exception : Type 0 where
  type_error value_error overflow_error zero_division key_error config_error api_error filtered
        store_error :
      Exception

-- What a call comes to: a value, or the exception that leaves it.
pub data Result {μ} (T : Type μ) : Type μ where
  raise : Exception → Result T
  ok : T → Result T

abbrev pub raises {μ} : {T : Type μ} → Result T → Bool
raises (raise x) = true
raises (ok t) = false

-- The statements after a call run only if it returns.
infixl 5 ◌>>=◌
abbrev pub ◌>>=◌ {μ ν} : {T : Type μ} {R : Type ν} → Result T → (T → Result R) → Result R
raise x >>= rest = raise x
ok t >>= rest = rest t

-- A sequence that returns has returned at its first call.
pub >>=-returns {μ ν} :
    {T : Type μ} {R : Type ν} (call : Result T) (rest : T → Result R) {r : R}
    → (call >>= rest) ≡ ok r
    → (t : T) × (call ≡ ok t) × (rest t ≡ ok r)
>>=-returns (raise x) rest e = cc
>>=-returns (ok t) rest e = (t, refl, e)
