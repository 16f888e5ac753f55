-- ===== src/Platform/RateLimit.antt =====
-- backend/platform/ratelimit.go: the fixed-window limiter of one process. `rpm` is the limit, and 0
-- stands for every limit that disables it (`rpm <= 0`); an instant is a number of nanoseconds, and
-- `now.Sub(starts) >= window` is written without a subtraction. The map of buckets is an association
-- list. `RetryAfter`, a hint, and the HTTP middleware are not modelled.
mod Budget
mod Buckets
mod Laws
mod Tests
use motivra.Prelude.{
  ℕ, suc, ◌+◌, ◌*◌, Bool, true, false, not, List, [], ◌∷◌, Option, none, some, ◌==◌, leb, ltb,
  length, if◌then◌else◌,
}
use motivra.Prelude.Text.{Text, text-Eq}
use motivra.Prelude.Table.{find, update}

-- A bucket with its key.
pub record RateBucket : Type 0 where
  pub key : Text
  pub count : ℕ
  pub starts : ℕ

pub record RateLimiter : Type 0 where
  pub rpm : ℕ
  pub window : ℕ
  pub buckets : List RateBucket

abbrev pub bucket_key : RateBucket → Text
bucket_key b = b.key

abbrev pub find_bucket : Text → List RateBucket → Option RateBucket
find_bucket = find bucket_key

-- NewRateLimiter, with its window of a minute
abbrev pub new_rate_limiter : ℕ → RateLimiter
new_rate_limiter rpm = record { rpm = rpm; window = 60000000000; buckets = [] }

abbrev pub expired : ℕ → ℕ → RateBucket → Bool
expired window now b = leb (b.starts + window) now

abbrev pub fresh_bucket : Text → ℕ → RateBucket
fresh_bucket key now = record { key = key; count = 0; starts = now }

abbrev pub restart : ℕ → RateBucket → RateBucket
restart now b = record b { count = 0; starts = now }

-- `l.buckets[key] = b`, where the bucket is missing or its window is over
abbrev pub open_found : Text → ℕ → ℕ → List RateBucket → Option RateBucket → List RateBucket
open_found key window now bs none = fresh_bucket key now ∷ bs
open_found key window now bs (some b) =
    if expired window now b then update bucket_key key (restart now) bs else bs

abbrev pub open_bucket : Text → ℕ → ℕ → List RateBucket → List RateBucket
open_bucket key window now bs = open_found key window now bs (find_bucket key bs)

-- The sweep over the map.
unfoldable pub drop_expired : ℕ → ℕ → List RateBucket → List RateBucket
drop_expired window now [] = []
drop_expired window now (b ∷ bs) =
    let rest = drop_expired window now bs in if expired window now b then rest else b ∷ rest

abbrev pub sweep : ℕ → ℕ → ℕ → List RateBucket → List RateBucket
sweep rpm window now bs =
    if ltb (4 * rpm + 1024) (length bs) then drop_expired window now bs else bs

abbrev pub count_up : RateBucket → RateBucket
count_up b = record b { count = suc b.count }

-- The bucket that the request is counted in.
abbrev pub current : Text → ℕ → Option RateBucket → RateBucket
current key now none = fresh_bucket key now
current key now (some b) = b

-- The end of `Allow`: `b` is refused or counted.
abbrev pub count_request : Bool → RateLimiter → Text → List RateBucket → Bool × RateLimiter
count_request true l key swept = (false, record l { buckets = swept })
count_request false l key swept =
    (true, record l { buckets = update bucket_key key count_up swept })

unfoldable pub allow : RateLimiter → Text → ℕ → Bool × RateLimiter
allow l key now =
    if l.rpm == 0
    then (true, l)
    else let bs = open_bucket key l.window now l.buckets in
      let b = current key now (find_bucket key bs) in
      count_request (leb l.rpm b.count) l key (sweep l.rpm l.window now bs)
