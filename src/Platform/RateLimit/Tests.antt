-- ===== src/Platform/RateLimit/Tests.antt =====
-- Runs of the limiter of backend/platform/ratelimit.go.
use motivra.Prelude.{ℕ, ◌*◌, ◌≤◌, ◌≡◌, ◌≢◌, refl, List, [], ◌∷◌, none, arith}
use motivra.Prelude.Text.{Text, text_eq}
use motivra.Prelude.Table.{find, update}
use motivra.Platform.RateLimit.{find_bucket, new_rate_limiter, allow, drop_expired}
use motivra.Platform.RateLimit.Laws.{after, allowed, Within, no_request, request, allowed-window}

abbrev client : Text
client = 10 ∷ 0 ∷ 0 ∷ 7 ∷ []

abbrev other : Text
other = 10 ∷ 0 ∷ 0 ∷ 8 ∷ []

-- One request opens a window 59 seconds before the minute that is counted.
abbrev earlier : List (Text × ℕ)
earlier = (client, 1000000000) ∷ []

-- Of the client, two requests in the old window and three in the next, one too many in each.
abbrev burst : List (Text × ℕ)
burst =
    (client, 60000000000)
    ∷ (client, 60000000000)
    ∷ (other, 60500000000)
    ∷ (client, 61000000000)
    ∷ (client, 61000000001)
    ∷ (client, 62000000000)
    ∷ []

burst-Within : Within 60000000000 60000000000 burst
burst-Within = request (omega arith) (omega arith) (
    request (omega arith) (omega arith) (
      request (omega arith) (omega arith) (
        request (omega arith) (omega arith)
          (request (omega arith) (omega arith) (request (omega arith) (omega arith) no_request)))))

-- Three of the five are let through: more than the limit of two in one minute.
allowed-burst : allowed (after (new_rate_limiter 2) earlier) client burst ≡ 3
unfolding allowed after allow find update drop_expired text_eq
allowed-burst = refl

two-positive : ◌≢◌ {A = ℕ} 2 0
two-positive = ground arith

allowed-window_example : allowed (after (new_rate_limiter 2) earlier) client burst ≤ 2 * 2
allowed-window_example = allowed-window 2 60000000000 earlier client burst two-positive burst-Within

other-new : find_bucket other (after (new_rate_limiter 2) earlier).buckets ≡ none
unfolding after allow find update drop_expired text_eq
other-new = refl
