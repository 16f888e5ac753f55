-- ===== src/Platform/RateLimit/Laws.antt =====
-- How many requests of one key `Allow` lets through.
use motivra.Prelude.{
  ℕ, ◌+◌, ◌*◌, ◌≤◌, ◌<◌, ◌≡◌, ◌≢◌, refl, sym, ap, ◌∙◌, Bool, true, false, List, [], ◌∷◌, Option,
  none, some, arith, ◌==◌, leb, Bool-cases, inl, inr,
}
use motivra.Prelude.Text.{Text, text-Eq}
use motivra.Platform.RateLimit.{
  RateBucket, RateLimiter, find_bucket, open_bucket, count_up, current, count_request,
  new_rate_limiter, allow,
}
use motivra.Platform.RateLimit.Buckets.{Distinct, none_yet, update-Distinct, opened}
use motivra.Platform.RateLimit.Budget.{
  budget, find-open_own, swept_buckets, swept-Distinct, find-swept_own, budget-swept, budget-count,
  counted,
}

allow-count :
    (l : RateLimiter) (key : Text) (now : ℕ)
    → l.rpm ≢ 0
    → allow l key now
      ≡ count_request
          (leb l.rpm (opened key l.window now (find_bucket key l.buckets)).count)
          l
          key
          (swept_buckets l.rpm l.window now key l.buckets)
unfolding allow
allow-count l key now on = rw (==-false l.rpm 0 on) (
    ap
      (λ o.
        count_request (leb l.rpm (current key now o).count) l key
          (swept_buckets l.rpm l.window now key l.buckets))
      (find-open_own l.window now key l.buckets))
  where
    ==-false : (m n : ℕ) → m ≢ n → (m == n) ≡ false
    ==-false m n h = ground (arith, h)

-- What one request of the window that starts at `t0` takes from what the key `k` may spend.
record Spent (t0 : ℕ) (l : RateLimiter) (key k : Text) (r : Bool × RateLimiter) : Type 0 where
  paid :
      counted r.0 key k + budget l.rpm t0 (find_bucket k r.1.buckets)
      ≤ budget l.rpm t0 (find_bucket k l.buckets)
  distinct : Distinct r.1.buckets
  same_rpm : r.1.rpm ≡ l.rpm
  same_window : r.1.window ≡ l.window

allow-Spent :
    (t0 : ℕ) (l : RateLimiter) (key : Text) (now : ℕ) (k : Text)
    → l.rpm ≢ 0
    → t0 ≤ now
    → now < t0 + l.window
    → Distinct l.buckets
    → Spent t0 l key k (allow l key now)
allow-Spent t0 l key now k on lo hi d = rw (allow-count l key now on) (go (leb l.rpm b.count) refl)
  where
    b : RateBucket
    b = opened key l.window now (find_bucket key l.buckets)

    bs : List RateBucket
    bs = swept_buckets l.rpm l.window now key l.buckets

    bs-d : Distinct bs
    bs-d = swept-Distinct l.rpm l.window now key l.buckets d

    kept : budget l.rpm t0 (find_bucket k bs) ≤ budget l.rpm t0 (find_bucket k l.buckets)
    kept = budget-swept t0 l.rpm l.window now key l.buckets lo hi d k

    own : find_bucket key bs ≡ some b
    own = find-swept_own t0 l.rpm l.window now key l.buckets lo hi d

    go : (full : Bool) → leb l.rpm b.count ≡ full → Spent t0 l key k (count_request full l key bs)
    go true hit = record {
      paid = omega (arith, kept);
      distinct = bs-d;
      same_rpm = refl;
      same_window = refl;
    }
    go false miss = record {
      paid = omega (arith, budget-count l.rpm t0 key k b bs own (ground (arith, miss)), kept);
      distinct = update-Distinct key count_up bs (λ b. refl) bs-d;
      same_rpm = refl;
      same_window = refl;
    }

-- Requests, in the order in which they take the limiter's lock: a key and a time each.
unfoldable pub after : RateLimiter → List (Text × ℕ) → RateLimiter
after l [] = l
after l ((key, now) ∷ requests) = after (allow l key now).1 requests

-- How many requests of the key `k` are let through.
unfoldable pub allowed : RateLimiter → Text → List (Text × ℕ) → ℕ
allowed l k [] = 0
allowed l k ((key, now) ∷ requests) =
    counted (allow l key now).0 key k + allowed (allow l key now).1 k requests

-- Every request comes in the window that starts at `t0`.
pub data Within (t0 window : ℕ) : List (Text × ℕ) → Type 0 where
  no_request : Within t0 window []
  request :
      {key : Text} {now : ℕ} {requests : List (Text × ℕ)}
      → t0 ≤ now
      → now < t0 + window
      → Within t0 window requests
      → Within t0 window ((key, now) ∷ requests)

allowed-budget :
    (t0 : ℕ) (l : RateLimiter) (k : Text) (requests : List (Text × ℕ))
    → l.rpm ≢ 0
    → Distinct l.buckets
    → Within t0 l.window requests
    → allowed l k requests ≤ budget l.rpm t0 (find_bucket k l.buckets)
unfolding allowed
allowed-budget t0 l k [] on d w = omega arith
allowed-budget t0 l k ((key, now) ∷ requests) on d (request lo hi w) =
    let s : Spent t0 l key k (allow l key now) = allow-Spent t0 l key now k on lo hi d in
    let rest : allowed (allow l key now).1 k requests
        ≤ budget (allow l key now).1.rpm t0 (find_bucket k (allow l key now).1.buckets) =
      allowed-budget t0 (allow l key now).1 k requests (λ z. on (sym s.same_rpm ∙ z)) s.distinct
        (rw s.same_window w) in
    omega (arith, rw s.same_rpm at rest, s.paid)

budget-bound : (rpm t0 : ℕ) (o : Option RateBucket) → budget rpm t0 o ≤ rpm + rpm
unfolding budget
budget-bound rpm t0 none = omega arith
budget-bound rpm t0 (some b) = ground arith

-- One bucket for each key, and a limit and a window that never change.
allow-kept :
    (l : RateLimiter) (key : Text) (now : ℕ)
    → Distinct l.buckets
    → Distinct (allow l key now).1.buckets
      × ((allow l key now).1.rpm ≡ l.rpm)
      × ((allow l key now).1.window ≡ l.window)
unfolding allow
allow-kept l key now d = elim (Bool-cases (l.rpm == 0)) [
  | inl off ↦ rw off (d, refl, refl)
  | inr on ↦ rw on (
      go (
        leb l.rpm
          (current key now (find_bucket key (open_bucket key l.window now l.buckets))).count))
]
  where
    bs : List RateBucket
    bs = swept_buckets l.rpm l.window now key l.buckets

    bs-d : Distinct bs
    bs-d = swept-Distinct l.rpm l.window now key l.buckets d

    go :
        (full : Bool)
        → Distinct (count_request full l key bs).1.buckets
          × ((count_request full l key bs).1.rpm ≡ l.rpm)
          × ((count_request full l key bs).1.window ≡ l.window)
    go true = (bs-d, refl, refl)
    go false = (update-Distinct key count_up bs (λ b. refl) bs-d, refl, refl)

after-kept :
    (l : RateLimiter) (requests : List (Text × ℕ))
    → Distinct l.buckets
    → Distinct (after l requests).buckets
      × ((after l requests).rpm ≡ l.rpm)
      × ((after l requests).window ≡ l.window)
unfolding after
after-kept l [] d = (d, refl, refl)
after-kept l ((key, now) ∷ requests) d =
    let one = allow-kept l key now d in
    let rest = after-kept (allow l key now).1 requests one.0 in
    (rest.0, rest.1 ∙ one.1, rest.2 ∙ one.2)

made-budget :
    (rpm t0 : ℕ) (earlier : List (Text × ℕ)) (k : Text) (requests : List (Text × ℕ))
    → rpm ≢ 0
    → Within t0 60000000000 requests
    → allowed (after (new_rate_limiter rpm) earlier) k requests
      ≤ budget rpm t0 (find_bucket k (after (new_rate_limiter rpm) earlier).buckets)
unfolding after
made-budget rpm t0 earlier k requests on w =
    let l = after (new_rate_limiter rpm) earlier in
    let kept = after-kept (new_rate_limiter rpm) earlier none_yet in
    let most : allowed l k requests ≤ budget l.rpm t0 (find_bucket k l.buckets) =
      allowed-budget t0 l k requests (λ z. on (sym kept.1 ∙ z)) kept.0 (rw kept.2 w) in
    rw kept.1 at most

-- After any requests at any times, a limiter made by `NewRateLimiter` for `rpm` requests, which is
-- not 0, lets at most twice `rpm` requests of a key through in any minute, whatever other keys ask
-- and whichever buckets the sweep drops.
pub allowed-window :
    (rpm t0 : ℕ) (earlier : List (Text × ℕ)) (k : Text) (requests : List (Text × ℕ))
    → rpm ≢ 0
    → Within t0 60000000000 requests
    → allowed (after (new_rate_limiter rpm) earlier) k requests ≤ 2 * rpm
allowed-window rpm t0 earlier k requests on w = omega (
  arith,
  made-budget rpm t0 earlier k requests on w,
  budget-bound rpm t0 (find_bucket k (after (new_rate_limiter rpm) earlier).buckets),
)

-- A key that has no bucket after any earlier requests has at most `rpm` requests, not 0, let through
-- in a minute.
pub allowed-new_key :
    (rpm t0 : ℕ) (earlier : List (Text × ℕ)) (k : Text) (requests : List (Text × ℕ))
    → rpm ≢ 0
    → find_bucket k (after (new_rate_limiter rpm) earlier).buckets ≡ none
    → Within t0 60000000000 requests
    → allowed (after (new_rate_limiter rpm) earlier) k requests ≤ rpm
unfolding budget
allowed-new_key rpm t0 earlier k requests on new w =
    let most : allowed (after (new_rate_limiter rpm) earlier) k requests
        ≤ budget rpm t0 (find_bucket k (after (new_rate_limiter rpm) earlier).buckets) =
      made-budget rpm t0 earlier k requests on w in
    rw new at most
