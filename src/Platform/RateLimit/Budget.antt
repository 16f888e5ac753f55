-- ===== src/Platform/RateLimit/Budget.antt =====
-- What a key may still spend of a window of the limiter, and what the steps of `Allow` take from it.
use motivra.Prelude.{
  ℕ, ◌+◌, ◌-◌, ◌*◌, ◌≤◌, ◌<◌, ◌≡◌, refl, ◌∙◌, Bool, true, false, ◌&&◌, List, Option, none, some,
  arith, leb, ltb, length, if◌then◌else◌, Bool-cases, Option-cases, inl, inr,
}
use motivra.Prelude.Text.{Text, text_eq, text_eq_iff, text-Eq}
use motivra.Prelude.Table.{update, find-update}
use motivra.Platform.RateLimit.{
  RateBucket, bucket_key, find_bucket, expired, open_bucket, drop_expired, sweep, count_up,
}
use motivra.Platform.RateLimit.Buckets.{
  Distinct, drop-Distinct, find-drop, find-drop_none, opened, find-open, open-Distinct,
}

-- What a key may still spend before `t0 + window`, from the bucket that it has.
unfoldable pub budget : ℕ → ℕ → Option RateBucket → ℕ
budget rpm t0 none = rpm
budget rpm t0 (some b) = if leb t0 b.starts then rpm - b.count else rpm - b.count + rpm

budget-open :
    (rpm t0 window now : ℕ) (j k : Text) (bs : List RateBucket)
    → t0 ≤ now
    → now < t0 + window
    → budget rpm t0 (find_bucket k (open_bucket j window now bs)) ≤ budget rpm t0 (find_bucket k bs)
unfolding budget
budget-open rpm t0 window now j k bs lo hi = elim (Bool-cases (text_eq j k)) [
  | inl hit ↦
      let same : j ≡ k = (text_eq_iff j k).0 hit in
      elim (Option-cases (find_bucket k bs)) [
        | inl new ↦ ground (arith, find-open j k window now bs, same, new)
        | inr (b, old) ↦ ground (arith, find-open j k window now bs, same, old)
      ]
  | inr miss ↦ ground (arith, find-open j k window now bs)
]

budget-sweep :
    (rpm t0 window now : ℕ) (k : Text) (bs : List RateBucket)
    → now < t0 + window
    → Distinct bs
    → budget rpm t0 (find_bucket k (sweep rpm window now bs)) ≤ budget rpm t0 (find_bucket k bs)
unfolding budget
budget-sweep rpm t0 window now k bs hi d = elim (Option-cases (find_bucket k bs)) [
  | inl new ↦ ground (arith, new, find-drop_none window now k bs)
  | inr (b, old) ↦ ground (arith, old, find-drop window now k bs b d old)
]

-- The bucket that a request is counted in is not over.
opened-live :
    (t0 window now : ℕ) (key : Text) (o : Option RateBucket)
    → t0 ≤ now
    → now < t0 + window
    → expired window now (opened key window now o) ≡ false
opened-live t0 window now key none lo hi = ground arith
opened-live t0 window now key (some b) lo hi = ground arith

-- The map after the first two steps of `Allow`.
abbrev pub swept_buckets : ℕ → ℕ → ℕ → Text → List RateBucket → List RateBucket
swept_buckets rpm window now key bs = sweep rpm window now (open_bucket key window now bs)

pub find-open_own :
    (window now : ℕ) (key : Text) (bs : List RateBucket)
    → find_bucket key (open_bucket key window now bs)
      ≡ some (opened key window now (find_bucket key bs))
find-open_own window now key bs =
    ground (arith, find-open key key window now bs, text_eq_iff key key)

pub swept-Distinct :
    (rpm window now : ℕ) (key : Text) (bs : List RateBucket)
    → Distinct bs
    → Distinct (swept_buckets rpm window now key bs)
swept-Distinct rpm window now key bs d =
    go (ltb (4 * rpm + 1024) (length (open_bucket key window now bs)))
  where
    opened_d : Distinct (open_bucket key window now bs)
    opened_d = open-Distinct key window now bs d

    go :
        (full : Bool)
        → Distinct (
            if full
            then drop_expired window now (open_bucket key window now bs)
            else open_bucket key window now bs)
    go true = drop-Distinct window now _ opened_d
    go false = opened_d

module _ (t0 rpm window now : ℕ) (key : Text) (bs : List RateBucket) (lo : t0 ≤ now)
    (hi : now < t0 + window) (d : Distinct bs) where
  pub find-swept_own :
      find_bucket key (swept_buckets rpm window now key bs)
      ≡ some (opened key window now (find_bucket key bs))
  find-swept_own = go (ltb (4 * rpm + 1024) (length (open_bucket key window now bs)))
    where
      dropped :
          find_bucket key (drop_expired window now (open_bucket key window now bs))
          ≡ some (opened key window now (find_bucket key bs))
      dropped =
          find-drop window now key _ _ (open-Distinct key window now bs d)
            (find-open_own window now key bs)
          ∙ rw (opened-live t0 window now key (find_bucket key bs) lo hi) refl

      go :
          (full : Bool)
          → find_bucket key (
              if full
              then drop_expired window now (open_bucket key window now bs)
              else open_bucket key window now bs)
            ≡ some (opened key window now (find_bucket key bs))
      go true = dropped
      go false = find-open_own window now key bs

  pub budget-swept :
      (k : Text)
      → budget rpm t0 (find_bucket k (swept_buckets rpm window now key bs))
        ≤ budget rpm t0 (find_bucket k bs)
  budget-swept k = omega (
    arith,
    budget-sweep rpm t0 window now k (open_bucket key window now bs) hi
        (open-Distinct key window now bs d),
    budget-open rpm t0 window now key k bs lo hi,
  )

abbrev pub counted : Bool → Text → Text → ℕ
counted ok key k = if ok && text_eq key k then 1 else 0

-- A request that is counted takes one from what its key may spend.
pub budget-count :
    (rpm t0 : ℕ) (key k : Text) (b : RateBucket) (bs : List RateBucket)
    → find_bucket key bs ≡ some b
    → b.count < rpm
    → (if text_eq key k then 1 else 0)
        + budget rpm t0 (find_bucket k (update bucket_key key count_up bs))
      ≤ budget rpm t0 (find_bucket k bs)
unfolding budget
budget-count rpm t0 key k b bs old less = elim (Bool-cases (text_eq key k)) [
  | inl hit ↦
      let same : key ≡ k = (text_eq_iff key k).0 hit in
      ground (arith, hit, same, old, less, find-update bucket_key count_up (λ b. refl) k key bs)
  | inr miss ↦ ground (arith, miss, find-update bucket_key count_up (λ b. refl) k key bs)
]
