-- ===== src/Platform/RateLimit/Buckets.antt =====
-- The map of buckets: one bucket for each key, and what the steps of `Allow` do to it.
use motivra.Prelude.{
  ℕ, ◌≡◌, refl, Bool, true, false, List, [], ◌∷◌, Option, none, some, arith, if◌then◌else◌,
  Bool-cases, inl, inr,
}
use motivra.Prelude.Text.{Text, text_eq, text_eq_iff, text-Eq}
use motivra.Prelude.Table.{find, update, find-cons, find-update}
use motivra.Platform.RateLimit.{
  RateBucket, bucket_key, find_bucket, expired, fresh_bucket, restart, open_found, open_bucket,
  drop_expired,
}

-- No two buckets have one key.
pub data Distinct : List RateBucket → Type 0 where
  none_yet : Distinct []
  one_more :
      {b : RateBucket} {bs : List RateBucket}
      → find_bucket b.key bs ≡ none
      → Distinct bs
      → Distinct (b ∷ bs)

pub find-drop_none :
    (window now : ℕ) (k : Text) (bs : List RateBucket)
    → find_bucket k bs ≡ none
    → find_bucket k (drop_expired window now bs) ≡ none
unfolding find drop_expired
find-drop_none window now k [] h = refl
find-drop_none window now k (b ∷ bs) h =
    ground (arith, h, find-drop_none window now k bs, text_eq_iff b.key k)

pub drop-Distinct :
    (window now : ℕ) (bs : List RateBucket) → Distinct bs → Distinct (drop_expired window now bs)
unfolding drop_expired
drop-Distinct window now [] h = none_yet
drop-Distinct window now (b ∷ bs) (one_more new h) = elim (Bool-cases (expired window now b)) [
  | inl hit ↦ rw hit (drop-Distinct window now bs h)
  | inr miss ↦
      rw miss (one_more (find-drop_none window now b.key bs new) (drop-Distinct window now bs h))
]

-- The sweep keeps the buckets whose windows are not over.
pub find-drop :
    (window now : ℕ) (k : Text) (bs : List RateBucket) (b : RateBucket)
    → Distinct bs
    → find_bucket k bs ≡ some b
    → find_bucket k (drop_expired window now bs) ≡ (if expired window now b then none else some b)
unfolding find drop_expired
find-drop window now k [] b d h = ground (arith, h)
find-drop window now k (a ∷ bs) b (one_more new d) h = ground (
  arith,
  h,
  new,
  text_eq_iff a.key k,
  find-drop window now k bs b d,
  find-drop_none window now k bs,
)

update-missing :
    (k j : Text) (f : RateBucket → RateBucket) (bs : List RateBucket)
    → ((b : RateBucket) → (f b).key ≡ b.key)
    → find_bucket j bs ≡ none
    → find_bucket j (update bucket_key k f bs) ≡ none
update-missing k j f bs same h = ground (arith, h, find-update bucket_key f same j k bs)

pub update-Distinct :
    (k : Text) (f : RateBucket → RateBucket) (bs : List RateBucket)
    → ((b : RateBucket) → (f b).key ≡ b.key)
    → Distinct bs
    → Distinct (update bucket_key k f bs)
unfolding update
update-Distinct k f [] same d = none_yet
update-Distinct k f (b ∷ bs) same (one_more new d) =
    one_more (rw (kept (text_eq b.key k)) (update-missing k b.key f bs same new))
      (update-Distinct k f bs same d)
  where
    kept : (hit : Bool) → (if hit then f b else b).key ≡ b.key
    kept true = same b
    kept false = refl

-- The bucket of the key after it was opened.
abbrev pub opened : Text → ℕ → ℕ → Option RateBucket → RateBucket
opened key window now none = fresh_bucket key now
opened key window now (some b) = if expired window now b then restart now b else b

pub find-open :
    (j k : Text) (window now : ℕ) (bs : List RateBucket)
    → find_bucket k (open_bucket j window now bs)
      ≡ (if text_eq j k then some (opened j window now (find_bucket j bs)) else find_bucket k bs)
find-open j k window now bs = go (find_bucket j bs) refl
  where
    go :
        (o : Option RateBucket)
        → find_bucket j bs ≡ o
        → find_bucket k (open_found j window now bs o)
          ≡ (if text_eq j k then some (opened j window now o) else find_bucket k bs)
    go none new = find-cons bucket_key k (fresh_bucket j now) bs
    go (some b) old =
        ground
          (arith, old, find-update bucket_key (restart now) (λ b. refl) k j bs, text_eq_iff j k)

pub open-Distinct :
    (j : Text) (window now : ℕ) (bs : List RateBucket)
    → Distinct bs
    → Distinct (open_bucket j window now bs)
open-Distinct j window now bs d = go (find_bucket j bs) refl
  where
    kept : (hit : Bool) → Distinct (if hit then update bucket_key j (restart now) bs else bs)
    kept true = update-Distinct j (restart now) bs (λ b. refl) d
    kept false = d

    go : (o : Option RateBucket) → find_bucket j bs ≡ o → Distinct (open_found j window now bs o)
    go none new = one_more new d
    go (some b) old = kept (expired window now b)
