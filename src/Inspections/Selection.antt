-- ===== src/Inspections/Selection.antt =====
-- What the selection of the latest findings keeps (backend/inspections/report.go).
use motivra.Prelude.{
  ◌<◌, ◌≤◌, ◌≡◌, ◌≢◌, ◌↔◌, ◌⊎◌, inl, inr, refl, sym, ap, ◌∙◌, Bool, true, false, List, [], ◌∷◌,
  Option, none, some, arith, ==_iff, if◌then◌else◌, Bool-cases, Option-cases, nat_eq,
}
use motivra.Prelude.Text.{Text, text_eq, text_eq_iff, text-Eq}
use motivra.Prelude.Table.{find}
use motivra.Prelude.Among.{Among, where_rows_iff, order_by_iff}
use motivra.Inspections.World.{Finding}
use motivra.Inspections.Report.{
  supersedes, keep_latest, latest_by_item, finding_item, is_row, item_before,
  select_latest_findings,
}

-- `g` was recorded before `f`, or at the same time under an identifier that is not larger.
abbrev pub NotAfter : Finding → Finding → Type 0
NotAfter g f = (g.created_at < f.created_at) ⊎ ((g.created_at ≡ f.created_at) × (g.id ≤ f.id))

-- `f` is the newest of the findings of its item.
abbrev pub LatestOf : (Finding → Type 0) → Finding → Type 0
LatestOf P f = P f × ((g : Finding) → P g → g.item_key ≡ f.item_key → NotAfter g f)

abbrev pub IsLatest : List Finding → Finding → Type 0
IsLatest fs f = LatestOf (λ g. Among g fs) f

NotAfter-refl : (f : Finding) → NotAfter f f
NotAfter-refl f = inr (refl, omega arith)

NotAfter-trans : (f g h : Finding) → NotAfter f g → NotAfter g h → NotAfter f h
NotAfter-trans f g h (inl a) (inl b) = inl (omega (arith, a, b))
NotAfter-trans f g h (inl a) (inr b) = inl (omega (arith, a, b.0))
NotAfter-trans f g h (inr a) (inl b) = inl (omega (arith, a.0, b))
NotAfter-trans f g h (inr a) (inr b) = inr (a.0 ∙ b.0, omega (arith, a.1, b.1))

both_ids : (f g : Finding) → NotAfter f g → NotAfter g f → f.id ≡ g.id
both_ids f g (inl a) (inl b) = omega (arith, a, b)
both_ids f g (inl a) (inr b) = omega (arith, a, b.0)
both_ids f g (inr a) (inl b) = omega (arith, a.0, b)
both_ids f g (inr a) (inr b) = omega (arith, a.1, b.1)

supersedes-NotAfter : (f c : Finding) → supersedes f c ≡ true → NotAfter c f
supersedes-NotAfter f c h = ground (arith, h, ==_iff f.created_at c.created_at)

not_superseded : (f c : Finding) → supersedes f c ≡ false → NotAfter f c
not_superseded f c h = ground (arith, h, ==_iff f.created_at c.created_at)

-- The finding that the loop keeps for the item of `f`.
abbrev winner : Finding → Option Finding → Finding
winner f none = f
winner f (some c) = if supersedes f c then f else c

find-keep_latest :
    (key : Text) (f : Finding) (cs : List Finding)
    → find finding_item key (keep_latest f cs) ≡ (
        if text_eq f.item_key key
        then some (winner f (find finding_item key cs))
        else find finding_item key cs)
unfolding find keep_latest
find-keep_latest key f [] = refl
find-keep_latest key f (c ∷ cs) = ground (
  arith,
  find-keep_latest key f cs,
  text_eq_iff c.item_key f.item_key,
  text_eq_iff c.item_key key,
  text_eq_iff f.item_key key,
)

-- The list holds the newest finding of each item among those of `P`.
record Newest (P : Finding → Type 0) (cs : List Finding) : Type 0 where
  hit :
      (key : Text) (g : Finding)
      → find finding_item key cs ≡ some g
      → LatestOf P g × (g.item_key ≡ key)
  miss : (key : Text) → find finding_item key cs ≡ none → (g : Finding) → P g → g.item_key ≢ key

-- `f` is looked at after the findings of `P`.
module _ (P : Finding → Type 0) (f : Finding) where
  abbrev With : Finding → Type 0
  With g = (g ≡ f) ⊎ P g

  first-Latest : ((g : Finding) → P g → g.item_key ≢ f.item_key) → LatestOf With f
  first-Latest missing = (
    inl refl,
    λ g p q. elim p [ inl e ↦ rw e (NotAfter-refl f) | inr m ↦ absurd (missing g m q) ],
  )

  newer-Latest :
      (c : Finding) → LatestOf P c → f.item_key ≡ c.item_key → NotAfter c f → LatestOf With f
  newer-Latest c l same older = (
    inl refl,
    λ g p q. elim p [
      | inl e ↦ rw e (NotAfter-refl f)
      | inr m ↦ NotAfter-trans g c f (l.1 g m (q ∙ same)) older
    ],
  )

  older-Latest : (c : Finding) → LatestOf P c → NotAfter f c → LatestOf With c
  older-Latest c l older = (inr l.0, λ g p q. elim p [ inl e ↦ rw e older | inr m ↦ l.1 g m q ])

  other-Latest : (c : Finding) → LatestOf P c → f.item_key ≢ c.item_key → LatestOf With c
  other-Latest c l differs = (
    inr l.0,
    λ g p q. elim p [ inl e ↦ absurd (differs (sym (ap finding_item e) ∙ q)) | inr m ↦ l.1 g m q ],
  )

  winner-Latest :
      (c : Finding) → LatestOf P c → f.item_key ≡ c.item_key → LatestOf With (winner f (some c))
  winner-Latest c l same = elim (Bool-cases (supersedes f c)) [
    | inl newer ↦ rw newer (newer-Latest c l same (supersedes-NotAfter f c newer))
    | inr older ↦ rw older (older-Latest c l (not_superseded f c older))
  ]

  winner_key :
      (key : Text) (c : Finding)
      → f.item_key ≡ key
      → c.item_key ≡ key
      → finding_item (winner f (some c)) ≡ key
  winner_key key c p q = ground (arith, p, q)

  keep_latest-hit :
      (cs : List Finding) (key : Text) (g : Finding)
      → Newest P cs
      → find finding_item key (keep_latest f cs) ≡ some g
      → LatestOf With g × (g.item_key ≡ key)
  keep_latest-hit cs key g n h = elim (Bool-cases (text_eq f.item_key key)) [
    | inl same ↦
        let own : f.item_key ≡ key = (text_eq_iff f.item_key key).0 same in
        elim (Option-cases (find finding_item key cs)) [
          | inl none_yet ↦
              let e : g ≡ f = ground (arith, h, find-keep_latest key f cs, same, none_yet) in
              rw e (first-Latest (λ x p q. n.miss key none_yet x p (q ∙ own)), own)
          | inr k ↦
              let (c, found) = k in
              let (l, q) = n.hit key c found in
              let e : g ≡ winner f (some c) =
                ground (arith, h, find-keep_latest key f cs, same, found) in
              rw e (winner-Latest c l (own ∙ sym q), winner_key key c own q)
        ]
    | inr differs ↦
        let found : find finding_item key cs ≡ some g =
          ground (arith, h, find-keep_latest key f cs, differs) in
        let (l, q) = n.hit key g found in
        (other-Latest g l (λ e. ground (arith, differs, (text_eq_iff f.item_key key).1 (e ∙ q))), q)
  ]

  keep_latest-miss :
      (cs : List Finding) (key : Text) (g : Finding)
      → Newest P cs
      → find finding_item key (keep_latest f cs) ≡ none
      → With g
      → g.item_key ≢ key
  keep_latest-miss cs key g n h p q = elim p [
    | inl e ↦ ground (
      arith,
      h,
      find-keep_latest key f cs,
      (text_eq_iff f.item_key key).1 (sym (ap finding_item e) ∙ q),
    )
    | inr m ↦ n.miss key (ground (arith, h, find-keep_latest key f cs)) g m q
  ]

  keep_latest-Newest : (cs : List Finding) → Newest P cs → Newest With (keep_latest f cs)
  keep_latest-Newest cs n = record {
    hit = λ key g h. keep_latest-hit cs key g n h;
    miss = λ key h g p. keep_latest-miss cs key g n h p;
  }

-- Only which findings there are matters.
Newest-iff :
    (P Q : Finding → Type 0) (cs : List Finding)
    → ((g : Finding) → P g ↔ Q g)
    → Newest P cs
    → Newest Q cs
Newest-iff P Q cs same n = record {
  hit = λ key g h.
      let (l, q) = n.hit key g h in (((same g).0 l.0, λ x p e. l.1 x ((same x).1 p) e), q);
  miss = λ key h g p. n.miss key h g ((same g).1 p);
}

latest_by_item-Newest :
    (P : Finding → Type 0) (cs fs : List Finding)
    → Newest P cs
    → Newest (λ g. P g ⊎ Among g fs) (latest_by_item cs fs)
unfolding latest_by_item
latest_by_item-Newest P cs [] n =
    Newest-iff P (λ g. P g ⊎ ⊥) cs (λ g. (inl, λ p. elim p [ inl a ↦ a | inr b ↦ absurd b ])) n
latest_by_item-Newest P cs (f ∷ fs) n =
    Newest-iff _ _ _
      (λ g. (
        λ p. elim p [
          | inl a ↦ elim a [ inl e ↦ inr (inl e) | inr m ↦ inl m ]
          | inr b ↦ inr (inr b)
        ],
        λ p. elim p [
          | inl m ↦ inl (inr m)
          | inr a ↦ elim a [ inl e ↦ inl (inl e) | inr b ↦ inr b ]
        ],
      ))
      (latest_by_item-Newest (λ g. (g ≡ f) ⊎ P g) (keep_latest f cs) fs
        (keep_latest-Newest P f cs n))

loop-Newest : (fs : List Finding) → Newest (λ g. Among g fs) (latest_by_item [] fs)
unfolding find
loop-Newest fs =
    Newest-iff (λ g. ⊥ ⊎ Among g fs) (λ g. Among g fs) _
      (λ g. (λ p. elim p [ inl a ↦ absurd a | inr b ↦ b ], inr))
      (latest_by_item-Newest (λ g. ⊥) [] fs
        (record { hit = λ key g h. ground (arith, h); miss = λ key h g p. absurd p }))

-- An item with a finding has a newest one.
pub latest_of_item :
    (fs : List Finding) (f : Finding)
    → Among f fs
    → (g : Finding) × IsLatest fs g × (g.item_key ≡ f.item_key)
latest_of_item fs f m =
    let n = loop-Newest fs in
    elim (Option-cases (find finding_item f.item_key (latest_by_item [] fs))) [
      | inl gone ↦ absurd (n.miss f.item_key gone f m refl)
      | inr k ↦ let (g, found) = k in let (l, q) = n.hit f.item_key g found in (g, l, q)
    ]

-- The test of the second loop, on what the first one has left.
abbrev is_kept : List Finding → Finding → Bool
is_kept fs f = is_row (find finding_item f.item_key (latest_by_item [] fs)) f

module _ (fs : List Finding) (f : Finding)
    (unique : (g h : Finding) → Among g fs → Among h fs → g.id ≡ h.id → g ≡ h) where
  kept-IsLatest : Among f fs → is_kept fs f ≡ true → IsLatest fs f
  kept-IsLatest m t =
      let n = loop-Newest fs in
      elim (Option-cases (find finding_item f.item_key (latest_by_item [] fs))) [
        | inl gone ↦ absurd (n.miss f.item_key gone f m refl)
        | inr k ↦
            let (g, found) = k in
            let (l, q) = n.hit f.item_key g found in
            let ids : g.id ≡ f.id = ground (arith, t, found, ==_iff g.id f.id) in
            rw (unique f g m l.0 (sym ids)) l
      ]

  IsLatest-kept : IsLatest fs f → is_kept fs f ≡ true
  IsLatest-kept h =
      let n = loop-Newest fs in
      elim (Option-cases (find finding_item f.item_key (latest_by_item [] fs))) [
        | inl gone ↦ absurd (n.miss f.item_key gone f h.0 refl)
        | inr k ↦
            let (g, found) = k in
            let (l, q) = n.hit f.item_key g found in
            let ids : g.id ≡ f.id = both_ids g f (h.1 g l.0 q) (l.1 f h.0 (sym q)) in
            rw found ((==_iff g.id f.id).1 ids)
      ]

  -- Of findings with different identifiers, SelectLatestFindings keeps the newest one of each item.
  pub select_latest_findings_iff : Among f (select_latest_findings fs) ↔ IsLatest fs f
  unfolding select_latest_findings
  select_latest_findings_iff = (
    (λ h.
        let (m, t) = (where_rows_iff (is_kept fs) f fs).0 ((order_by_iff item_before f _).0 h) in
        kept-IsLatest m t),
    λ h.
        (order_by_iff item_before f _).1
          ((where_rows_iff (is_kept fs) f fs).1 (h.0, IsLatest-kept h)),
  )
