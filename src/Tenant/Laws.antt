-- ===== src/Tenant/Laws.antt =====
-- The tenant cache and the directory (apps/console/lib/tenant.ts).
use vodoge_cloud.Prelude.{
  ◌≡◌, refl, sym, ap, ◌∙◌, ◌≢◌, true, false, none, some, arith, Bool-cases, Option-cases, ◌&&◌,
  if◌then◌else◌, inl, inr,
}
use vodoge_cloud.Text.{Text, text_eq, is_empty, trim}
use vodoge_cloud.Text.Laws.{text_eq_iff, text_eq_refl}
use vodoge_cloud.Assoc.{get, set, get-set}
use vodoge_cloud.Tenant.{
  Tenant, TenantRegion, cn, intl, Cache, store, Lookup, threw, found, resolve_begin, resolve_end,
  resolve, same_region,
}

-- Every entry stands under its own slug.
abbrev pub IsKeyed : Cache → Type 0
IsKeyed cache = (k : Text) (t : Tenant) → get k cache ≡ some t → t.slug ≡ k

-- What is cached stays cached, with the region that it has.
abbrev pub Keeps : Cache → Cache → Type 0
Keeps c d =
    (k : Text) (t : Tenant)
    → get k c ≡ some t
    → (t' : Tenant) × (get k d ≡ some t') × (t'.region ≡ t.region)

same_region_sound : (a b : TenantRegion) → same_region a b ≡ true → a ≡ b
same_region_sound cn cn h = refl
same_region_sound intl intl h = refl
same_region_sound cn intl h = cc
same_region_sound intl cn h = cc

set-IsKeyed : (t : Tenant) (c : Cache) → IsKeyed c → IsKeyed (set t.slug t c)
set-IsKeyed t c keyed k u e = ground (arith, get-set t.slug k t c, text_eq_iff t.slug k, keyed k u)

store-IsKeyed : (t : Tenant) (c : Cache) → IsKeyed c → IsKeyed (store t c).0
unfolding store
store-IsKeyed t c keyed k u e = ground (arith, set-IsKeyed t c keyed k u, keyed k u)

-- What the cache holds after a store, in terms of its flag.
get-store :
    (t : Tenant) (c : Cache) (k : Text)
    → get k (store t c).0 ≡ (if (store t c).1 && text_eq t.slug k then some t else get k c)
unfolding store
get-store t c k = ground (arith, get-set t.slug k t c)

-- A store is refused only where another region is cached.
store-region :
    (t : Tenant) (c : Cache) (u : Tenant)
    → (store t c).1 ≡ true
    → get t.slug c ≡ some u
    → t.region ≡ u.region
unfolding store
store-region t c u h e = ground (arith, same_region_sound u.region t.region)

store-Keeps : (t : Tenant) (c : Cache) → Keeps c (store t c).0
store-Keeps t c k u e = elim (Bool-cases ((store t c).1 && text_eq t.slug k)) [
  | inl replaced ↦
      let same : t.slug ≡ k = (text_eq_iff t.slug k).0 (ground arith) in
      (
        t,
        get-store t c k ∙ ground arith,
        store-region t c u (ground arith) (ap (λ j. get j c) same ∙ e),
      )
  | inr untouched ↦ (u, get-store t c k ∙ ground arith, refl)
]

resolve_end-IsKeyed :
    (c : Cache) (key : Text) (r : Lookup) → IsKeyed c → IsKeyed (resolve_end c key r).0
unfolding resolve_end
resolve_end-IsKeyed c key threw keyed = keyed
resolve_end-IsKeyed c key (found none) keyed = keyed
resolve_end-IsKeyed c key (found (some t)) keyed = elim (Bool-cases (text_eq t.slug key)) [
  | inl same ↦ rw same (store-IsKeyed t c keyed)
  | inr other ↦ rw other keyed
]

resolve_end-Keeps : (c : Cache) (key : Text) (r : Lookup) → Keeps c (resolve_end c key r).0
unfolding resolve_end
resolve_end-Keeps c key threw k u e = (u, e, refl)
resolve_end-Keeps c key (found none) k u e = (u, e, refl)
resolve_end-Keeps c key (found (some t)) k u e = elim (Bool-cases (text_eq t.slug key)) [
  | inl same ↦ rw same (store-Keeps t c k u e)
  | inr other ↦ rw other (u, e, refl)
]

-- The directory as its callers see it: lookups begin and end in any order, so the cache goes from
-- one state to the next by the end of some lookup, whatever it answered.
pub data Steps (c : Cache) : Cache → Type 0 where
  here : Steps c c
  next :
      {d : Cache}
      → Steps c d
      → (key : Text) (answer : Lookup) → Steps c (resolve_end d key answer).0

-- However lookups are interleaved, from an empty cache every entry stands under its own slug.
pub Steps-IsKeyed : {c d : Cache} → IsKeyed c → Steps c d → IsKeyed d
Steps-IsKeyed keyed here = keyed
Steps-IsKeyed keyed (next {d} steps key answer) =
    resolve_end-IsKeyed d key answer (Steps-IsKeyed keyed steps)

-- However lookups are interleaved, a slug that is cached stays cached, and in the same region.
pub Steps-Keeps : {c d : Cache} → Steps c d → Keeps c d
Steps-Keeps here k t e = (t, e, refl)
Steps-Keeps (next {d} steps key answer) k t e =
    let (u, got, same) = Steps-Keeps steps k t e in
    let (v, kept, region) = resolve_end-Keeps d key answer k u got in (v, kept, region ∙ same)

store-present : (t : Tenant) (c : Cache) → get t.slug (store t c).0 ≢ none
unfolding store
store-present t c e = ground (arith, get-set t.slug t.slug t c, text_eq_refl t.slug)

resolve_end-cached :
    (c : Cache) (key : Text) (r : Lookup) (t : Tenant)
    → (resolve_end c key r).1 ≡ found (some t)
    → get key (resolve_end c key r).0 ≡ some t
unfolding resolve_end
resolve_end-cached c key threw t e = cc
resolve_end-cached c key (found none) t e = cc
resolve_end-cached c key (found (some u)) t e = elim (Bool-cases (text_eq u.slug key)) [
  | inr other ↦ absurd (ground arith)
  | inl same ↦ elim (Option-cases (get key (store u c).0)) [
    | inl missing ↦
        let k = (text_eq_iff u.slug key).0 same in
        absurd (store-present u c (ap (λ j. get j (store u c).0) k ∙ missing))
    | inr (v, got) ↦ ground arith
  ]
]

module _ (lower : Text → Text) (lookup : Text → Lookup) where
  resolve-blank :
      (c : Cache) (slug : Text)
      → is_empty (lower (trim slug)) ≡ true
      → resolve lower lookup c slug ≡ (c, found none)
  unfolding resolve resolve_begin
  resolve-blank c slug h = ground arith

  resolve-hit :
      (c : Cache) (slug : Text) (t : Tenant)
      → is_empty (lower (trim slug)) ≡ false
      → get (lower (trim slug)) c ≡ some t
      → resolve lower lookup c slug ≡ (c, found (some t))
  unfolding resolve resolve_begin
  resolve-hit c slug t h e = ground arith

  resolve-miss :
      (c : Cache) (slug : Text)
      → is_empty (lower (trim slug)) ≡ false
      → get (lower (trim slug)) c ≡ none
      → resolve lower lookup c slug ≡ resolve_end c (lower (trim slug)) (lookup (lower (trim slug)))
  unfolding resolve resolve_begin
  resolve-miss c slug h e = ground arith

  -- Whatever way an answer was found, it is in the cache by then, under a key that is not empty.
  resolve-found :
      (c : Cache) (slug : Text) (t : Tenant)
      → (resolve lower lookup c slug).1 ≡ found (some t)
      → (is_empty (lower (trim slug)) ≡ false)
        × (get (lower (trim slug)) (resolve lower lookup c slug).0 ≡ some t)
  resolve-found c slug t e =
      let key = lower (trim slug) in
      elim (Bool-cases (is_empty key)) [
        | inl blank ↦ absurd (ground (arith, resolve-blank c slug blank))
        | inr full ↦ elim (Option-cases (get key c)) [
          | inr (u, got) ↦ (full, ground (arith, resolve-hit c slug u full got))
          | inl missing ↦
              let m = resolve-miss c slug full missing in
              (
                full,
                ap (λ r. get key r.0) m
                    ∙ resolve_end-cached c key (lookup key) t (sym (ap (λ r. r.1) m) ∙ e),
              )
        ]
      ]

  resolve-IsKeyed : (c : Cache) (slug : Text) → IsKeyed c → IsKeyed (resolve lower lookup c slug).0
  resolve-IsKeyed c slug keyed =
      let key = lower (trim slug) in
      elim (Bool-cases (is_empty key)) [
        | inl blank ↦ rw (resolve-blank c slug blank) keyed
        | inr full ↦ elim (Option-cases (get key c)) [
          | inr (u, got) ↦ rw (resolve-hit c slug u full got) keyed
          | inl missing ↦
              rw (resolve-miss c slug full missing) (resolve_end-IsKeyed c key (lookup key) keyed)
        ]
      ]

  -- The directory never answers with another tenant: what it finds for a slug has that slug, trimmed
  -- and in lower case, whatever the gateway answered. The cache is one whose entries stand under
  -- their own slugs, and stays one.
  pub resolve-slug :
      (c : Cache) (slug : Text) (t : Tenant)
      → IsKeyed c
      → (resolve lower lookup c slug).1 ≡ found (some t)
      → (t.slug ≡ lower (trim slug)) × IsKeyed (resolve lower lookup c slug).0
  resolve-slug c slug t keyed e =
      let cached = resolve-IsKeyed c slug keyed in
      (cached (lower (trim slug)) t (resolve-found c slug t e).1, cached)

-- A tenant that was found is found again with no lookup: a second call gives the same answer
-- whatever the gateway would say by then, and leaves the cache as it is.
pub resolve-cached :
    (lower : Text → Text) (lookup later : Text → Lookup) (c : Cache) (slug : Text) (t : Tenant)
    → (resolve lower lookup c slug).1 ≡ found (some t)
    → resolve lower later (resolve lower lookup c slug).0 slug
      ≡ ((resolve lower lookup c slug).0, found (some t))
resolve-cached lower lookup later c slug t e =
    let (full, got) = resolve-found lower lookup c slug t e in
    resolve-hit lower later (resolve lower lookup c slug).0 slug t full got
