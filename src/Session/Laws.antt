-- ===== src/Session/Laws.antt =====
-- Public paths, the bearer header and redirects (apps/console/lib/session.ts).
use vodoge_cloud.Prelude.{
  ◌≡◌, ◌≢◌, subst, refl, sym, ap, ◌∙◌, ◌↔◌, ◌⊎◌, inl, inr, true, false, Option, none, some, [], ◌∷◌,
  ◌++◌, arith, Bool-cases, Any, any_iff,
}
use mathlib.Core.List.{append_assoc}
use vodoge_cloud.Text.{Text, text_eq, is_empty, trim, starts_with}
use vodoge_cloud.Text.Laws.{text_eq_iff, starts_with_sound, starts_with-append}
use vodoge_cloud.Session.{
  public_paths, is_under, is_public_path, bearer, bearer_header, gateway_prefix,
  gateway_auth_header, is_site_path, safe_next,
}

-- The path is the entry itself, or goes on behind it with a slash.
abbrev pub IsUnder : Text → Text → Type 0
IsUnder pathname allowed =
    (pathname ≡ allowed) ⊎ ((rest : Text) × (pathname ≡ allowed ++ b'/' ∷ rest))

starts_with_iff : (s p : Text) → (starts_with s p ≡ true) ↔ ((r : Text) × (s ≡ p ++ r))
starts_with_iff s p = (starts_with_sound s p, λ (r, e). rw e (starts_with-append p r))

slash : (allowed rest : Text) → (allowed ++ b'/' ∷ []) ++ rest ≡ allowed ++ b'/' ∷ rest
slash allowed rest = append_assoc allowed (b'/' ∷ []) rest

is_under_iff :
    (pathname allowed : Text) → (is_under pathname allowed ≡ true) ↔ IsUnder pathname allowed
is_under_iff pathname allowed = (
  λ h. elim (Bool-cases (text_eq pathname allowed)) [
    | inl same ↦ inl ((text_eq_iff pathname allowed).0 same)
    | inr other ↦
        let (r, e) = starts_with_sound pathname (allowed ++ b'/' ∷ []) (ground arith) in
        inr (r, e ∙ slash allowed r)
  ],
  elim [
    | inl e ↦ ground (arith, (text_eq_iff pathname allowed).1 e)
    | inr (r, e) ↦
        let s =
          (starts_with_iff pathname (allowed ++ b'/' ∷ [])).1 (r, e ∙ sym (slash allowed r)) in
        ground (arith, s)
  ],
)

-- A path is public exactly when it is one of the listed paths or lies below one: a path that only
-- begins with the same letters is not.
pub is_public_path_iff :
    (pathname : Text) → (is_public_path pathname ≡ true) ↔ Any (IsUnder pathname) public_paths
unfolding is_public_path
is_public_path_iff pathname =
    any_iff (is_under pathname) (IsUnder pathname) (is_under_iff pathname) public_paths

trim-nil : trim [] ≡ []
unfolding trim
trim-nil = refl

-- A call gets an authorization header exactly when its path goes on behind `/v1/` and its token is
-- not blank, and the header is the trimmed token behind `Bearer `.
pub gateway_auth_header_iff :
    (pathname value : Text) (token : Option Text)
    → (gateway_auth_header pathname token ≡ some value) ↔ (
        ((rest : Text) × (pathname ≡ (gateway_prefix ++ b'/' ∷ []) ++ rest))
        × ((t : Text) × (token ≡ some t)
            × (is_empty (trim t) ≡ false)
            × (value ≡ bearer ++ trim t)))
unfolding gateway_auth_header bearer_header
gateway_auth_header_iff pathname value none =
    (λ h. absurd (ground (arith, trim-nil)), λ (p, (t, e, k, v)). absurd (ground arith))
gateway_auth_header_iff pathname value (some token) = (
  λ h. (
    starts_with_sound pathname (gateway_prefix ++ b'/' ∷ []) (ground arith),
    (token, refl, ground arith, ground arith),
  ),
  λ (p, (t, e, k, v)). ground (arith, (starts_with_iff pathname (gateway_prefix ++ b'/' ∷ [])).1 p),
)

-- The text begins with exactly one slash.
abbrev pub IsOneSlash : Text → Type 0
IsOneSlash [] = ⊥
IsOneSlash (c ∷ []) = c ≡ b'/'
IsOneSlash (c ∷ d ∷ s) = (c ≡ b'/') × (d ≢ b'/')

is_site_path_iff : (p : Text) → (is_site_path p ≡ true) ↔ IsOneSlash p
unfolding is_site_path starts_with
is_site_path_iff [] = ground arith
is_site_path_iff (c ∷ []) = ground arith
is_site_path_iff (c ∷ d ∷ s) = ground arith

safe_next-some :
    (p : Text)
    → ((safe_next (some p) ≡ p) × (is_site_path p ≡ true))
      ⊎ ((safe_next (some p) ≡ b'/' ∷ []) × (is_site_path p ≡ false))
unfolding safe_next is_site_path starts_with
safe_next-some [] = inr (refl, refl)
safe_next-some (c ∷ s) = ground arith

none_front : safe_next none ≡ b'/' ∷ []
unfolding safe_next
none_front = refl

some_injective : {p q : Text} → some p ≡ some q → p ≡ q
some_injective e = ground arith

-- The path to go to after a sign-in is the one that was asked for, where that begins with exactly one
-- slash, and else the front page.
pub safe_next_iff :
    (next : Option Text) (target : Text)
    → (safe_next next ≡ target) ↔ (
        ((next ≡ some target) × IsOneSlash target)
        ⊎ ((target ≡ b'/' ∷ []) × ((p : Text) → next ≡ some p → ¬ IsOneSlash p)))
safe_next_iff none target = (
  λ e. inr (sym e ∙ none_front, λ p absent. absurd (ground arith)),
  λ h. elim h [ inl (absent, _) ↦ absurd (ground arith) | inr (front, _) ↦ none_front ∙ sym front ],
)
safe_next_iff (some asked) target = elim (safe_next-some asked) [
  | inl (kept, is) ↦
      let plain = (is_site_path_iff asked).0 is in
      (
        λ e.
            let same : asked ≡ target = sym kept ∙ e in
            inl (ap some same, subst IsOneSlash same plain),
        λ h. elim h [
          | inl (same, _) ↦ kept ∙ some_injective same
          | inr (_, never) ↦ absurd (never asked refl plain)
        ],
      )
  | inr (front, not_is) ↦ (
    λ e. inr (
      sym e ∙ front,
      λ p same plain.
          let is = (is_site_path_iff p).1 plain in
          let other : is_site_path p ≡ false =
            ap is_site_path (sym (some_injective same)) ∙ not_is in
          absurd (ground arith),
    ),
    λ h. elim h [
      | inl (same, plain) ↦
          let is = (is_site_path_iff target).1 plain in
          let other : is_site_path target ≡ false =
            ap is_site_path (sym (some_injective same)) ∙ not_is in
          absurd (ground arith)
      | inr (home, _) ↦ front ∙ sym home
    ],
  )
]
