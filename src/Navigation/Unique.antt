-- ===== src/Navigation/Unique.antt =====
-- Which entries of the navigation are marked (apps/console/lib/tokens.ts, `navState`).
use vodoge_cloud.Prelude.{
  ◌≡◌, ◌≢◌, refl, sym, ap, ◌∙◌, ◌⊎◌, inl, inr, Bool, true, false, not, ◌&&◌, none, [], ◌∷◌, ◌++◌,
  ◌==◌, arith, Bool-cases,
}
use vodoge_cloud.Text.{Text, text_eq, starts_with, has_unit, split_first}
use vodoge_cloud.Text.Laws.{text_eq_sound, starts_with_sound}
use vodoge_cloud.Text.Cutting.{split_first-single}
use vodoge_cloud.Navigation.{nav_state}

-- A slash and one segment.
abbrev pub is_plain : Text → Bool
is_plain [] = false
is_plain (c ∷ segment) = c == b'/' && not (has_unit b'/' segment)

abbrev behind_first : Text → Text
behind_first [] = []
behind_first (c ∷ s) = s

-- The first segment of a path.
abbrev first_segment : Text → Text
first_segment s = (split_first b'/' (behind_first s)).0

segment_before : (s r : Text) → has_unit b'/' s ≡ false → (split_first b'/' (s ++ b'/' ∷ r)).0 ≡ s
unfolding split_first
segment_before [] r h = refl
segment_before (c ∷ s) r h = ground (arith, segment_before s r)

nav_state-marked :
    (pathname href : Text)
    → nav_state pathname href ≢ none
    → (pathname ≡ href) ⊎ ((r : Text) × (pathname ≡ (href ++ (b'/' ∷ [])) ++ r))
unfolding nav_state
nav_state-marked pathname href marked = elim (Bool-cases (text_eq pathname href)) [
  | inl same ↦ inl (text_eq_sound pathname href same)
  | inr other ↦ elim (Bool-cases (starts_with pathname (href ++ (b'/' ∷ [])))) [
    | inl below ↦ inr (starts_with_sound pathname (href ++ (b'/' ∷ [])) below)
    | inr beside ↦ absurd (marked (rw (other, beside) refl))
  ]
]

append_unit : (s r : Text) → (s ++ (b'/' ∷ [])) ++ r ≡ s ++ b'/' ∷ r
append_unit [] r = refl
append_unit (c ∷ s) r = ap (λ t. c ∷ t) (append_unit s r)

first_segment_of :
    (pathname href : Text)
    → is_plain href ≡ true
    → nav_state pathname href ≢ none
    → href ≡ b'/' ∷ first_segment pathname
first_segment_of pathname [] plain marked = absurd (ground arith)
first_segment_of pathname (c ∷ s) plain marked =
    let slash : c ≡ b'/' = ground arith in
    let single : has_unit b'/' s ≡ false = ground arith in
    let segment : first_segment pathname ≡ s = elim (nav_state-marked pathname (c ∷ s) marked) [
      | inl same ↦ ap first_segment same ∙ ap (λ p. p.0) (split_first-single b'/' s single)
      | inr (r, below) ↦
          ap first_segment below
          ∙ ap (λ t. (split_first b'/' t).0) (append_unit s r)
          ∙ segment_before s r single
    ] in
    ap (λ d. d ∷ s) slash ∙ ap (λ t. b'/' ∷ t) (sym segment)

-- Of the entries that are a slash and one segment, at most one is marked on a path.
pub nav_state_unique :
    (pathname href other : Text)
    → is_plain href ≡ true
    → is_plain other ≡ true
    → nav_state pathname href ≢ none
    → nav_state pathname other ≢ none
    → href ≡ other
nav_state_unique pathname href other plain plain' marked marked' =
    first_segment_of pathname href plain marked
    ∙ sym (first_segment_of pathname other plain' marked')
