-- ===== src/Pattern/Laws.antt =====
-- What may be left of a text, and what the expression means.
use vodoge_cloud.Prelude.{
  ℕ, ◌≡◌, refl, sym, ap, subst, ◌⊎◌, inl, inr, ◌↔◌, Bool, true, false, List, [], ◌∷◌, ◌++◌, all,
  Any, arith, if◌then◌else◌,
}
use vodoge_cloud.Text.{Text}
use vodoge_cloud.Pattern.{
  Pattern, empty, one, star, seq, alt, at_end, boundary, ends_word, star_rests, flat_map, rests,
  is_filled, matches_at_start, Takes,
}

module _ {A : Type 0} (P : A → Type 0) where
  Any-append : (xs ys : List A) → Any P (xs ++ ys) ↔ (Any P xs ⊎ Any P ys)
  Any-append [] ys = (λ h. inr h, elim [ inl h ↦ elim h [ ] | inr h ↦ h ])
  Any-append (x ∷ xs) ys = (
    elim [
      | inl p ↦ inl (inl p)
      | inr h ↦ elim ((Any-append xs ys).0 h) [ inl a ↦ inl (inr a) | inr b ↦ inr b ]
    ],
    elim [
      | inl (inl p) ↦ inl p
      | inl (inr a) ↦ inr ((Any-append xs ys).1 (inl a))
      | inr b ↦ inr ((Any-append xs ys).1 (inr b))
    ],
  )

  -- Something holds of a member exactly when there is a member that it holds of.
  Any-member : (xs : List A) → Any P xs ↔ ((m : A) × Any (λ x. x ≡ m) xs × P m)
  Any-member [] = (λ h. elim h [ ], λ (m, h, p). elim h [ ])
  Any-member (x ∷ xs) = (
    elim [
      | inl p ↦ (x, inl refl, p)
      | inr h ↦ let (m, there, p) = (Any-member xs).0 h in (m, inr there, p)
    ],
    λ (m, h, p). elim h [
      | inl e ↦ inl (subst P (sym e) p)
      | inr there ↦ inr ((Any-member xs).1 (m, there, p))
    ],
  )

Any-flat_map :
    (P : Text → Type 0) (f : Text → List Text) (ss : List Text)
    → Any P (flat_map f ss) ↔ Any (λ s. Any P (f s)) ss
unfolding flat_map
Any-flat_map P f [] = (λ h. h, λ h. h)
Any-flat_map P f (s ∷ ss) = (
  λ h. elim ((Any-append P (f s) (flat_map f ss)).0 h) [
    | inl a ↦ inl a
    | inr b ↦ inr ((Any-flat_map P f ss).0 b)
  ],
  elim [
    | inl a ↦ (Any-append P (f s) (flat_map f ss)).1 (inl a)
    | inr b ↦ (Any-append P (f s) (flat_map f ss)).1 (inr ((Any-flat_map P f ss).1 b))
  ],
)

Any-if :
    (P : Text → Type 0) (b : Bool) (xs : List Text)
    → Any P (if b then xs else []) ↔ ((b ≡ true) × Any P xs)
Any-if P true xs = (λ h. (refl, h), λ (e, h). h)
Any-if P false xs = (λ h. elim h [ ], λ (e, h). absurd (ground arith))

star_rests_self : (test : ℕ → Bool) (s : Text) → Any (λ x. x ≡ s) (star_rests test s)
unfolding star_rests
star_rests_self test [] = inl refl
star_rests_self test (c ∷ s) = inl refl

star_rests_sound :
    (test : ℕ → Bool) (s r : Text)
    → Any (λ x. x ≡ r) (star_rests test s)
    → (m : Text) × (s ≡ m ++ r) × (all test m ≡ true)
unfolding star_rests
star_rests_sound test [] r (inl e) = ([], e, refl)
star_rests_sound test [] r (inr h) = elim h [ ]
star_rests_sound test (c ∷ s) r (inl e) = ([], e, refl)
star_rests_sound test (c ∷ s) r (inr h) =
    let (kept, there) = (Any-if (λ x. x ≡ r) (test c) (star_rests test s)).0 h in
    let (m, e, t) = star_rests_sound test s r there in (c ∷ m, ap (λ x. c ∷ x) e, ground arith)

star_rests_complete :
    (test : ℕ → Bool) (m r : Text) → all test m ≡ true → Any (λ x. x ≡ r) (star_rests test (m ++ r))
unfolding star_rests
star_rests_complete test [] r t = star_rests_self test r
star_rests_complete test (c ∷ m) r t = inr (
    (Any-if (λ x. x ≡ r) (test c) (star_rests test (m ++ r))).1
      (ground arith, star_rests_complete test m r (ground arith)))

is_filled_iff : (xs : List Text) → (is_filled xs ≡ true) ↔ ((r : Text) × Any (λ x. x ≡ r) xs)
is_filled_iff [] = (λ e. absurd (ground arith), λ (r, h). elim h [ ])
is_filled_iff (x ∷ xs) = (λ e. (x, inl refl), λ h. refl)

-- The rests that the matcher finds are what the expression may leave of the text: no more and no less.
pub rests_iff : (p : Pattern) (s r : Text) → Any (λ x. x ≡ r) (rests p s) ↔ Takes p s r
unfolding rests Takes
rests_iff empty s r = (elim [ inl e ↦ e | inr h ↦ elim h [ ] ], λ e. inl e)
rests_iff (one test) [] r = (λ h. elim h [ ], λ (c, e, t). absurd (ground arith))
rests_iff (one test) (c ∷ s) r = (
  λ h.
      let (t, k) = (Any-if (λ x. x ≡ r) (test c) (s ∷ [])).0 h in
      elim k [ inl e ↦ (c, ap (λ x. c ∷ x) e, t) | inr none_left ↦ elim none_left [ ] ],
  λ (d, e, t).
      let same : d ≡ c = ground arith in
      let rest : s ≡ r = ground arith in
      (Any-if (λ x. x ≡ r) (test c) (s ∷ [])).1 (subst (λ i. test i ≡ true) same t, inl rest),
)
rests_iff (star test) s r = (
  star_rests_sound test s r,
  λ (m, e, t).
      subst (λ x. Any (λ y. y ≡ r) (star_rests test x)) (sym e) (star_rests_complete test m r t),
)
rests_iff (seq p q) s r = (
  λ h.
      let (m, there, k) =
        (Any-member (λ x. Any (λ y. y ≡ r) (rests q x)) (rests p s)).0
          ((Any-flat_map (λ y. y ≡ r) (rests q) (rests p s)).0 h) in
      (m, (rests_iff p s m).0 there, (rests_iff q m r).0 k),
  λ (m, a, b). (Any-flat_map (λ y. y ≡ r) (rests q) (rests p s)).1 (
      (Any-member (λ x. Any (λ y. y ≡ r) (rests q x)) (rests p s)).1
        (m, (rests_iff p s m).1 a, (rests_iff q m r).1 b)),
)
rests_iff (alt p q) s r = (
  λ h. elim ((Any-append (λ y. y ≡ r) (rests p s) (rests q s)).0 h) [
    | inl a ↦ inl ((rests_iff p s r).0 a)
    | inr b ↦ inr ((rests_iff q s r).0 b)
  ],
  λ h.
      (Any-append (λ y. y ≡ r) (rests p s) (rests q s)).1
        (elim h [ inl a ↦ inl ((rests_iff p s r).1 a) | inr b ↦ inr ((rests_iff q s r).1 b) ]),
)
rests_iff at_end [] r = (elim [ inl e ↦ (refl, sym e) | inr h ↦ elim h [ ] ], λ (e, k). inl (sym k))
rests_iff at_end (c ∷ s) r = (λ h. elim h [ ], λ (e, k). absurd (ground arith))
rests_iff boundary s r = (
  λ h.
      let (t, k) = (Any-if (λ x. x ≡ r) (ends_word s) (s ∷ [])).0 h in
      elim k [ inl e ↦ (e, t) | inr none_left ↦ elim none_left [ ] ],
  λ (e, t). (Any-if (λ x. x ≡ r) (ends_word s) (s ∷ [])).1 (t, inl e),
)

-- A pattern matches exactly when there is something that it takes a text to.
pub matches_at_start_iff :
    (p : Pattern) (s : Text) → (matches_at_start p s ≡ true) ↔ ((r : Text) × Takes p s r)
unfolding matches_at_start
matches_at_start_iff p s = (
  λ e. let (r, h) = (is_filled_iff (rests p s)).0 e in (r, (rests_iff p s r).0 h),
  λ (r, t). (is_filled_iff (rests p s)).1 (r, (rests_iff p s r).1 t),
)
