-- ===== src/Session/Encoding.antt =====
-- The address of the sign-in page (apps/console/lib/session.ts, `loginRedirect`), and what
-- encodeURIComponent leaves in it.
use vodoge_cloud.Prelude.{
  ℕ, ◌+◌, ◌*◌, ◌/◌, ◌%◌, ◌-◌, ◌≤◌, ◌<◌, ◌≡◌, refl, sym, ◌⊎◌, inl, inr, true, false, some, List, [],
  ◌∷◌, ◌++◌, arith, ◌==◌, Bool-cases, ◌||◌, All, All-append, ltb,
}
use mathlib.Core.Option
use vodoge_cloud.Text.{Text, text_eq, has_unit}
use vodoge_cloud.Text.Laws.{text_eq_refl}
use vodoge_cloud.Session.{
  is_public_path, is_site_path, is_unreserved, hex_digit, utf8, percent_all, code_points,
  encode_points, encode_uri_component, login_path, login_query, login_redirect, is_high, is_low,
}

-- What an encoded text is made of.
abbrev pub IsEncoded : ℕ → Type 0
IsEncoded c = (is_unreserved c ≡ true) ⊎ (c ≡ b'%')

digit-unreserved : (c : ℕ) → 48 ≤ c → c ≤ 57 → is_unreserved c ≡ true
unfolding is_unreserved
digit-unreserved c p q = ground arith

capital-unreserved : (c : ℕ) → 65 ≤ c → c ≤ 90 → is_unreserved c ≡ true
unfolding is_unreserved
capital-unreserved c p q = ground arith

hex_digit-IsEncoded : (n : ℕ) → n < 16 → IsEncoded (hex_digit n)
unfolding hex_digit
hex_digit-IsEncoded n h = elim (Bool-cases (ltb n 10)) [
  | inl e ↦ rw e (inl (digit-unreserved (48 + n) (omega arith) (ground arith)))
  | inr e ↦ rw e (inl (capital-unreserved (55 + n) (ground arith) (omega arith)))
]

-- The bytes of a code point below 2 ^ 21.
utf8-bytes : (c : ℕ) → c < 0x200000 → All (λ b. b < 256) (utf8 c)
unfolding utf8
utf8-bytes c h = ground arith

percent_all-IsEncoded : (bs : List ℕ) → All (λ b. b < 256) bs → All IsEncoded (percent_all bs)
unfolding percent_all
percent_all-IsEncoded [] h = tt
percent_all-IsEncoded (b ∷ bs) (p, h) = (
  inr refl,
  (
    hex_digit-IsEncoded (b / 16) (omega arith),
    (hex_digit-IsEncoded (b % 16) (omega arith), percent_all-IsEncoded bs h),
  ),
)

encode_points-IsEncoded :
    (cs : List ℕ) → All (λ c. c < 0x200000) cs → All IsEncoded (encode_points cs)
unfolding encode_points
encode_points-IsEncoded [] h = tt
encode_points-IsEncoded (c ∷ cs) (p, h) =
    let rest = encode_points-IsEncoded cs h in
    elim (Bool-cases (is_unreserved c)) [
      | inl e ↦ rw e (inl e, rest)
      | inr e ↦ rw e (
          All-append IsEncoded (percent_all (utf8 c)) (encode_points cs)
            (percent_all-IsEncoded (utf8 c) (utf8-bytes c p)) rest)
    ]

-- A text is a list of 16-bit units.
abbrev pub IsUnits : Text → Type 0
IsUnits s = All (λ c. c < 0x10000) s

pair_bound :
    (c d : ℕ)
    → is_high c ≡ true
    → d < 0x10000
    → 0x10000 + (c - 0xd800) * 1024 + (d - 0xdc00) < 0x200000
pair_bound c d h k = let low : c < 0xdc00 = ground arith in omega arith

code_points-bounded :
    (s : Text) (cs : List ℕ) → IsUnits s → code_points s ≡ some cs → All (λ c. c < 0x200000) cs
unfolding code_points
code_points-bounded [] cs u e = let nothing : [] ≡ cs = ground arith in rw (← nothing) tt
code_points-bounded (c ∷ []) cs (u, v) e = elim (Bool-cases (is_high c || is_low c)) [
  | inl q ↦ absurd (ground arith)
  | inr q ↦ let one : c ∷ [] ≡ cs = ground arith in rw (← one) (omega arith, tt)
]
code_points-bounded (c ∷ d ∷ s) cs (u, (v, w)) e = elim (Bool-cases (is_low c)) [
  | inl q ↦ absurd (ground arith)
  | inr q ↦ elim (Bool-cases (is_high c)) [
    | inl high ↦
        let (r, got, same) = (Option.map-eq-some_iff _ _).0 (paired high q) in
        rw (← same) (pair_bound c d high v, code_points-bounded s r w got)
    | inr low ↦
        let (r, got, same) = (Option.map-eq-some_iff _ _).0 (lone low q) in
        rw (← same) (omega arith, code_points-bounded (d ∷ s) r (v, w) got)
  ]
]
  where
    paired :
        is_high c ≡ true
        → is_low c ≡ false
        → Option.map (λ r. (0x10000 + (c - 0xd800) * 1024 + (d - 0xdc00)) ∷ r) (code_points s)
          ≡ some cs
    paired a b = ground arith

    lone :
        is_high c ≡ false
        → is_low c ≡ false
        → Option.map (λ r. c ∷ r) (code_points (d ∷ s)) ≡ some cs
    lone a b = ground arith

unreserved-ne : (c : ℕ) → IsEncoded c → (c == b'?') ≡ false
unfolding is_unreserved
unreserved-ne c h = ground arith

no_question_mark : (s : Text) → All IsEncoded s → has_unit b'?' s ≡ false
no_question_mark [] h = refl
no_question_mark (c ∷ s) (p, h) = ground (arith, unreserved-ne c p, no_question_mark s h)

-- What is encoded holds letters, digits, the marks that stand for themselves, and `%`.
encode_uri_component-IsEncoded :
    (s e : Text) → IsUnits s → encode_uri_component s ≡ some e → All IsEncoded e
unfolding encode_uri_component
encode_uri_component-IsEncoded s e u h =
    let (cs, got, same) = (Option.map-eq-some_iff _ _).0 h in
    rw (← same) (encode_points-IsEncoded cs (code_points-bounded s cs u got))

-- Where a visitor without a session is sent: the sign-in page, alone or with one query parameter.
-- The parameter is the encoded path, which begins with one slash and is not public; encoded it holds
-- only letters, digits, the marks that stand for themselves and `%`, so no second `?`.
pub login_redirect-target :
    (pathname target : Text)
    → IsUnits pathname
    → login_redirect pathname ≡ some target
    → (target ≡ login_path)
      ⊎ ((e : Text) × (target ≡ login_path ++ (login_query ++ e))
          × (encode_uri_component pathname ≡ some e)
          × (is_site_path pathname ≡ true)
          × (is_public_path pathname ≡ false)
          × All IsEncoded e
          × (has_unit b'?' e ≡ false))
unfolding login_redirect
login_redirect-target pathname target u h = elim (Bool-cases (is_site_path pathname)) [
  | inr off ↦ inl (ground (arith, root))
  | inl site ↦ elim (Bool-cases (text_eq pathname (b'/' ∷ []) || is_public_path pathname)) [
    | inl open_path ↦ inl (ground arith)
    | inr closed ↦
        let (e, got, same) = (Option.map-eq-some_iff _ _).0 (encoded site closed) in
        let all_encoded = encode_uri_component-IsEncoded pathname e u got in
        inr (e, sym same, got, site, ground arith, all_encoded, no_question_mark e all_encoded)
  ]
]
  where
    root : text_eq (b'/' ∷ []) (b'/' ∷ []) ≡ true
    root = text_eq_refl (b'/' ∷ [])

    encoded :
        is_site_path pathname ≡ true
        → (text_eq pathname (b'/' ∷ []) || is_public_path pathname) ≡ false
        → Option.map (λ e. login_path ++ (login_query ++ e)) (encode_uri_component pathname)
          ≡ some target
    encoded a b = ground arith
