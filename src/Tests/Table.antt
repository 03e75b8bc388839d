-- ===== src/Tests/Table.antt =====
-- Comparisons and filters of a table on concrete rows.
use vodoge_cloud.Prelude.{◌≡◌, refl, true, Option, none, some, List, [], ◌∷◌}
use vodoge_cloud.Prelude.Int.{ℤ, pos, negsuc, ◌-ℤ◌}
use vodoge_cloud.Text.{units, text_eq, includes, starts_with}
use vodoge_cloud.TableQuery.{
  absent, text, matches, field_matches, biggest_first, by, pick_sort, no_match, empty_kind,
}

-- Online minutes first, then bytes.
abbrev usage : List (Option ℤ × Option ℤ → Option ℤ × Option ℤ → ℤ)
usage = (λ l r. biggest_first l.0 r.0) ∷ (λ l r. biggest_first l.1 r.1) ∷ []

table : Unit {0}
unfolding units text_eq includes starts_with matches field_matches biggest_first by pick_sort
    empty_kind ◌-ℤ◌
table = tt

tie_broken : by usage (some (pos 3), some (pos 1)) (some (pos 3), none) ≡ negsuc 0
unfolding table
tie_broken = refl

missing_skipped :
    matches (λ s. s) (λ n. units "0") (units "ab") (absent ∷ text (units "cabd") ∷ []) ≡ true
unfolding table
missing_skipped = refl

unknown_sort : pick_sort (some (units "x")) (units "name" ∷ []) (units "name") ≡ units "name"
unfolding table
unknown_sort = refl

none_shown : empty_kind 3 0 (units "q") ≡ some no_match
unfolding table
none_shown = refl
