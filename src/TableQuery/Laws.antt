-- ===== src/TableQuery/Laws.antt =====
-- The comparisons of a table are ones that a sort may use (apps/console/lib/table-query.ts).
use vodoge_cloud.Prelude.{List, [], ◌∷◌, All, arith, if◌then◌else◌}
use vodoge_cloud.Prelude.Int.{ℤ, pos, ◌-ℤ◌, ◌≤ℤ◌}
use vodoge_cloud.TableQuery.{biggest_first, by, is_zero}

-- Exchanging the sides reverses the verdict, and the verdicts chain.
pub record IsFair {T : Type 0} (compare : T → T → ℤ) : Type 0 where
  pub behind : (a b : T) → compare a b ≤ℤ pos 0 → pos 0 ≤ℤ compare b a
  pub ahead : (a b : T) → pos 0 ≤ℤ compare a b → compare b a ≤ℤ pos 0
  pub chain : (a b c : T) → compare a b ≤ℤ pos 0 → compare b c ≤ℤ pos 0 → compare a c ≤ℤ pos 0

-- Exchanging the sides of `biggestFirst` reverses its verdict, and its verdicts chain, missing numbers
-- included.
pub biggest_first-IsFair : IsFair biggest_first
unfolding biggest_first ◌-ℤ◌
biggest_first-IsFair = record {
  behind = λ a b h. ground arith;
  ahead = λ a b h. ground arith;
  chain = λ a b c h k. ground arith;
}

module _ {T : Type 0} (first rest : T → T → ℤ) (fair : IsFair first) (others : IsFair rest) where
  abbrev then_by : T → T → ℤ
  then_by a b = if is_zero (first a b) then rest a b else first a b

  then_by-chain : (a b c : T) → then_by a b ≤ℤ pos 0 → then_by b c ≤ℤ pos 0 → then_by a c ≤ℤ pos 0
  then_by-chain a b c h k = ground (
    arith,
    fair.behind a b,
    fair.ahead a b,
    fair.behind b a,
    fair.ahead b a,
    fair.behind b c,
    fair.ahead b c,
    fair.behind c b,
    fair.ahead c b,
    fair.behind a c,
    fair.ahead a c,
    fair.behind c a,
    fair.ahead c a,
    fair.chain a b c,
    fair.chain c a b,
    fair.chain b c a,
    others.chain a b c,
  )

  then_by-IsFair : IsFair then_by
  then_by-IsFair = record {
    behind = λ a b h. ground (
      arith,
      fair.behind a b,
      fair.ahead a b,
      fair.behind b a,
      fair.ahead b a,
      others.behind a b,
    );
    ahead = λ a b h.
        ground (
          arith,
          fair.behind a b,
          fair.ahead a b,
          fair.behind b a,
          fair.ahead b a,
          others.ahead a b,
        );
    chain = then_by-chain;
  }

-- Where each comparison reverses its verdict on exchanged sides and its verdicts chain, so does and so do
-- those of the sequence, in which each comparison breaks the ties of those before it.
pub by-IsFair :
    {T : Type 0} (comparisons : List (T → T → ℤ)) → All IsFair comparisons → IsFair (by comparisons)
unfolding by
by-IsFair [] h = record {
  behind = λ a b h. omega arith;
  ahead = λ a b h. omega arith;
  chain = λ a b c h k. omega arith;
}
by-IsFair (first ∷ others) (fair, h) = then_by-IsFair first (by others) fair (by-IsFair others h)
