-- ===== src/Handler/Pagination.antt =====
-- The bounds of parsePagination.
use insider_one_notification.Prelude.{
  ℕ, zero, suc, ◌≤◌, ◌<◌, ◌≡◌, refl, String, false, Option, none, some, str_eq, arith,
}
use insider_one_notification.Prelude.Int.{ℤ, pos, negsuc}
use insider_one_notification.Handler.{max_limit, limit_of, parse_pagination}

limit_of-pos : (o : Option ℤ) → 0 < limit_of o
limit_of-pos none = omega arith
limit_of-pos (some (pos zero)) = omega arith
limit_of-pos (some (pos (suc n))) = omega arith
limit_of-pos (some (negsuc n)) = omega arith

kept_limit : (n : ℕ) (o : Option ℤ) → o ≡ some (pos n) → 0 < n → limit_of o ≡ n
kept_limit zero o e low = absurd (omega (arith, low))
kept_limit (suc n) o e low = rw e refl

-- Whatever the query says, the limit is between 1 and 100. A limit in that range and an offset that are
-- written as numbers are the ones taken.
pub parse_pagination_bounds :
    (atoi : String → Option ℤ) (offset limit : String)
    → (0 < (parse_pagination atoi offset limit).1)
      × ((parse_pagination atoi offset limit).1 ≤ max_limit)
      × ((n : ℕ)
          → atoi offset ≡ some (pos n)
          → str_eq offset "" ≡ false
          → (parse_pagination atoi offset limit).0 ≡ n)
      × ((n : ℕ)
          → atoi limit ≡ some (pos n)
          → str_eq limit "" ≡ false
          → 0 < n
          → n ≤ max_limit
          → (parse_pagination atoi offset limit).1 ≡ n)
unfolding parse_pagination
parse_pagination_bounds atoi offset limit =
    let positive = limit_of-pos (atoi limit) in
    (
      ground arith,
      ground arith,
      λ n e h. rw (h, e) refl,
      λ n e h low high. rw h (rw (kept_limit n (atoi limit) e low) (ground arith)),
    )
