-- ===== src/Core/Usage/Sums.antt =====
-- crates/snaca-core/src/usage.rs: the sums of a turn's usages do not depend on their grouping.
use snaca.Base.{ℕ, ◌+◌, Option, none, some, ◌≡◌, refl, ap, arith}
use snaca.Core.Usage.{u64, Usage, total, add, add_cache}

-- The total of a sum is the sum of the totals, modulo 2 ^ 64.
pub total-add : (a b : Usage) → total (add a b) ≡ u64 (total a + total b)
unfolding total add
total-add a b = omega arith

u64_assoc : (a b c : ℕ) → u64 (u64 (a + b) + c) ≡ u64 (a + u64 (b + c))
u64_assoc a b c = omega arith

cache_assoc : (a b c : Option ℕ) → add_cache (add_cache a b) c ≡ add_cache a (add_cache b c)
cache_assoc none b none = refl
cache_assoc none none (some z) = refl
cache_assoc none (some y) (some z) = refl
cache_assoc (some x) none none = refl
cache_assoc (some x) (some y) none = refl
cache_assoc (some x) none (some z) = refl
cache_assoc (some x) (some y) (some z) = ap some (u64_assoc x y z)

-- Adding usages is associative, wrap-around and absent cache counts included.
pub add_assoc : (a b c : Usage) → add (add a b) c ≡ add a (add b c)
unfolding add
add_assoc a b c =
    rw
      (
        u64_assoc a.input_tokens b.input_tokens c.input_tokens,
        u64_assoc a.output_tokens b.output_tokens c.output_tokens,
        cache_assoc a.cache_creation_input_tokens b.cache_creation_input_tokens
            c.cache_creation_input_tokens,
        cache_assoc a.cache_read_input_tokens b.cache_read_input_tokens c.cache_read_input_tokens,
      )
      refl
