-- ===== src/Core/Usage.antt =====
-- crates/snaca-core/src/usage.rs: token accounting. The fields are `u64`; the code adds them with
-- the plain operator, whose release build wraps.
pub mod Sums
use snaca.Base.{ℕ, ◌+◌, ◌%◌, ◌^◌, Option, none, some}

abbrev pub u64 : ℕ → ℕ
u64 n = n % 2 ^ 64

pub record Usage : Type 0 where
  pub input_tokens : ℕ
  pub output_tokens : ℕ
  pub cache_creation_input_tokens : Option ℕ
  pub cache_read_input_tokens : Option ℕ

unfoldable pub total : Usage → ℕ
total u = u64 (u.input_tokens + u.output_tokens)

-- The `match` of `add` on the two cache counts of one kind.
abbrev pub add_cache : Option ℕ → Option ℕ → Option ℕ
add_cache (some a) (some b) = some (u64 (a + b))
add_cache none (some b) = some b
add_cache a none = a

unfoldable pub add : Usage → Usage → Usage
add self other = record {
  input_tokens = u64 (self.input_tokens + other.input_tokens);
  output_tokens = u64 (self.output_tokens + other.output_tokens);
  cache_creation_input_tokens =
      add_cache self.cache_creation_input_tokens other.cache_creation_input_tokens;
  cache_read_input_tokens = add_cache self.cache_read_input_tokens other.cache_read_input_tokens;
}
