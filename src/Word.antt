-- ===== src/Word.antt =====
-- The machine integers of a 64-bit target: the bounds of usize, u32, u64 and i64, and the checked
-- and saturating operations of the standard library that the crate calls.
use seqcache.Prelude.{
  ℕ, suc, ◌+◌, ◌-◌, ◌*◌, ◌%◌, ◌^◌, ◌≤◌, ◌≡◌, Option, none, some, ltb, leb, if◌then◌else◌, arith, ℤ,
  pos, negsuc,
}

-- The bounds are shut: no proof counts up to them.
unfoldable pub usize_max : ℕ
usize_max = 2 ^ 64 - 1

unfoldable pub u64_max : ℕ
u64_max = 2 ^ 64 - 1

unfoldable pub u32_max : ℕ
u32_max = 2 ^ 32 - 1

unfoldable pub i64_max : ℕ
i64_max = 2 ^ 63 - 1

-- `a.checked_add(b)`, on the type whose largest value is `max`.
abbrev pub checked_add_to : ℕ → ℕ → ℕ → Option ℕ
checked_add_to max a b = if leb (a + b) max then some (a + b) else none

abbrev pub checked_add : ℕ → ℕ → Option ℕ
checked_add a b = checked_add_to usize_max a b

abbrev pub checked_sub : ℕ → ℕ → Option ℕ
checked_sub a b = if leb b a then some (a - b) else none

abbrev pub checked_mul : ℕ → ℕ → Option ℕ
checked_mul a b = if leb (a * b) usize_max then some (a * b) else none

abbrev pub saturating_add : ℕ → ℕ → ℕ
saturating_add a b = if leb (a + b) usize_max then a + b else usize_max

-- `-` on ℕ stops at 0, as `saturating_sub` does.
abbrev pub saturating_sub : ℕ → ℕ → ℕ
saturating_sub a b = a - b

abbrev pub min_of : ℕ → ℕ → ℕ
min_of a b = if ltb b a then b else a

-- `n.min(isize::MAX as usize) as isize`
abbrev pub isize_capped : ℕ → ℕ
isize_capped n = min_of n i64_max

-- `n -= 1` on usize, which wraps at 0.
abbrev pub wrapping_pred : ℕ → ℕ
wrapping_pred n = (n + usize_max) % suc usize_max

-- Plain `+` and `*` on usize, which wrap.
abbrev pub wrapped : ℕ → ℕ
wrapped n = n % 2 ^ 64

-- `value as i64`: the same 64 bits, read with a sign.
unfoldable pub as_i64 : ℕ → ℤ
as_i64 n = if leb n i64_max then pos n else negsuc (usize_max - n)

-- A value within the range of i64 keeps its magnitude.
pub as_i64_exact : (n : ℕ) → n ≤ i64_max → as_i64 n ≡ pos n
unfolding as_i64
as_i64_exact n h = ground arith

pub i64-le-usize : i64_max ≤ usize_max
unfolding i64_max usize_max
i64-le-usize = omega arith
