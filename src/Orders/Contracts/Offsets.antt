-- ===== src/Orders/Contracts/Offsets.antt =====
-- The offsets that CreateWithUniqueAmount draws.
use frpay.Prelude.{
  negsuc, ◌+◌, ◌-◌, ℕ, ℤ, pos, ◌+ℤ◌, ◌-ℤ◌, ◌≤ℤ◌, ◌<ℤ◌, int64, ◌≡◌, arith, some, ◌<◌, ◌^◌,
}
use frpay.Orders.Repository.{draw_in, draw_offset}

-- If rand.Intn answers below its bound, and the range of offsets is ordered, not negative and below
-- 2^62, the offset of an attempt is between the two ends of the range.
pub draw_offset_bounds :
    (offset_min offset_max : ℤ) (intn : ℕ → ℕ) {k : ℤ}
    → ((n : ℕ) → 0 < n → intn n < n)
    → pos 0 ≤ℤ offset_min
    → offset_min ≤ℤ offset_max
    → offset_max <ℤ pos (2 ^ 62)
    → draw_offset offset_min offset_max intn ≡ some k
    → (offset_min ≤ℤ k) × (k ≤ℤ offset_max)
unfolding draw_offset draw_in int64 ◌+ℤ◌ ◌-ℤ◌
draw_offset_bounds (pos a) (pos b) intn {k} below low order high e =
    let drawn : 0 < b - a + 1 → intn (b - a + 1) < b - a + 1 = below (b - a + 1) in
    ground (arith, drawn)
draw_offset_bounds (pos a) (negsuc b) intn below low order high e = absurd (omega arith)
draw_offset_bounds (negsuc a) offset_max intn below low order high e = absurd (omega arith)
