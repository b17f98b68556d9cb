-- ===== src/App/Pipeline/Bits.antt =====
-- The bits of a set of effects: what reading a bit says after another one was set.
use nuzur_cli.Base.{
  ℕ, zero, suc, ◌+◌, ◌*◌, ◌/◌, ◌%◌, ◌≡◌, refl, ◌==◌, ◌||◌, arith, false, if◌then◌else◌,
}
use nuzur_cli.App.Pipeline.{bit_at, set_at, false}

half_double : (s x : ℕ) → (s % 2 + 2 * x) / 2 ≡ x
half_double s x = omega arith

half_set : (s : ℕ) → (if s % 2 == 1 then s else s + 1) / 2 ≡ s / 2
half_set s = ground arith

suc_==_suc : (k j : ℕ) → (suc k == suc j) ≡ (k == j)
suc_==_suc k j = ground arith

zero_==_suc : (j : ℕ) → (0 == suc j) ≡ false
zero_==_suc j = ground arith

pub bit_at-set_at : (j k s : ℕ) → bit_at j (set_at k s) ≡ ((k == j) || bit_at j s)
unfolding bit_at set_at
bit_at-set_at zero zero s = ground arith
bit_at-set_at zero (suc k) s = ground arith
bit_at-set_at (suc j) zero s = rw (half_set s, zero_==_suc j)
bit_at-set_at (suc j) (suc k) s =
    rw (half_double s (set_at k (s / 2)), bit_at-set_at j k (s / 2), suc_==_suc k j)

pub bit_at-empty : (j : ℕ) → bit_at j 0 ≡ false
unfolding bit_at
bit_at-empty zero = refl
bit_at-empty (suc j) = bit_at-empty j
