-- ===== src/Base/Int.antt =====
-- Go's int and int64 as integers, with the wrap-around of 64-bit sums.
use container_provisioner_k.Base.{
  ℕ, suc, ◌+◌, ◌-◌, ◌%◌, ◌^◌, Bool, ltb, if◌then◌else◌, ◌≡◌, refl, ◌<◌, arith, Eq, ◌↔◌, true, false,
  nat_beq,
}

-- `negsuc n` is -(n + 1).
pub data ℤ : Type 0 where
  pos : ℕ → ℤ
  negsuc : ℕ → ℤ

abbrev pub pos_part : ℤ → ℕ
pos_part (pos n) = n
pos_part (negsuc n) = 0

abbrev pub neg_part : ℤ → ℕ
neg_part (pos n) = 0
neg_part (negsuc n) = suc n

abbrev pub ltb_ℤ : ℤ → ℤ → Bool
ltb_ℤ a b = ltb (pos_part a + neg_part b) (pos_part b + neg_part a)

abbrev beq_ℤ : ℤ → ℤ → Bool
beq_ℤ (pos a) (pos b) = nat_beq a b
beq_ℤ (negsuc a) (negsuc b) = nat_beq a b
beq_ℤ _ _ = false

pub beq_ℤ_iff : (a b : ℤ) → (beq_ℤ a b ≡ true) ↔ (a ≡ b)
beq_ℤ_iff (pos a) (pos b) = ground arith
beq_ℤ_iff (negsuc a) (negsuc b) = ground arith
beq_ℤ_iff (pos a) (negsuc b) = ground arith
beq_ℤ_iff (negsuc a) (pos b) = ground arith

instance abbrev pub int_eq : Eq ℤ
int_eq = record { beq = beq_ℤ; beq_iff = beq_ℤ_iff }

abbrev two64 : ℕ
two64 = 2 ^ 64

-- The residue of an integer modulo 2 ^ 64.
residue : ℤ → ℕ
residue (pos n) = n % two64
residue (negsuc n) = two64 - 1 - n % two64

signed : ℕ → ℤ
signed u = if ltb u (2 ^ 63) then pos u else negsuc (two64 - 1 - u)

-- int64 addition
unfoldable pub add64 : ℤ → ℤ → ℤ
unfolding residue signed
add64 a b = signed ((residue a + residue b) % two64)

-- Where the sum fits, nothing wraps.
pub add64_fits : (m n : ℕ) → m + n < 2 ^ 63 → add64 (pos m) (pos n) ≡ pos (m + n)
unfolding add64
add64_fits m n h = ground arith

-- Past 2 ^ 63 the sum of two positive numbers is negative.
add64_wraps : add64 (pos (2 ^ 62)) (pos (2 ^ 62)) ≡ negsuc (2 ^ 63 - 1)
unfolding add64
add64_wraps = refl

-- The conversion int32(z), which keeps the low 32 bits.
unfoldable pub to_int32 : ℤ → ℤ
to_int32 z = signed32 (residue32 z)
  where
    residue32 : ℤ → ℕ
    residue32 (pos n) = n % 2 ^ 32
    residue32 (negsuc n) = 2 ^ 32 - 1 - n % 2 ^ 32

    signed32 : ℕ → ℤ
    signed32 u = if ltb u (2 ^ 31) then pos u else negsuc (2 ^ 32 - 1 - u)

pub to_int32_fits : (n : ℕ) → n < 2 ^ 31 → to_int32 (pos n) ≡ pos n
unfolding to_int32
to_int32_fits n h = ground arith
