-- ===== src/Json/Decimal.antt =====
-- The decimal text of a uint64 determines it.
use Prim.Native.Char.{code}
use native.Mathlib.Nat.{pow-suc}
use runtime_provenance_firew.Base.{
  ℕ, zero, suc, ◌+◌, ◌-◌, ◌*◌, ◌/◌, ◌%◌, ◌^◌, ◌<◌, String, ◌≡◌, refl, sym, ap, ◌∙◌, inl, inr, arith,
  ltb, Bool-cases,
}
use runtime_provenance_firew.Json.{digit, decimal_onto, decimal}

-- The number that a decimal text continues.
unfoldable pub read : ℕ → String → ℕ
read acc String.[] = acc
read acc (String.◌∷◌ c s) = read (acc * 10 + (code c - 48)) s

digit_code : (d : ℕ) → d < 10 → code (digit d) - 48 ≡ d
digit_code zero h = refl
digit_code (suc zero) h = refl
digit_code (suc (suc zero)) h = refl
digit_code (suc (suc (suc zero))) h = refl
digit_code (suc (suc (suc (suc zero)))) h = refl
digit_code (suc (suc (suc (suc (suc zero))))) h = refl
digit_code (suc (suc (suc (suc (suc (suc zero)))))) h = refl
digit_code (suc (suc (suc (suc (suc (suc (suc zero))))))) h = refl
digit_code (suc (suc (suc (suc (suc (suc (suc (suc zero)))))))) h = refl
digit_code (suc (suc (suc (suc (suc (suc (suc (suc (suc zero))))))))) h = refl
digit_code (suc (suc (suc (suc (suc (suc (suc (suc (suc (suc n)))))))))) h = absurd (omega arith)

read-digit :
    (d n acc : ℕ) (s : String)
    → d < 10
    → acc * 10 + d ≡ n
    → read acc (String.◌∷◌ (digit d) s) ≡ read n s
unfolding read
read-digit d n acc s h e = ap (λ m. read m s) (omega (arith, digit_code d h))

read-decimal_onto :
    (more n : ℕ) (s : String) → n < 10 ^ more → read 0 (decimal_onto more n s) ≡ read n s
unfolding decimal_onto
read-decimal_onto zero n s h = ap (λ m. read m s) (omega arith)
read-decimal_onto (suc more) n s h = elim (Bool-cases (ltb n 10)) [
  | inl small ↦ rw small (read-digit n n 0 s (ground arith) (omega arith))
  | inr large ↦ rw large (
      read-decimal_onto more (n / 10) (String.◌∷◌ (digit (n % 10)) s)
        (omega (arith, pow-suc 10 more))
      ∙ read-digit (n % 10) n (n / 10) s (omega arith) (omega arith))
]

pub read-decimal : (n : ℕ) → n < 2 ^ 64 → read 0 (decimal n) ≡ n
unfolding decimal read
read-decimal n h = read-decimal_onto 20 n "" (omega arith)

pub decimal-injective : (m n : ℕ) → m < 2 ^ 64 → n < 2 ^ 64 → decimal m ≡ decimal n → m ≡ n
decimal-injective m n hm hn e = sym (read-decimal m hm) ∙ ap (read 0) e ∙ read-decimal n hn
