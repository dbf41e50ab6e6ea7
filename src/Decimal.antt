-- ===== src/Decimal.antt =====
-- `strconv.FormatInt` at base ten, for the numbers of the program that are not negative.
use Prim.Native.Char.{Char, code}
use Prim.Native.String.{String}
use loggie.Prelude.{
  ℕ, zero, suc, ◌+◌, ◌-◌, ◌*◌, ◌/◌, ◌%◌, ◌<◌, ◌≡◌, refl, sym, ap, ◌∙◌, ltb, if◌then◌else◌,
  Bool-cases, inl, inr, arith,
}

abbrev digit : ℕ → Char
digit zero = "0"
digit (suc zero) = "1"
digit (suc (suc zero)) = "2"
digit (suc (suc (suc zero))) = "3"
digit (suc (suc (suc (suc zero)))) = "4"
digit (suc (suc (suc (suc (suc zero))))) = "5"
digit (suc (suc (suc (suc (suc (suc zero)))))) = "6"
digit (suc (suc (suc (suc (suc (suc (suc zero))))))) = "7"
digit (suc (suc (suc (suc (suc (suc (suc (suc zero)))))))) = "8"
digit _ = "9"

-- Put the digits of `n` in front of `s`, the last first.
digits : ℕ → ℕ → String → String
digits zero n s = s
digits (suc f) n s =
    let rest = digits f (n / 10) (String.◌∷◌ (digit (n % 10)) s) in
    if ltb n 10 then String.◌∷◌ (digit n) s else rest

unfoldable pub itoa : ℕ → String
unfolding digits
itoa n = digits (suc n) n String.[]

-- The number that a text of digits stands for, behind the digits read so far.
read : ℕ → String → ℕ
read n String.[] = n
read n (String.◌∷◌ c s) = read (n * 10 + (code c - b'0')) s

code-digit : (d : ℕ) → d < 10 → code (digit d) - b'0' ≡ d
code-digit zero h = refl
code-digit (suc zero) h = refl
code-digit (suc (suc zero)) h = refl
code-digit (suc (suc (suc zero))) h = refl
code-digit (suc (suc (suc (suc zero)))) h = refl
code-digit (suc (suc (suc (suc (suc zero))))) h = refl
code-digit (suc (suc (suc (suc (suc (suc zero)))))) h = refl
code-digit (suc (suc (suc (suc (suc (suc (suc zero))))))) h = refl
code-digit (suc (suc (suc (suc (suc (suc (suc (suc zero)))))))) h = refl
code-digit (suc (suc (suc (suc (suc (suc (suc (suc (suc zero))))))))) h = refl
code-digit (suc (suc (suc (suc (suc (suc (suc (suc (suc (suc d)))))))))) h = absurd (omega arith)

read-digits : (f n : ℕ) (s : String) → n < f → read 0 (digits f n s) ≡ read n s
unfolding read digits
read-digits zero n s h = elim h [ ]
read-digits (suc f) n s h = elim (Bool-cases (ltb n 10)) [
  | inl e ↦ rw e (ap (λ m. read m s) (omega (arith, code-digit n (ground arith))))
  | inr e ↦ rw e (
      read-digits f (n / 10) (String.◌∷◌ (digit (n % 10)) s) (ground arith)
      ∙ ap (λ m. read m s) (omega (arith, code-digit (n % 10) (omega arith))))
]

-- Different numbers are printed differently.
pub itoa_inj : (m n : ℕ) → itoa m ≡ itoa n → m ≡ n
unfolding read itoa
itoa_inj m n e =
    sym (read-digits (suc m) m String.[] (omega arith))
    ∙ ap (read 0) e
    ∙ read-digits (suc n) n String.[] (omega arith)
