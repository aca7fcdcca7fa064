-- ===== src/Base/Decimal.antt =====
-- `strconv.Itoa` and `strconv.Atoi` on unsigned numerals.
use Prim.Native.Nat.{ℕ, zero, suc, ◌+◌, ◌-◌, ◌*◌, ◌/◌, ◌%◌, ◌≤◌, ◌<◌}
use Prim.Native.String.{String, ◌++◌}
use Prim.Native.Char.{code}
use mathlib.Core.Path.{◌≡◌, refl, ap, ◌∙◌}
use mathlib.Core.Logic.{◌≢◌, inl, inr}
use mathlib.Core.Bool.{Bool, false, ◌&&◌}
use mathlib.Core.Option.{Option, none, some, some_inj}
use native.Mathlib.Omega.{arith}
use text.Mathlib.TextLemmas.{nil-append, cons-append, append-ne-nil_of_right_ne-nil}
use text.Mathlib.TextEquality.{eq_iff}
use machine_controller.Base.Tests.{ltb, ◌==◌, Bool-cases, if◌then◌else◌}

abbrev digit : ℕ → String
digit zero = "0"
digit (suc zero) = "1"
digit (suc (suc zero)) = "2"
digit (suc (suc (suc zero))) = "3"
digit (suc (suc (suc (suc zero)))) = "4"
digit (suc (suc (suc (suc (suc zero))))) = "5"
digit (suc (suc (suc (suc (suc (suc zero)))))) = "6"
digit (suc (suc (suc (suc (suc (suc (suc zero))))))) = "7"
digit (suc (suc (suc (suc (suc (suc (suc (suc zero)))))))) = "8"
digit _ = "9"

-- `fuel` is at least the number.
numeral : ℕ → ℕ → String
numeral zero n = digit n
numeral (suc fuel) n =
    let rest = numeral fuel (n / 10) in if ltb n 10 then digit n else rest ++ digit (n % 10)

unfoldable pub itoa : ℕ → String
unfolding numeral
itoa n = numeral n n

pub is_digit : ℕ → Bool
is_digit k = ltb 47 k && ltb k 58

parse : ℕ → String → Option ℕ
parse acc String.[] = some acc
parse acc (String.◌∷◌ c s) =
    let rest = parse (acc * 10 + (code c - 48)) s in if is_digit (code c) then rest else none

-- A number that does not fit into 63 bits is out of range.
unfoldable pub atoi : String → Option ℕ
unfolding parse
atoi s = if s == "" then none else elim (parse 0 s) [
  | none ↦ none
  | some n ↦ if ltb n 9_223_372_036_854_775_808 then some n else none
]

parse-++ : (acc : ℕ) (s t : String) (n : ℕ) → parse acc s ≡ some n → parse acc (s ++ t) ≡ parse n t
unfolding parse
parse-++ acc String.[] t n h = rw (nil-append t) (ap (λ x. parse x t) (some_inj.0 h))
parse-++ acc (String.◌∷◌ c s) t n h =
    rw (cons-append c s t) (ground (arith, h, parse-++ (acc * 10 + (code c - 48)) s t n))

parse-digit : (acc d : ℕ) → d < 10 → parse acc (digit d) ≡ some (acc * 10 + d)
unfolding parse is_digit
parse-digit acc zero h = ap some (omega arith)
parse-digit acc (suc zero) h = ap some (omega arith)
parse-digit acc (suc (suc zero)) h = ap some (omega arith)
parse-digit acc (suc (suc (suc zero))) h = ap some (omega arith)
parse-digit acc (suc (suc (suc (suc zero)))) h = ap some (omega arith)
parse-digit acc (suc (suc (suc (suc (suc zero))))) h = ap some (omega arith)
parse-digit acc (suc (suc (suc (suc (suc (suc zero)))))) h = ap some (omega arith)
parse-digit acc (suc (suc (suc (suc (suc (suc (suc zero))))))) h = ap some (omega arith)
parse-digit acc (suc (suc (suc (suc (suc (suc (suc (suc zero)))))))) h = ap some (omega arith)
parse-digit acc (suc (suc (suc (suc (suc (suc (suc (suc (suc zero))))))))) h = ap some (omega arith)
parse-digit acc (suc (suc (suc (suc (suc (suc (suc (suc (suc (suc d)))))))))) h =
    absurd (omega arith)

parse-numeral : (fuel n : ℕ) → n ≤ fuel → parse 0 (numeral fuel n) ≡ some n
unfolding numeral
parse-numeral zero n h = ground (arith, parse-digit 0 n)
parse-numeral (suc fuel) n h = elim (Bool-cases (ltb n 10)) [
  | inl e ↦ rw e (parse-digit 0 n (ground (arith, e)) ∙ ap some (omega arith))
  | inr e ↦ rw e (
      parse-++ 0 (numeral fuel (n / 10)) (digit (n % 10)) (n / 10)
        (parse-numeral fuel (n / 10) (ground (arith, e, h)))
      ∙ parse-digit (n / 10) (n % 10) (omega arith)
      ∙ ap some (omega arith))
]

digit-== : (n : ℕ) → (digit n == "") ≡ false
digit-== zero = refl
digit-== (suc zero) = refl
digit-== (suc (suc zero)) = refl
digit-== (suc (suc (suc zero))) = refl
digit-== (suc (suc (suc (suc zero)))) = refl
digit-== (suc (suc (suc (suc (suc zero))))) = refl
digit-== (suc (suc (suc (suc (suc (suc zero)))))) = refl
digit-== (suc (suc (suc (suc (suc (suc (suc zero))))))) = refl
digit-== (suc (suc (suc (suc (suc (suc (suc (suc zero)))))))) = refl
digit-== (suc (suc (suc (suc (suc (suc (suc (suc (suc n))))))))) = refl

numeral-== : (fuel n : ℕ) → (numeral fuel n == "") ≡ false
unfolding numeral
numeral-== zero n = digit-== n
numeral-== (suc fuel) n = elim (Bool-cases (ltb n 10)) [
  | inl e ↦ rw e (digit-== n)
  | inr e ↦ rw e (nonempty (numeral fuel (n / 10)) (digit (n % 10)) (digit-== (n % 10)))
]
  where
    nonempty : (s t : String) → (t == "") ≡ false → (s ++ t == "") ≡ false
    nonempty s t h =
        let tail : t ≢ "" = ground (arith, h, eq_iff t "") in
        ground (arith, eq_iff (s ++ t) "", append-ne-nil_of_right_ne-nil s tail)

-- What `Atoi` reads of what `Itoa` wrote is the number, if it fits, and nothing else.
pub atoi-itoa : (n : ℕ) → atoi (itoa n) ≡ (if ltb n 9_223_372_036_854_775_808 then some n else none)
unfolding itoa atoi
atoi-itoa n = ground (arith, numeral-== n n, parse-numeral n n (omega arith))
