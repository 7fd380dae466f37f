-- ===== src/Cooling/Digits.antt =====
-- Numbers printed and read again.
use zcode2api_plus.Common.{
  ℕ, zero, suc, ◌+◌, ◌-◌, ◌*◌, ◌/◌, ◌%◌, ◌≤◌, ◌<◌, ◌≡◌, refl, ap, ◌∙◌, Bool, true, false, ◌&&◌, [],
  ◌∷◌, ◌++◌, some, Text, ltb, leb, is_nil, all, arith, if_intro, pos,
}
use zcode2api_plus.ModelName.{trim_space, trim_left, trim_right, is_space}
use zcode2api_plus.Account.Quota.{parse_digits, parse_number}
use zcode2api_plus.Cooling.{itoa, itoa_from, atoi_positive, step_max}

abbrev pub is_digit : ℕ → Bool
is_digit c = leb b'0' c && leb c b'9'

-- A text of digits, at least one.
abbrev pub IsNumeral : Text → Type 0
IsNumeral s = (is_nil s ≡ false) × (all is_digit s ≡ true)

parse_digits-append :
    (acc r m : ℕ) (s : Text)
    → r < 10
    → parse_digits acc s ≡ some m
    → parse_digits acc (s ++ (b'0' + r) ∷ []) ≡ some (m * 10 + r)
unfolding parse_digits
parse_digits-append acc r m [] l h = ground arith
parse_digits-append acc r m (c ∷ s) l h =
    ground (arith, parse_digits-append (acc * 10 + (c - 48)) r m s l)

parse_itoa_from : (fuel n : ℕ) → n < fuel → parse_digits 0 (itoa_from fuel n) ≡ some n
unfolding itoa_from parse_digits
parse_itoa_from zero n h = absurd (omega arith)
parse_itoa_from (suc fuel) n h =
    if_intro (λ s. parse_digits 0 s ≡ some n) (ltb n 10) (λ y. ground arith)
      (λ d.
        let rest = parse_itoa_from fuel (n / 10) (ground arith) in
        parse_digits-append 0 (n % 10) (n / 10) (itoa_from fuel (n / 10)) (omega arith) rest
        ∙ ap some (omega arith))

all-append_digit :
    (s : Text) (r : ℕ) → all is_digit s ≡ true → r < 10 → all is_digit (s ++ (b'0' + r) ∷ []) ≡ true
all-append_digit [] r a l = ground arith
all-append_digit (c ∷ s) r a l = ground (arith, all-append_digit s r)

nil-append : (s : Text) (c : ℕ) → is_nil (s ++ c ∷ []) ≡ false
nil-append [] c = refl
nil-append (d ∷ s) c = refl

itoa_from-IsNumeral : (fuel n : ℕ) → n < fuel → IsNumeral (itoa_from fuel n)
unfolding itoa_from
itoa_from-IsNumeral zero n h = absurd (omega arith)
itoa_from-IsNumeral (suc fuel) n h =
    if_intro IsNumeral (ltb n 10) (λ y. (refl, ground arith))
      (λ d.
        let (e, a) = itoa_from-IsNumeral fuel (n / 10) (ground arith) in
        (
          nil-append (itoa_from fuel (n / 10)) (48 + n % 10),
          all-append_digit (itoa_from fuel (n / 10)) (n % 10) a (omega arith),
        ))

pub itoa-IsNumeral : (n : ℕ) → IsNumeral (itoa n)
unfolding itoa
itoa-IsNumeral n = itoa_from-IsNumeral (suc n) n (omega arith)

parse_number_digits :
    (s : Text) (n : ℕ) → IsNumeral s → parse_digits 0 s ≡ some n → parse_number s ≡ some (pos n)
unfolding parse_number
parse_number_digits [] n (e, a) h = absurd (ground arith)
parse_number_digits (c ∷ s) n (e, a) h = ground arith

-- Digits are not white space.
trim_left_digits : (s : Text) → all is_digit s ≡ true → trim_left s ≡ s
unfolding trim_left is_space
trim_left_digits [] a = refl
trim_left_digits (c ∷ s) a = ground arith

trim_right_digits : (s : Text) → all is_digit s ≡ true → trim_right s ≡ s
unfolding trim_right is_space
trim_right_digits [] a = refl
trim_right_digits (c ∷ s) a = ground (arith, trim_right_digits s)

pub trim_digits : (s : Text) → all is_digit s ≡ true → trim_space s ≡ s
unfolding trim_space
trim_digits s a = rw (trim_left_digits s a) (trim_right_digits s a)

-- A number within the bounds is read back from its digits.
pub atoi-itoa : (n : ℕ) → 1 ≤ n → n ≤ step_max → atoi_positive (itoa n) ≡ some n
unfolding atoi_positive itoa
atoi-itoa n a b =
    let p =
      parse_number_digits (itoa n) n (itoa-IsNumeral n) (parse_itoa_from (suc n) n (omega arith)) in
    ground (arith, p)
