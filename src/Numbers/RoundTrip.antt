-- ===== src/Numbers/RoundTrip.antt =====
-- What `%ld` prints, `atoi` reads back, as long as it fits 32 bits.
use uctool.Common.{
  ℕ, zero, suc, ◌+◌, ◌/◌, ◌%◌, ◌^◌, ◌<◌, ◌≡◌, sym, ap, ◌∙◌, inl, inr, true, false, [], ◌∷◌, ◌++◌,
  Bytes, ltb, ◌==◌, pos, negsuc, signed32, arith, Bool-cases, append-nil, append_assoc,
}
use uctool.Numbers.{
  digits, show_nat, show_int, is_digit, leading, cut32, long_pos, long_neg, after_sign, skip_space,
  atoi,
}

leading-digits :
    (fuel n : ℕ) (rest : Bytes) → n < fuel → leading 0 (digits fuel n ++ rest) ≡ leading n rest
unfolding digits leading is_digit
leading-digits zero n rest h = absurd (omega arith)
leading-digits (suc fuel) n rest h = elim (Bool-cases (ltb n 10)) [
  | inl small ↦ rw small (ground arith)
  | inr big ↦
      rw
        (
          big,
          append_assoc (digits fuel (n / 10)) ((n % 10 + 48) ∷ []) rest,
          leading-digits fuel (n / 10) ((n % 10 + 48) ∷ rest) (ground arith),
        )
        (ground arith)
]

digit_not_sign : (c : ℕ) → is_digit c ≡ true → ((c == 45) ≡ false) × ((c == 43) ≡ false)
unfolding is_digit
digit_not_sign c d = ground arith

-- The first byte of what `%ld` prints for a natural number is a digit.
digits_first :
    (fuel n : ℕ)
    → n < fuel
    → (c : ℕ) × (cs : Bytes) × (digits fuel n ≡ c ∷ cs) × (is_digit c ≡ true)
unfolding digits is_digit
digits_first zero n h = absurd (omega arith)
digits_first (suc fuel) n h = elim (Bool-cases (ltb n 10)) [
  | inl small ↦ (n + 48, [], rw small, ground arith)
  | inr big ↦
      let (c, cs, e, d) = digits_first fuel (n / 10) (ground arith) in
      (c, cs ++ (n % 10 + 48) ∷ [], rw (big, e), d)
]

after_sign-digit :
    (c : ℕ) (cs : Bytes) → is_digit c ≡ true → after_sign (c ∷ cs) ≡ long_pos (leading 0 (c ∷ cs))
unfolding after_sign
after_sign-digit c cs d = ground (arith, digit_not_sign c d)

skip_space-digit : (c : ℕ) (cs : Bytes) → is_digit c ≡ true → skip_space (c ∷ cs) ≡ c ∷ cs
unfolding skip_space is_digit
skip_space-digit c cs d = ground arith

-- A number below 2^31 that `%ld` has printed is read back by `atoi`; its negative too. A larger one
-- up to 2^63 comes back cut to its low 32 bits, as a signed number: 2^31 comes back as -2^31.
pub atoi-show_int :
    (n : ℕ)
    → (n < 2 ^ 31 → (atoi (show_int (pos n)) ≡ pos n) × (atoi (show_int (negsuc n)) ≡ negsuc n))
      × (n < 2 ^ 63 → atoi (show_int (pos n)) ≡ signed32 (n % 2 ^ 32))
unfolding atoi show_int show_nat
atoi-show_int n =
    let (c, cs, e, d) = digits_first (suc n) n (omega arith) in
    let value : leading 0 (digits (suc n) n) ≡ n =
      ap (leading 0) (sym (append-nil (digits (suc n) n)))
      ∙ leading-digits (suc n) n [] (omega arith) in
    let read : after_sign (skip_space (digits (suc n) n)) ≡ long_pos n =
      ap (λ t. after_sign (skip_space t)) e
      ∙ ap after_sign (skip_space-digit c cs d)
      ∙ after_sign-digit c cs d
      ∙ ap (λ t. long_pos (leading 0 t)) (sym e)
      ∙ ap long_pos value in
    let value' : leading 0 (digits (suc (suc n)) (suc n)) ≡ suc n =
      ap (leading 0) (sym (append-nil (digits (suc (suc n)) (suc n))))
      ∙ leading-digits (suc (suc n)) (suc n) [] (omega arith) in
    (
      λ h. (ap cut32 read ∙ ground arith, ap (λ t. cut32 (long_neg t)) value' ∙ ground arith),
      λ h. ap cut32 read ∙ ground arith,
    )
