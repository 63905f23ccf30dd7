-- ===== src/FakeAgent/Integers/RoundTrip.antt =====
-- A number of the server is read back by the fake agent, if it fits into 64 bits with a sign.
use azure_pipelines_k8s_agen.Prelude.{
  ℕ, zero, suc, ◌+◌, ◌-◌, ◌*◌, ◌/◌, ◌%◌, ◌^◌, ◌<◌, true, false, [], ◌∷◌, none, some, ◌≡◌, refl, ◌∙◌,
  ap, arith, ltb, leb, ltb→lt, ◌==◌, Bool-cases, length, inl, inr, pos,
}
use azure_pipelines_k8s_agen.Text.{Text}
use azure_pipelines_k8s_agen.AzureDevOps.{decimal_onto, decimal}
use azure_pipelines_k8s_agen.FakeAgent.Integers.{is_digit, parse_uint, digits, parse_int}

-- One digit is read.
parse_uint-digit :
    (n d : ℕ) (cs : Text)
    → d < 10
    → n * 10 + d < 2 ^ 64
    → parse_uint n ((b'0' + d) ∷ cs) ≡ parse_uint (n * 10 + d) cs
unfolding parse_uint
parse_uint-digit n d cs small fits =
    let e : n * 10 + (b'0' + d - b'0') ≡ n * 10 + d = omega arith in
    let yes_digit : is_digit (b'0' + d) ≡ true = ground (arith, small) in
    let not_large : leb (2 ^ 64) (n * 10 + d) ≡ false = ground (arith, fits) in
    rw (e, yes_digit, not_large) refl

parse_uint-decimal_onto :
    (fuel n : ℕ) (acc : Text)
    → n < fuel
    → n < 2 ^ 64
    → parse_uint 0 (decimal_onto fuel n acc) ≡ parse_uint n acc
unfolding decimal_onto
parse_uint-decimal_onto zero n acc h fits = absurd (omega (arith, h))
parse_uint-decimal_onto (suc fuel) n acc h fits = elim (Bool-cases (ltb n 10)) [
  | inl small ↦ rw small (
      parse_uint-digit 0 (n % 10) acc (omega arith) (omega (arith, fits))
      ∙ ap (λ k. parse_uint k acc) (omega (arith, ltb→lt n 10 small)))
  | inr large ↦
      let big : 10 < suc n = ground (arith, large) in
      rw large (
        parse_uint-decimal_onto fuel (n / 10) ((b'0' + n % 10) ∷ acc) (omega (arith, h, big))
          (omega (arith, fits))
        ∙ parse_uint-digit (n / 10) (n % 10) acc (omega arith) (omega (arith, fits))
        ∙ ap (λ k. parse_uint k acc) (omega arith))
]

-- A text that is read as a number starts with a digit.
first_digit : (c : ℕ) (cs : Text) (n : ℕ) → parse_uint 0 (c ∷ cs) ≡ some n → is_digit c ≡ true
unfolding parse_uint
first_digit c cs n e = elim (Bool-cases (is_digit c)) [
  | inl h ↦ h
  | inr h ↦ absurd (let no_number : none ≡ some n = rw h at e in cc)
]

digits_lem :
    (c : ℕ) (cs : Text) (n : ℕ)
    → parse_uint 0 (c ∷ cs) ≡ some n
    → n < 2 ^ 63
    → digits false (c ∷ cs) ≡ pos n
digits_lem c cs n e fits = rw e (let h : leb (2 ^ 63) n ≡ false = ground (arith, fits) in rw h refl)

parse_int_lem :
    (t : Text) (n : ℕ) → 0 < length t → parse_uint 0 t ≡ some n → n < 2 ^ 63 → parse_int t ≡ pos n
unfolding parse_int
parse_int_lem [] n h e fits = absurd (omega (arith, h))
parse_int_lem (c ∷ cs) n h e fits =
    let d : is_digit c ≡ true = first_digit c cs n e in
    let minus : (c == b'-') ≡ false = ground (arith, d) in
    let plus : (c == b'+') ≡ false = ground (arith, d) in
    rw (minus, plus) (digits_lem c cs n e fits)

parse_uint_done : (n : ℕ) → parse_uint n [] ≡ some n
unfolding parse_uint
parse_uint_done n = refl

length-decimal_onto :
    (fuel n : ℕ) (acc : Text) → 0 < fuel + length acc → 0 < length (decimal_onto fuel n acc)
unfolding decimal_onto
length-decimal_onto zero n acc h = omega (arith, h)
length-decimal_onto (suc fuel) n acc h =
    ground (arith, length-decimal_onto fuel (n / 10) ((b'0' + n % 10) ∷ acc))

pub parse_int-decimal : (n : ℕ) → n < 2 ^ 63 → parse_int (decimal n) ≡ pos n
unfolding decimal
parse_int-decimal n fits =
    parse_int_lem (decimal n) n (length-decimal_onto (suc n) n [] (omega arith))
      (parse_uint-decimal_onto (suc n) n [] (omega arith) (omega (arith, fits)) ∙ parse_uint_done n)
      fits
