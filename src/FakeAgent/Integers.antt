-- ===== src/FakeAgent/Integers.antt =====
-- `strconv.Atoi` and `strconv.ParseInt` on 64 bits, with their errors ignored as the fake agent does.
pub mod RoundTrip
use azure_pipelines_k8s_agen.Prelude.{
  ℕ, ◌+◌, ◌-◌, ◌*◌, ◌^◌, Bool, true, false, ◌&&◌, List, [], ◌∷◌, ◌++◌, Option, none, some, leb, ltb,
  ◌==◌, if◌then◌else◌, ℤ, pos, negsuc,
}
use azure_pipelines_k8s_agen.Text.{Text}
use azure_pipelines_k8s_agen.AzureDevOps.{decimal}

abbrev is_digit : ℕ → Bool
is_digit c = leb b'0' c && leb c b'9'

-- `none` is a syntax error. Past 64 bits the greatest number is given at once, unread what follows.
unfoldable pub parse_uint : ℕ → Text → Option ℕ
parse_uint n [] = some n
parse_uint n (c ∷ cs) =
    let n' = n * 10 + (c - b'0') in
    let rest = parse_uint n' cs in
    if is_digit c then (if leb (2 ^ 64) n' then some (2 ^ 64 - 1) else rest) else none

-- -n
abbrev negative : ℕ → ℤ
negative n = if n == 0 then pos 0 else negsuc (n - 1)

-- The number, cut to 64 bits with a sign; a syntax error gives 0.
abbrev clamp : Bool → Option ℕ → ℤ
clamp is_negative none = pos 0
clamp false (some n) = if leb (2 ^ 63) n then pos (2 ^ 63 - 1) else pos n
clamp true (some n) = if ltb (2 ^ 63) n then negative (2 ^ 63) else negative n

abbrev digits : Bool → Text → ℤ
digits is_negative [] = pos 0
digits is_negative (c ∷ cs) = clamp is_negative (parse_uint 0 (c ∷ cs))

unfoldable pub parse_int : Text → ℤ
unfolding parse_uint
parse_int [] = pos 0
parse_int (c ∷ cs) =
    if c == b'-'
    then digits true cs
    else if c == b'+'
    then digits false cs
    else digits false (c ∷ cs)

-- `%d`
unfoldable pub decimal_int : ℤ → Text
decimal_int (pos n) = decimal n
decimal_int (negsuc n) = b'-' ∷ decimal (n + 1)
