-- ===== src/Text/Pieces.antt =====
-- `strings.HasPrefix`, `Contains`, `Split`, `Cut`, `Join` and `TrimSpace`.
use azure_pipelines_k8s_agen.Prelude.{
  ℕ, zero, suc, ◌-◌, Bool, true, false, ◌&&◌, ◌||◌, List, [], ◌∷◌, ◌++◌, Option, none, some, length,
  drop, leb, ◌==◌, if◌then◌else◌,
}
use azure_pipelines_k8s_agen.Text.Base.{Text}

unfoldable pub starts_with : Text → Text → Bool
starts_with [] s = true
starts_with (p ∷ ps) [] = false
starts_with (p ∷ ps) (c ∷ s) = p == c && starts_with ps s

unfoldable pub contains_text : Text → Text → Bool
unfolding starts_with
contains_text sub [] = starts_with sub []
contains_text sub (c ∷ s) = starts_with sub (c ∷ s) || contains_text sub s

abbrev pub cons_head : ℕ → List Text → List Text
cons_head c [] = (c ∷ []) ∷ []
cons_head c (p ∷ ps) = (c ∷ p) ∷ ps

-- The number is how many code points of the current separator are still to be passed over.
unfoldable pub split_from : Text → ℕ → Text → List Text
split_from sep skip [] = [] ∷ []
split_from sep (suc n) (c ∷ s) = split_from sep n s
split_from sep zero (c ∷ s) =
    let piece = cons_head c (split_from sep zero s) in
    let next = [] ∷ split_from sep (length sep - 1) s in
    if starts_with sep (c ∷ s) then next else piece

-- `strings.Split` for a separator that is not empty.
unfoldable pub split : Text → Text → List Text
unfolding split_from starts_with
split sep s = split_from sep zero s

abbrev pub cons_first : ℕ → Option (Text × Text) → Option (Text × Text)
cons_first c none = none
cons_first c (some (before, after)) = some (c ∷ before, after)

-- `strings.Cut`: what stands before and after the first separator, `none` if there is none.
unfoldable pub cut : Text → Text → Option (Text × Text)
unfolding starts_with
cut sep [] = none
cut sep (c ∷ s) =
    let later = cons_first c (cut sep s) in
    if starts_with sep (c ∷ s) then some ([], drop (length sep) (c ∷ s)) else later

unfoldable pub join : Text → List Text → Text
join sep [] = []
join sep (p ∷ []) = p
join sep (p ∷ q ∷ ps) = p ++ (sep ++ join sep (q ∷ ps))

-- `unicode.IsSpace`
abbrev is_space : ℕ → Bool
is_space c =
    leb 9 c && leb c 13
    || c == 32
    || c == 0x85
    || c == 0xA0
    || c == 0x1680
    || leb 0x2000 c && leb c 0x200A
    || c == 0x2028
    || c == 0x2029
    || c == 0x202F
    || c == 0x205F
    || c == 0x3000

unfoldable pub trim_left : Text → Text
trim_left [] = []
trim_left (c ∷ s) = let rest = trim_left s in if is_space c then rest else c ∷ s

abbrev all_space : Text → Bool
all_space [] = true
all_space (c ∷ s) = is_space c && all_space s

unfoldable pub trim_right : Text → Text
trim_right [] = []
trim_right (c ∷ s) = let rest = c ∷ trim_right s in if all_space (c ∷ s) then [] else rest

unfoldable pub trim_space : Text → Text
unfolding trim_left trim_right
trim_space s = trim_right (trim_left s)
