-- ===== src/Text/SplitJoin.antt =====
-- Splitting what was joined, and cutting a key from a value, where the separator is one character.
use azure_pipelines_k8s_agen.Prelude.{
  ℕ, zero, none, Bool-cases, inl, inr, false, Option, Bool, true, ◌&&◌, not, List, [], ◌∷◌, ◌++◌,
  some, ◌≡◌, refl, ◌∙◌, arith, ◌==◌, all, ap,
}
use azure_pipelines_k8s_agen.Text.Base.{Text}
use azure_pipelines_k8s_agen.Text.Pieces.{
  starts_with, split_from, split, cut, cons_first, cons_head, join,
}

-- No character of the text is `b`.
abbrev pub lacks : ℕ → Text → Bool
lacks b [] = true
lacks b (c ∷ s) = not (b == c) && lacks b s

split_from-lacks :
    (b : ℕ) (p rest : Text)
    → lacks b p ≡ true
    → split_from (b ∷ []) zero (p ++ b ∷ rest) ≡ p ∷ split_from (b ∷ []) zero rest
unfolding split_from starts_with
split_from-lacks b [] rest h = ground arith
split_from-lacks b (c ∷ p) rest h = ground (arith, split_from-lacks b p rest)

split_from-single : (b : ℕ) (p : Text) → lacks b p ≡ true → split_from (b ∷ []) zero p ≡ p ∷ []
unfolding split_from starts_with
split_from-single b [] h = refl
split_from-single b (c ∷ p) h = ground (arith, split_from-single b p)

-- Pieces that lack the separator come back, one at least.
pub split-join :
    (b : ℕ) (p : Text) (ps : List Text)
    → all (lacks b) (p ∷ ps) ≡ true
    → split (b ∷ []) (join (b ∷ []) (p ∷ ps)) ≡ p ∷ ps
unfolding split join
split-join b p [] h = split_from-single b p (ground arith)
split-join b p (q ∷ ps) h =
    split_from-lacks b p (join (b ∷ []) (q ∷ ps)) (ground arith)
    ∙ ap (◌∷◌ p) (split-join b q ps (ground arith))

pub cut_key : (b : ℕ) (k v : Text) → lacks b k ≡ true → cut (b ∷ []) (k ++ b ∷ v) ≡ some (k, v)
unfolding cut
cut_key b [] v h = ground arith
cut_key b (c ∷ k) v h = ground (arith, cut_key b k v)

pub lacks-append :
    (b : ℕ) (s t : Text) → lacks b s ≡ true → lacks b t ≡ true → lacks b (s ++ t) ≡ true
lacks-append b [] t h k = k
lacks-append b (c ∷ s) t h k = ground (arith, lacks-append b s t)

cons_head-lacks :
    (b c : ℕ) (ps : List Text)
    → (b == c) ≡ false
    → all (lacks b) ps ≡ true
    → all (lacks b) (cons_head c ps) ≡ true
cons_head-lacks b c [] h a = ground arith
cons_head-lacks b c (p ∷ ps) h a = ground arith

-- The pieces of a split lack the separator.
pub split-lacks : (b : ℕ) (s : Text) → all (lacks b) (split_from (b ∷ []) zero s) ≡ true
unfolding split_from starts_with
split-lacks b [] = refl
split-lacks b (c ∷ s) =
    ground (arith, split-lacks b s, cons_head-lacks b c (split_from (b ∷ []) zero s))

-- What a cut leaves: a key without the separator, and two parts without what the whole lacks.
abbrev pub PartsLack : ℕ → ℕ → Option (Text × Text) → Type 0
PartsLack b d none = Unit
PartsLack b d (some (k, v)) = (lacks b k ≡ true) × (lacks d k ≡ true) × (lacks d v ≡ true)

PartsLack-cons_first :
    (b d c : ℕ) (o : Option (Text × Text))
    → (b == c) ≡ false
    → (d == c) ≡ false
    → PartsLack b d o
    → PartsLack b d (cons_first c o)
PartsLack-cons_first b d c none n m p = tt
PartsLack-cons_first b d c (some (k, v)) n m p = ground arith

pub cut-PartsLack : (b d : ℕ) (s : Text) → lacks d s ≡ true → PartsLack b d (cut (b ∷ []) s)
unfolding cut starts_with
cut-PartsLack b d [] h = tt
cut-PartsLack b d (c ∷ s) h = elim (Bool-cases (b == c)) [
  | inl same ↦ rw same (refl, refl, ground arith)
  | inr other ↦ rw other (
      PartsLack-cons_first b d c (cut (b ∷ []) s) other (ground arith)
        (cut-PartsLack b d s (ground arith)))
]
