-- ===== src/Text/SplitPair.antt =====
-- Splitting what was joined by a character that stands twice.
use azure_pipelines_k8s_agen.Prelude.{
  ℕ, zero, true, List, [], ◌∷◌, ◌++◌, ◌≡◌, refl, ◌∙◌, arith, all, ap,
}
use azure_pipelines_k8s_agen.Text.Base.{Text}
use azure_pipelines_k8s_agen.Text.Pieces.{starts_with, split_from, split, join}
use azure_pipelines_k8s_agen.Text.SplitJoin.{lacks}

split_from-pair :
    (b : ℕ) (p rest : Text)
    → lacks b p ≡ true
    → split_from (b ∷ b ∷ []) zero (p ++ b ∷ b ∷ rest) ≡ p ∷ split_from (b ∷ b ∷ []) zero rest
unfolding split_from starts_with
split_from-pair b [] rest h = ground arith
split_from-pair b (c ∷ p) rest h = ground (arith, split_from-pair b p rest)

split_from-whole : (b : ℕ) (p : Text) → lacks b p ≡ true → split_from (b ∷ b ∷ []) zero p ≡ p ∷ []
unfolding split_from starts_with
split_from-whole b [] h = refl
split_from-whole b (c ∷ p) h = ground (arith, split_from-whole b p)

-- Pieces that lack the character come back, one at least.
pub split_pair-join :
    (b : ℕ) (p : Text) (ps : List Text)
    → all (lacks b) (p ∷ ps) ≡ true
    → split (b ∷ b ∷ []) (join (b ∷ b ∷ []) (p ∷ ps)) ≡ p ∷ ps
unfolding split join
split_pair-join b p [] h = split_from-whole b p (ground arith)
split_pair-join b p (q ∷ ps) h =
    split_from-pair b p (join (b ∷ b ∷ []) (q ∷ ps)) (ground arith)
    ∙ ap (◌∷◌ p) (split_pair-join b q ps (ground arith))
