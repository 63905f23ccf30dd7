-- ===== src/World/Prices.antt =====
-- The calls that create and delete pods, and prices that count them.
use azure_pipelines_k8s_agen.Prelude.{ℕ, Bool, true, false, ◌≡◌, refl}
use azure_pipelines_k8s_agen.World.{Call}

-- A creation of a pod counts one.
abbrev pub creation : Call → ℕ
creation (Call.create_pod pod) = 1
creation _ = 0

-- A deletion of a pod counts one.
abbrev pub deletion : Call → ℕ
deletion (Call.delete_pod pod) = 1
deletion _ = 0

-- The call neither creates nor deletes a pod.
abbrev pub is_plain : Call → Bool
is_plain (Call.create_pod pod) = false
is_plain (Call.delete_pod pod) = false
is_plain _ = true

pub plain_creates_none : (c : Call) → is_plain c ≡ true → creation c ≡ 0
plain_creates_none (Call.create_pod pod) e = absurd cc
plain_creates_none _ e = refl

pub plain_deletes_none : (c : Call) → is_plain c ≡ true → deletion c ≡ 0
plain_deletes_none (Call.delete_pod pod) e = absurd cc
plain_deletes_none _ e = refl
