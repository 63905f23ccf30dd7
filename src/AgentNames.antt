-- ===== src/AgentNames.antt =====
-- internal/service/utils.go: `ComputeMapHash` and the names of dummy agents.
pub mod Hashing
use azure_pipelines_k8s_agen.Prelude.{
  ℕ, zero, suc, ◌+◌, ◌-◌, ◌*◌, ◌/◌, ◌%◌, ◌^◌, Bool, true, false, List, [], ◌∷◌, ◌++◌, ltb,
  if◌then◌else◌,
}
use Prim.Native.Nat.{bit_xor}
use azure_pipelines_k8s_agen.Text.{Text, codes}
use azure_pipelines_k8s_agen.Text.Sort.{sort}
use azure_pipelines_k8s_agen.GoMap.{GoMap, keys, get_or}

abbrev pub dummy_agent_name_prefix : Text
dummy_agent_name_prefix = codes "dummy-agent"

-- The bytes of a code point in UTF-8.
utf8 : ℕ → List ℕ
utf8 c =
    if ltb c 0x80
    then c ∷ []
    else if ltb c 0x800
    then (0xC0 + c / 0x40) ∷ (0x80 + c % 0x40) ∷ []
    else if ltb c 0x10000
    then (0xE0 + c / 0x1000) ∷ (0x80 + c / 0x40 % 0x40) ∷ (0x80 + c % 0x40) ∷ []
    else (0xF0 + c / 0x40000)
      ∷ (0x80 + c / 0x1000 % 0x40)
      ∷ (0x80 + c / 0x40 % 0x40)
      ∷ (0x80 + c % 0x40)
      ∷ []

-- 64-bit FNV-1a
fnv_byte : ℕ → ℕ → ℕ
fnv_byte h b = bit_xor h b * 1099511628211 % 2 ^ 64

fnv_bytes : ℕ → List ℕ → ℕ
unfolding fnv_byte
fnv_bytes h [] = h
fnv_bytes h (b ∷ bs) = fnv_bytes (fnv_byte h b) bs

-- `hash.Write([]byte(s))`
unfoldable pub write_text : ℕ → Text → ℕ
unfolding fnv_bytes utf8
write_text h [] = h
write_text h (c ∷ s) = write_text (fnv_bytes h (utf8 c)) s

unfoldable pub write_entries : GoMap Text → ℕ → List Text → ℕ
unfolding write_text
write_entries m h [] = h
write_entries m h (k ∷ ks) = write_entries m (write_text (write_text h k) (get_or m k [])) ks

abbrev pub fnv_offset : ℕ
fnv_offset = 14695981039346656037

hex_digit : ℕ → ℕ
hex_digit d = if ltb d 10 then b'0' + d else b'a' + (d - 10)

-- The lowest digits of a number in base 16, the highest of them first.
hex_digits : ℕ → ℕ → Text
unfolding hex_digit
hex_digits zero n = []
hex_digits (suc k) n = hex_digits k (n / 16) ++ hex_digit (n % 16) ∷ []

-- `%010x` of the eight bytes of the hash: two digits for each byte.
unfoldable pub compute_map_hash : GoMap Text → Text
unfolding write_entries hex_digits
compute_map_hash capabilities =
    hex_digits 16 (write_entries capabilities fnv_offset (sort (keys capabilities)))

unfoldable pub get_dummy_agent_name : GoMap Text → Text
get_dummy_agent_name [] = dummy_agent_name_prefix
get_dummy_agent_name (e ∷ m) = dummy_agent_name_prefix ++ (codes "-" ++ compute_map_hash (e ∷ m))
