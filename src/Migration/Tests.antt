-- ===== src/Migration/Tests.antt =====
-- migration.py: a migration of two delegates, written and read back.
use josuke.Prelude.{ℕ, zero, suc, ◌≡◌, ◌≢◌, refl, List, [], ◌∷◌, ◌++◌, arith, All}
use josuke.Prelude.Bytes.{Bytes}
use josuke.Prelude.Dict.{get, put}
use josuke.Migration.{
  ContractSource, Delegate, SourceMap, SetDelegate, ok, stuck, not_an_address, migration, encode,
  decode, new_delegate,
}
use josuke.Migration.RoundTrip.{IsEncodable, decode-encode}
use josuke.Migration.Total.{decode-ne-stuck, decode-truncated}

abbrev filled : ℕ → ℕ → Bytes
filled zero b = []
filled (suc n) b = b ∷ filled n b

abbrev pool_source : ContractSource
pool_source = record { path = "src/Pool.sol"; name = "Pool" }

abbrev vault_source : ContractSource
vault_source = record { path = "src/Vault.sol"; name = "Vault" }

abbrev pool : Delegate
pool = record { address = filled 20 0xbb; source = pool_source }

abbrev vault : Delegate
vault = record { address = filled 20 0xaa; source = vault_source }

abbrev registry : SourceMap
registry = (filled 20 0xbb, pool) ∷ (filled 20 0xaa, vault) ∷ []

abbrev installs : Bytes → Bytes → Delegate → SetDelegate
installs selector slot d = record { selector4 = selector; storage_key32 = slot; delegate = d }

abbrev upgrade : List SetDelegate
upgrade =
    installs (9 ∷ 8 ∷ 7 ∷ 6 ∷ []) (filled 32 1) pool
    ∷ installs (1 ∷ 2 ∷ 3 ∷ 4 ∷ []) (filled 32 2) vault
    ∷ installs (0 ∷ 2 ∷ 3 ∷ 4 ∷ []) (filled 32 3) pool
    ∷ []

registered_test :
    (new_delegate (filled 20 0xaa) vault_source ((filled 20 0xbb, pool) ∷ [])).1 ≡ registry
unfolding new_delegate put
registered_test = refl

upgrade-IsEncodable : All (IsEncodable registry) upgrade
unfolding get
upgrade-IsEncodable = (
  record { selector = refl; storage_key = refl; address = refl; registered = refl },
  (
    record { selector = refl; storage_key = refl; address = refl; registered = refl },
    (record { selector = refl; storage_key = refl; address = refl; registered = refl }, tt),
  ),
)

decode-encode_example : decode registry (encode (migration upgrade)) ≡ ok (migration upgrade)
decode-encode_example = decode-encode registry upgrade upgrade-IsEncodable

decode-ne-stuck_example : decode registry (encode (migration upgrade)) ≢ stuck
decode-ne-stuck_example = decode-ne-stuck registry (encode (migration upgrade))

decode-truncated_example :
    decode registry (encode upgrade ++ (0x73 ∷ filled 7 0xaa)) ≡ not_an_address
decode-truncated_example =
    decode-truncated registry upgrade (filled 7 0xaa) upgrade-IsEncodable (omega arith)
