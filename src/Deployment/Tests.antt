-- ===== src/Deployment/Tests.antt =====
-- deploy.py: a migration that points one selector of a facet and clears one that nothing serves.
use josuke.Prelude.{◌≡◌, refl, none, some, List, [], ◌∷◌, ◌++◌}
use josuke.Prelude.Bytes.{Bytes, bytes_le}
use josuke.Prelude.Eq.{bytes_eq}
use josuke.Prelude.Sort.{sort_by}
use josuke.Prelude.Dict.{Dict, get, put, other_keys}
use josuke.Storage.{zeros, slot_address}
use josuke.Deployment.{Selector}
use josuke.Migration.{SetDelegate, migration, key_le}
use josuke.Deployment.Build.{Facet, done, Placed, Storage, set_delegate, build_migration}
use josuke.Deployment.Built.{Migrates, entries, build_migration-Migrates}

abbrev vault : Facet
vault = record { path = "src/Vault.sol"; contract = "Vault" }

abbrev vault_address : Bytes
vault_address = 1 ∷ 1 ∷ 1 ∷ 1 ∷ 1 ∷ 1 ∷ 1 ∷ 1 ∷ 1 ∷ 1 ∷ 1 ∷ 1 ∷ 1 ∷ 1 ∷ 1 ∷ 1 ∷ 1 ∷ 1 ∷ 1 ∷ 1 ∷ []

abbrev deposit : Selector
deposit = record { selector = 1 ∷ 2 ∷ 3 ∷ 4 ∷ []; signature = "deposit()" }

abbrev sweep : Selector
sweep = record { selector = 5 ∷ 6 ∷ 7 ∷ 8 ∷ []; signature = "sweep()" }

abbrev proposed : List (Placed × List Selector)
proposed = ((vault, vault_address), deposit ∷ []) ∷ []

abbrev installed : Dict Bytes Selector
installed = (sweep.selector, sweep) ∷ []

abbrev storage : Storage
storage = record {
  keys = (deposit.selector, 1 ∷ []) ∷ (sweep.selector, 2 ∷ []) ∷ [];
  values = (deposit.selector, zeros 32) ∷ (sweep.selector, zeros 12 ++ vault_address) ∷ [];
}

abbrev built : List SetDelegate
built =
    set_delegate sweep.selector (2 ∷ []) (zeros 20) "" ""
    ∷ set_delegate deposit.selector (1 ∷ []) vault_address "src/Vault.sol" "Vault"
    ∷ []

built_test : build_migration proposed installed none storage ≡ done (some built)
unfolding build_migration get put sort_by bytes_le slot_address other_keys migration key_le
built_test = refl

build_migration-Migrates_example : Migrates proposed storage installed none (entries (some built))
build_migration-Migrates_example =
    build_migration-Migrates proposed installed none storage (some built) built_test
