-- ===== src/Verify/Tests.antt =====
-- verify.py: the checks of a deployment of one facet, on a chain that holds what was recorded.
use josuke.Prelude.{
  ◌≡◌, ◌↔◌, ◌∙◌, refl, sym, subst, inl, inr, Option, none, some, String, List, [], ◌∷◌, ◌++◌, In,
  All,
}
use josuke.Prelude.Bytes.{Bytes, bytes_le}
use josuke.Prelude.Eq.{bytes_eq}
use josuke.Prelude.Dict.{Dict, get, put, some_injective, other_keys}
use josuke.Storage.{zeros}
use josuke.Deployment.{FacetRecord, Owners}
use josuke.Migration.{Delegate, SourceMap, SetDelegate, Decoded, ok, migration, encode, key_le}
use josuke.Migration.RoundTrip.{IsEncodable, decode-encode, decode-encode_sorted}
use josuke.Prelude.Sort.{sort_by, In-sort_by_cases}
use josuke.Verify.{World, create_address, verify_facets}
use josuke.Verify.Facets.{AllGenuine, verify_facets_iff}
use josuke.Verify.Dispatch.{routed, verify_dispatch, verify_dispatch_iff}
use josuke.Verify.Entries.{OneEach, by_selector}
use josuke.Verify.Script.{
  compare_scripts, compare_entry, verify_migration, Installs, verify_migration-Installs,
  verify_migration-encode,
}

-- A hash that keeps its text, which tells any two texts apart.
abbrev world : World
world = record {
  keccak = λ code. code;
  initcode = λ source_id args. 0x60 ∷ 0x01 ∷ [];
  runtime = λ initcode rec. some (0x01 ∷ []);
  code_at = λ address. 0x01 ∷ [];
}

abbrev sender : Bytes
sender = zeros 20

abbrev facet : FacetRecord
facet = record {
  address = some (create_address world.keccak sender 3);
  initcode_hash = some (0x60 ∷ 0x01 ∷ []);
  code_hash = some (0x01 ∷ []);
  sender = some sender;
  nonce = some 3;
  constructor_args = none;
  block = none;
}

verify_facets_iff_example :
    (verify_facets world (("Pool", facet) ∷ []) ≡ []) ↔ AllGenuine world (("Pool", facet) ∷ [])
verify_facets_iff_example = verify_facets_iff world (("Pool", facet) ∷ [])

facets_test : verify_facets world (("Pool", facet) ∷ []) ≡ []
unfolding verify_facets create_address
facets_test = refl

abbrev pool_address : Bytes
pool_address = 1 ∷ 1 ∷ 1 ∷ 1 ∷ 1 ∷ 1 ∷ 1 ∷ 1 ∷ 1 ∷ 1 ∷ 1 ∷ 1 ∷ 1 ∷ 1 ∷ 1 ∷ 1 ∷ 1 ∷ 1 ∷ 1 ∷ 1 ∷ []

abbrev owners : Owners
owners = (1 ∷ 2 ∷ 3 ∷ 4 ∷ [], ("Pool", some pool_address)) ∷ []

abbrev slots : Dict Bytes Bytes
slots = (1 ∷ 2 ∷ 3 ∷ 4 ∷ [], zeros 12 ++ pool_address) ∷ []

verify_dispatch_iff_example : (verify_dispatch slots owners ≡ []) ↔ (
    (selector : Bytes) (source_id : String) (address : Option Bytes)
    → In (selector, (source_id, address)) owners
    → routed slots selector ≡ address)
verify_dispatch_iff_example = verify_dispatch_iff slots owners

abbrev pool : Delegate
pool = record { address = pool_address; source = record { path = "src/Pool.sol"; name = "Pool" } }

abbrev registry : SourceMap
registry = (pool_address, pool) ∷ []

abbrev upgrade : List SetDelegate
upgrade = record { selector4 = 1 ∷ 2 ∷ 3 ∷ 4 ∷ []; storage_key32 = zeros 32; delegate = pool } ∷ []

upgrade-IsEncodable : All (IsEncodable registry) upgrade
unfolding get
upgrade-IsEncodable =
    (record { selector = refl; storage_key = refl; address = refl; registered = refl }, tt)

verify_migration-encode_example :
    verify_migration registry (some (migration upgrade)) (encode (migration upgrade)) ≡ ok []
verify_migration-encode_example = verify_migration-encode registry upgrade upgrade-IsEncodable

upgrade-OneEach : OneEach (migration upgrade)
unfolding migration
upgrade-OneEach x y m n e = elim (In-sort_by_cases key_le x upgrade m) [
  | inl p ↦ elim (In-sort_by_cases key_le y upgrade n) [ inl q ↦ p ∙ sym q | inr q ↦ absurd q ]
  | inr p ↦ absurd p
]

ok_injective : {x y : List SetDelegate} → Decoded.ok x ≡ ok y → x ≡ y
ok_injective h = cc

verify_migration-Installs_example :
    Installs registry (some (migration upgrade)) (encode (migration upgrade))
verify_migration-Installs_example =
    verify_migration-Installs registry (some (migration upgrade)) (encode (migration upgrade))
      (λ want e. subst OneEach (some_injective e) upgrade-OneEach)
      (λ got e.
        subst OneEach (ok_injective (sym (decode-encode registry upgrade upgrade-IsEncodable) ∙ e))
          upgrade-OneEach)
      (verify_migration-encode registry upgrade upgrade-IsEncodable)

abbrev other_pool : Delegate
other_pool = record {
  address = zeros 19 ++ 9 ∷ [];
  source = record { path = "src/Other.sol"; name = "Other" };
}

-- The upgrade, and then another address for its selector, in its slot.
abbrev repeated : List SetDelegate
repeated =
    record { selector4 = 1 ∷ 2 ∷ 3 ∷ 4 ∷ []; storage_key32 = zeros 32; delegate = pool }
    ∷ record { selector4 = 1 ∷ 2 ∷ 3 ∷ 4 ∷ []; storage_key32 = zeros 32; delegate = other_pool }
    ∷ []

abbrev two_pools : SourceMap
two_pools = (pool_address, pool) ∷ (other_pool.address, other_pool) ∷ []

two_pools-IsEncodable : All (IsEncodable two_pools) repeated
unfolding get
two_pools-IsEncodable = (
  record { selector = refl; storage_key = refl; address = refl; registered = refl },
  (record { selector = refl; storage_key = refl; address = refl; registered = refl }, tt),
)

-- The script writes the other address last, and passes: of the entries for the selector the dict has
-- that of the greatest address.
verify_migration-repeated : verify_migration two_pools (some upgrade) (encode repeated) ≡ ok []
unfolding verify_migration compare_scripts compare_entry by_selector migration key_le put get
    sort_by other_keys bytes_le
verify_migration-repeated =
    rw (verify_migration, decode-encode_sorted two_pools repeated two_pools-IsEncodable) refl
