-- ===== src/Accept/Tests.antt =====
-- accept.py: a proxy whose deployment of one facet is replaced by another's.
use josuke.Prelude.{
  ℕ, zero, suc, ◌≡◌, refl, true, false, Option, none, some, String, List, [], ◌∷◌, ◌++◌,
}
use josuke.Prelude.Bytes.{Bytes}
use josuke.Prelude.Eq.{bytes_eq, string_eq}
use josuke.Prelude.Sort.{sort_by}
use josuke.Prelude.Dict.{Dict, has, get, put, update, other_keys}
use josuke.Storage.{zeros, slot_address}
use josuke.Deployment.{FacetRecord, State, Owners, Selector, selector_owners}
use josuke.Deployment.Reuses.{Registered, Sound, existing_deployment-Sound}
use josuke.Deployment.{existing_deployment}
use josuke.Accept.{
  facet_entry, History, accept, recorded_delegates, Label, current_facet, proposed_facet,
  archived_facet, verify_migrated,
}
use josuke.Accept.Recorded.{accept-recorded}
use josuke.Accept.Migrated.{Live, verify_migrated-Live}

abbrev filled : ℕ → ℕ → Bytes
filled zero b = []
filled (suc n) b = b ∷ filled n b

abbrev facet_at : Bytes → FacetRecord
facet_at address = record {
  address = some address;
  initcode_hash = some (1 ∷ []);
  code_hash = some (2 ∷ []);
  sender = none;
  nonce = none;
  constructor_args = none;
  block = none;
}

abbrev old : Bytes
old = filled 20 0xaa

abbrev new : Bytes
new = filled 20 0xbb

abbrev installed : State
installed = record {
  git_commit = "c0";
  facets = ("Pool", facet_at old) ∷ [];
  selectors = none;
  migration = none;
}

abbrev staged : State
staged = record {
  git_commit = "c1";
  facets = ("Vault", facet_at new) ∷ [];
  selectors = none;
  migration = some (filled 20 9);
}

abbrev before : History
before = record { current = some installed; proposed = some staged; history = [] }

abbrev after : History
after = record {
  current = some staged;
  proposed = none;
  history = (old, facet_entry "Pool" "c0" (record (facet_at old) { address = none })) ∷ [];
}

abbrev recorded_before : Dict Bytes Label
recorded_before = (new, proposed_facet "Vault") ∷ (old, current_facet "Pool") ∷ []

abbrev recorded_after : Dict Bytes Label
recorded_after = (old, archived_facet "Pool") ∷ (new, current_facet "Vault") ∷ []

accept_test : accept staged before ≡ some after
unfolding accept update put
accept_test = refl

recorded_before_test : recorded_delegates before ≡ some recorded_before
unfolding recorded_delegates update put
recorded_before_test = refl

recorded_after_test : recorded_delegates after ≡ some recorded_after
unfolding recorded_delegates update put
recorded_after_test = refl

accept-recorded_example : has old recorded_after ≡ true
accept-recorded_example =
    accept-recorded old staged before after recorded_before recorded_after refl accept_test
      recorded_before_test recorded_after_test refl

-- The selectors that each facet's source exposes.
abbrev exposes : String → Option (List Selector)
exposes source_id = some (record { selector = 1 ∷ 2 ∷ 3 ∷ 4 ∷ []; signature = "deposit()" } ∷ [])

abbrev old_owners : Owners
old_owners = (5 ∷ 6 ∷ 7 ∷ 8 ∷ [], ("Pool", some old)) ∷ []

abbrev new_owners : Owners
new_owners = (1 ∷ 2 ∷ 3 ∷ 4 ∷ [], ("Vault", some new)) ∷ []

owners_test :
    selector_owners exposes staged
    ≡ some (new_owners, record { selector = 1 ∷ 2 ∷ 3 ∷ 4 ∷ []; signature = "deposit()" } ∷ [])
unfolding selector_owners put
owners_test = refl

-- The slots of the proxy once the migration has run.
abbrev slots : Dict Bytes Bytes
slots = (1 ∷ 2 ∷ 3 ∷ 4 ∷ [], zeros 12 ++ new) ∷ (5 ∷ 6 ∷ 7 ∷ 8 ∷ [], zeros 32) ∷ []

migrated_test : verify_migrated slots old_owners new_owners ≡ []
unfolding verify_migrated sort_by slot_address get other_keys
migrated_test = refl

verify_migrated-Live_example : Live slots old_owners new_owners
verify_migrated-Live_example = verify_migrated-Live slots old_owners new_owners migrated_test

nothing-Registered : Registered []
unfolding get
nothing-Registered hash rec p = cc

existing_deployment-Sound_example :
    Sound (1 ∷ []) (existing_deployment "Pool" (1 ∷ []) installed.facets [] [] false)
existing_deployment-Sound_example =
    existing_deployment-Sound "Pool" (1 ∷ []) installed.facets [] [] false nothing-Registered
