-- ===== src/Accept/Migrated.antt =====
-- accept.py: what `verify_migrated` establishes of the live proxy when it rejects nothing.
use josuke.Prelude.{
  ◌≡◌, refl, false, Option, none, some, String, List, [], ◌∷◌, ◌++◌, In, concat_map,
  concat_map-eq-nil, if_cases, inl, inr,
}
use josuke.Prelude.Eq.{bytes_eq}
use josuke.Prelude.Sort.{sort_by, In-sort_by}
use josuke.Prelude.Bytes.{Bytes, bytes_le}
use josuke.Prelude.Dict.{Dict, get, has, other_keys, In-other_keys}
use josuke.Deployment.{Owners}
use josuke.Verify.{option_beq}
use josuke.Verify.Facets.{option_beq_iff}
use josuke.Verify.Dispatch.{routed, owner_le}
use josuke.Accept.{
  Rejection, still_routed, check_proposed, check_removed, owner_name, verify_migrated,
}

-- The proxy routes what the proposed deployment owns to its recorded addresses, and nothing of what it
-- drops.
pub record Live (values : Dict Bytes Bytes) (current proposed : Owners) : Type 0 where
  pub installed :
      (selector : Bytes) (source_id : String) (address : Option Bytes)
      → In (selector, (source_id, address)) proposed
      → (a : Bytes) × (address ≡ some a) × (routed values selector ≡ some a)
  pub cleared :
      (selector : Bytes) (owner : String × Option Bytes)
      → get selector current ≡ some owner
      → has selector proposed ≡ false
      → routed values selector ≡ none

append-eq-nil : (xs ys : List Rejection) → xs ++ ys ≡ [] → (xs ≡ []) × (ys ≡ [])
append-eq-nil [] ys h = (refl, h)
append-eq-nil (x ∷ xs) ys h = cc

check_proposed-eq-nil :
    (values : Dict Bytes Bytes) (selector : Bytes) (source_id : String) (address : Option Bytes)
    → check_proposed values (selector, (source_id, address)) ≡ []
    → (a : Bytes) × (address ≡ some a) × (routed values selector ≡ some a)
unfolding check_proposed
check_proposed-eq-nil values selector source_id none h = cc
check_proposed-eq-nil values selector source_id (some a) h =
    elim (if_cases (option_beq (routed values selector) (some a)) [] _ h) [
      | inl (e, _) ↦ (a, refl, (option_beq_iff (routed values selector) (some a)).0 e)
      | inr (_, p) ↦ cc
    ]

check_removed-eq-nil :
    (values : Dict Bytes Bytes) (current : Owners) (selector : Bytes)
    → check_removed values current selector ≡ []
    → routed values selector ≡ none
unfolding check_removed
check_removed-eq-nil values current selector h = go (routed values selector) h
  where
    go :
        (o : Option Bytes)
        → (elim o as (λ _. List Rejection) [
          | some address ↦ still_routed selector (owner_name current selector) address ∷ []
          | none ↦ []
        ])
          ≡ []
        → o ≡ none
    go none e = refl
    go (some address) e = cc

-- Where the check of a live proxy rejects nothing, every selector that a proposed facet owns is routed
-- to that facet's recorded address, and every selector that only the current deployment owns is routed
-- nowhere.
pub verify_migrated-Live :
    (values : Dict Bytes Bytes) (current proposed : Owners)
    → verify_migrated values current proposed ≡ []
    → Live values current proposed
unfolding verify_migrated
verify_migrated-Live values current proposed h =
    let (here, there) =
      append-eq-nil (concat_map (check_proposed values) (sort_by owner_le proposed)) _ h in
    record {
      installed = λ selector source_id address m.
          check_proposed-eq-nil values selector source_id address (
            (concat_map-eq-nil (check_proposed values) (sort_by owner_le proposed)).0 here
              (selector, (source_id, address)) (In-sort_by owner_le _ proposed m));
      cleared = λ selector owner p n. check_removed-eq-nil values current selector (
          (concat_map-eq-nil (check_removed values current)
              (sort_by bytes_le (other_keys current proposed))).0
            there selector
            (In-sort_by bytes_le selector (other_keys current proposed)
              (In-other_keys selector owner current proposed p n)));
    }
