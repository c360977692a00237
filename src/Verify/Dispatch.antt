-- ===== src/Verify/Dispatch.antt =====
-- verify.py: `verify_dispatch`, the routes of the live proxy against the recorded owners.
use josuke.Prelude.{
  ◌≡◌, refl, ◌↔◌, Bool, Option, none, some, String, List, [], ◌∷◌, In, concat_map,
  concat_map-eq-nil,
}
use josuke.Prelude.Eq.{bytes_eq}
use josuke.Prelude.Sort.{sort_by, In-sort_by, In-sort_by_cases}
use josuke.Prelude.Bytes.{Bytes, bytes_le}
use josuke.Prelude.Dict.{Dict, get}
use josuke.Storage.{slot_address}
use josuke.Deployment.{Owners}
use josuke.Verify.{Failure, dispatch_unrecorded, dispatch_differs, unless, option_beq}
use josuke.Verify.Facets.{option_beq_iff, unless-eq-nil}

abbrev pub Owner : Type 0
Owner = Bytes × (String × Option Bytes)

-- `sorted(owners.items())`, whose keys differ.
abbrev pub owner_le : Owner → Owner → Bool
owner_le x y = bytes_le x.0 y.0

-- The address that the slot of a selector holds.
abbrev pub routed : Dict Bytes Bytes → Bytes → Option Bytes
routed storage_values selector = slot_address (get selector storage_values)

unfoldable pub verify_route : Dict Bytes Bytes → Owner → List Failure
verify_route storage_values (selector, (source_id, none)) = elim (routed storage_values selector) [
  | some address ↦ dispatch_unrecorded selector source_id address ∷ []
  | none ↦ []
]
verify_route storage_values (selector, (source_id, some address)) =
    unless (option_beq (routed storage_values selector) (some address))
      (dispatch_differs selector source_id (routed storage_values selector) address)

unfoldable pub verify_dispatch : Dict Bytes Bytes → Owners → List Failure
unfolding verify_route
verify_dispatch storage_values owners =
    concat_map (verify_route storage_values) (sort_by owner_le owners)

verify_route_iff :
    (storage_values : Dict Bytes Bytes) (selector : Bytes) (source_id : String)
    (address : Option Bytes)
    → (verify_route storage_values (selector, (source_id, address)) ≡ [])
      ↔ (routed storage_values selector ≡ address)
unfolding verify_route
verify_route_iff values selector source_id none =
    (to (routed values selector), from (routed values selector))
  where
    to :
        (o : Option Bytes)
        → (elim o as (λ _. List Failure) [
          | some a ↦ dispatch_unrecorded selector source_id a ∷ []
          | none ↦ []
        ])
          ≡ []
        → o ≡ none
    to none h = refl
    to (some a) h = cc

    from :
        (o : Option Bytes)
        → o ≡ none
        → (elim o as (λ _. List Failure) [
          | some a ↦ dispatch_unrecorded selector source_id a ∷ []
          | none ↦ []
        ])
          ≡ []
    from none h = refl
    from (some a) h = cc
verify_route_iff values selector source_id (some address) =
    let test = option_beq (routed values selector) (some address) in
    let report = dispatch_differs selector source_id (routed values selector) address in
    (
      λ h.
          (option_beq_iff (routed values selector) (some address)).0
            ((unless-eq-nil test report).0 h),
      λ h.
          (unless-eq-nil test report).1
            ((option_beq_iff (routed values selector) (some address)).1 h),
    )

-- The check of the live routes reports nothing exactly when the proxy routes every owned selector to
-- its recorded address, and none whose facet has no recorded address.
pub verify_dispatch_iff :
    (storage_values : Dict Bytes Bytes) (owners : Owners)
    → (verify_dispatch storage_values owners ≡ []) ↔ (
        (selector : Bytes) (source_id : String) (address : Option Bytes)
        → In (selector, (source_id, address)) owners
        → routed storage_values selector ≡ address)
unfolding verify_dispatch
verify_dispatch_iff values owners =
    let each = concat_map-eq-nil (verify_route values) (sort_by owner_le owners) in
    (
      λ h selector source_id address m.
          (verify_route_iff values selector source_id address).0
            (each.0 h (selector, (source_id, address)) (In-sort_by owner_le _ owners m)),
      λ h. each.1 (λ o m.
          (verify_route_iff values o.0 o.1.0 o.1.1).1
            (h o.0 o.1.0 o.1.1 (In-sort_by_cases owner_le o owners m))),
    )
