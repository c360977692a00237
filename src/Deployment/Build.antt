-- ===== src/Deployment/Build.antt =====
-- deploy.py: `build_migration`, which writes the entries that take a proxy to its proposed facets.
-- The storage that was read, the installed selectors and the facets' selectors are arguments.
use josuke.Prelude.{
  Bool, true, false, not, Option, none, some, String, List, [], ◌∷◌, ◌++◌, if◌then◌else◌,
}
use josuke.Prelude.Eq.{bytes_beq, bytes_eq}
use josuke.Prelude.Sort.{sort_by}
use josuke.Prelude.Bytes.{Bytes, bytes_le}
use josuke.Prelude.Dict.{Dict, get, put, other_keys}
use josuke.Storage.{slot_address, zeros, all_zero}
use josuke.Deployment.{Selector, selectors_selector}
use josuke.Migration.{SetDelegate, migration}

pub record Facet : Type 0 where
  pub path : String
  pub contract : String

-- A selector that facets at two addresses claim, one with no storage slot, two that write one slot,
-- or a slot that was never read.
pub data BuildError : Type 0 where
  claimed_twice : Bytes → BuildError
  unresolved : Bytes → BuildError
  slot_clash : Bytes → Bytes → BuildError
  key_error : Bytes → BuildError

pub data Built (A : Type 0) : Type 0 where
  done : A → Built A
  failed : BuildError → Built A

infixl 5 ◌>>=◌
abbrev pub ◌>>=◌ : {A B : Type 0} → Built A → (A → Built B) → Built B
failed why >>= next = failed why
done value >>= next = next value

-- A facet with the address of its record, and the selectors that its source exposes.
abbrev pub Placed : Type 0
Placed = Facet × Bytes

abbrev pub Placement : Type 0
Placement = Dict Bytes Placed

abbrev pub claims_otherwise : Option Placed → Bytes → Bool
claims_otherwise none address = false
claims_otherwise (some prior) address = not (bytes_beq prior.1 address)

unfoldable pub claim_selectors : Facet → Bytes → List Selector → Placement → Built Placement
claim_selectors facet address [] owner = done owner
claim_selectors facet address (s ∷ rest) owner =
    let later = claim_selectors facet address rest (put s.selector (facet, address) owner) in
    if claims_otherwise (get s.selector owner) address
    then failed (claimed_twice s.selector)
    else later

unfoldable pub claim_facets : List (Placed × List Selector) → Placement → Built Placement
unfolding claim_selectors
claim_facets [] owner = done owner
claim_facets (((facet, address), selectors) ∷ rest) owner =
    claim_selectors facet address selectors owner >>= λ owner'. claim_facets rest owner'

-- What was read of the proxy: each selector's slot, and the word in it.
pub record Storage : Type 0 where
  pub keys : Dict Bytes Bytes
  pub values : Dict Bytes Bytes

abbrev pub routes_to : Storage → Bytes → Bytes → Bool
routes_to storage selector address = elim (slot_address (get selector storage.values)) [
  | some a ↦ bytes_beq a address
  | none ↦ false
]

abbrev pub set_delegate : Bytes → Bytes → Bytes → String → String → SetDelegate
set_delegate selector slot address path contract = record {
  selector4 = selector;
  storage_key32 = slot;
  delegate = record { address = address; source = record { path = path; name = contract } };
}

-- One entry for a selector that is not routed to its address on chain.
unfoldable pub point : Storage → Bytes → Bytes → String → String → Built (List SetDelegate)
point storage selector address path contract = elim (get selector storage.keys) [
  | none ↦ failed (unresolved selector)
  | some slot ↦
      (if routes_to storage selector address
        then done []
        else done (set_delegate selector slot address path contract ∷ []))
]

abbrev pub placed_le : Bytes × Placed → Bytes × Placed → Bool
placed_le x y = bytes_le x.0 y.0

unfoldable pub point_all : Storage → List (Bytes × Placed) → Built (List SetDelegate)
unfolding point
point_all storage [] = done []
point_all storage ((selector, (facet, address)) ∷ rest) =
    point storage selector address facet.path facet.contract >>= λ here.
    point_all storage rest >>= λ later. done (here ++ later)

unfoldable pub point_selectors : Storage → Option Bytes → Built (List SetDelegate)
unfolding point
point_selectors storage none = done []
point_selectors storage (some address) = point storage selectors_selector address "selectors()" ""

-- Whether the word read for a selector, zero where none was, is zero.
abbrev pub is_clear : Storage → Bytes → Bool
is_clear storage selector = elim (get selector storage.values) [
  | some raw ↦ all_zero raw
  | none ↦ true
]

unfoldable pub clear : Storage → Bytes → Built (List SetDelegate)
clear storage selector =
    if is_clear storage selector then done [] else (elim (get selector storage.keys) [
      | some slot ↦ done (set_delegate selector slot (zeros 20) "" "" ∷ [])
      | none ↦ failed (key_error selector)
    ])

unfoldable pub clear_all : Storage → List Bytes → Built (List SetDelegate)
unfolding clear
clear_all storage [] = done []
clear_all storage (selector ∷ rest) =
    clear storage selector >>= λ here. clear_all storage rest >>= λ later. done (here ++ later)

-- The installed selectors that nothing proposed serves.
abbrev pub kept : Option Bytes → Bytes → Bool
kept none selector = false
kept (some address) selector = bytes_beq selector selectors_selector

unfoldable pub without_kept : Option Bytes → List Bytes → List Bytes
without_kept impl [] = []
without_kept impl (s ∷ rest) =
    let later = without_kept impl rest in if kept impl s then later else s ∷ later

-- `by_slot`, the slots that the entries so far write.
unfoldable pub check_slots : List SetDelegate → Dict Bytes Bytes → Built (List SetDelegate)
check_slots [] by_slot = done []
check_slots (sd ∷ rest) by_slot =
    let later =
      check_slots rest (put sd.storage_key32 sd.selector4 by_slot) >>= λ sds. done (sd ∷ sds) in
    elim (get sd.storage_key32 by_slot) [
      | some clash ↦ failed (slot_clash clash sd.selector4)
      | none ↦ later
    ]

abbrev pub unless_empty : List SetDelegate → Option (List SetDelegate)
unless_empty [] = none
unless_empty (sd ∷ sds) = some (migration (sd ∷ sds))

unfoldable pub build_migration :
    List (Placed × List Selector)
    → Dict Bytes Selector
    → Option Bytes
    → Storage
    → Built (Option (List SetDelegate))
unfolding claim_facets point_all point_selectors clear_all without_kept check_slots
build_migration facets installed impl storage = claim_facets facets [] >>= λ owner.
    point_all storage (sort_by placed_le owner) >>= λ pointed.
    point_selectors storage impl >>= λ own.
    clear_all storage (sort_by bytes_le (without_kept impl (other_keys installed owner)))
    >>= λ cleared. check_slots (pointed ++ (own ++ cleared)) [] >>= λ sds. done (unless_empty sds)
