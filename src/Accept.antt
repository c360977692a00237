-- ===== src/Accept.antt =====
-- src/josuke/accept.py: `accept`, which checks that a proposed deployment is live and makes it the current
-- one, and src/josuke/audit.py's reading of what the ledger records.
pub mod Recorded
pub mod Migrated
mod Tests
use josuke.Prelude.{
  ◌≡◌, Bool, true, false, Option, none, some, String, List, [], ◌∷◌, ◌++◌, concat_map,
  if◌then◌else◌,
}
use josuke.Prelude.Eq.{bytes_beq, bytes_eq, string_eq, string_le}
use josuke.Prelude.Sort.{sort_by}
use josuke.Prelude.Bytes.{Bytes, bytes_le}
use josuke.Prelude.Dict.{Dict, get, put, has, update, keys, other_keys}
use josuke.Deployment.{FacetRecord, SelectorsRecord, State, Owners}
use josuke.Verify.{truthy, option_beq}
use josuke.Verify.Dispatch.{routed, owner_le, Owner}

pub data Rejection : Type 0 where
  no_recorded_address : Bytes → String → Rejection
  routes_elsewhere : Bytes → String → Option Bytes → Bytes → Rejection
  still_routed : Bytes → String → Bytes → Rejection

unfoldable pub check_proposed : Dict Bytes Bytes → Owner → List Rejection
check_proposed storage_values (selector, (source_id, none)) =
    no_recorded_address selector source_id ∷ []
check_proposed storage_values (selector, (source_id, some address)) =
    if option_beq (routed storage_values selector) (some address)
    then []
    else routes_elsewhere selector source_id (routed storage_values selector) address ∷ []

abbrev pub owner_name : Owners → Bytes → String
owner_name owners selector = elim (get selector owners) [ some o ↦ o.0 | none ↦ "" ]

unfoldable pub check_removed : Dict Bytes Bytes → Owners → Bytes → List Rejection
check_removed storage_values current_owners selector = elim (routed storage_values selector) [
  | some address ↦ still_routed selector (owner_name current_owners selector) address ∷ []
  | none ↦ []
]

-- The owners of `current` are none where nothing is current.
unfoldable pub verify_migrated : Dict Bytes Bytes → Owners → Owners → List Rejection
unfolding check_proposed check_removed
verify_migrated storage_values current_owners proposed_owners =
    concat_map (check_proposed storage_values) (sort_by owner_le proposed_owners)
    ++ concat_map (check_removed storage_values current_owners)
        (sort_by bytes_le (other_keys current_owners proposed_owners))

unfoldable pub accepted_state : State → State
accepted_state proposed = record {
  git_commit = proposed.git_commit;
  facets = proposed.facets;
  selectors = proposed.selectors;
  migration = proposed.migration;
}

-- A `history` entry: a facet's record without its address, or the facet set of a `selectors()` delegate.
pub data HistoryEntry : Type 0 where
  facet_entry : String → String → FacetRecord → HistoryEntry
  selectors_entry : String → List String → HistoryEntry

unfoldable pub facet_entries :
    String → Dict String FacetRecord → Dict Bytes HistoryEntry → Dict Bytes HistoryEntry
facet_entries git_commit [] entries = entries
facet_entries git_commit ((source_id, rec) ∷ facets) entries =
    facet_entries git_commit facets (elim (truthy rec.address) [
      | some address ↦
          put address (facet_entry source_id git_commit (record rec { address = none })) entries
      | none ↦ entries
    ])

abbrev pub selectors_address : Option SelectorsRecord → Option (Option Bytes)
selectors_address none = none
selectors_address (some impl) = some impl.address

-- `none` is the KeyError of a recorded `selectors()` delegate that has no address.
unfoldable pub history_entries : State → Option (Dict Bytes HistoryEntry)
unfolding facet_entries
history_entries state =
    let facets = facet_entries state.git_commit state.facets [] in
    elim (selectors_address state.selectors) [
      | none ↦ some facets
      | some none ↦ none
      | some (some address) ↦ some (
          put address (selectors_entry state.git_commit (sort_by string_le (keys state.facets)))
            facets)
    ]

unfoldable pub dropped : Dict Bytes HistoryEntry → Dict Bytes HistoryEntry → Dict Bytes HistoryEntry
dropped [] kept = []
dropped ((address, entry) ∷ entries) kept =
    let rest = dropped entries kept in if has address kept then rest else (address, entry) ∷ rest

infixl 5 ◌>>=◌
abbrev pub ◌>>=◌ : {A B : Type 0} → Option A → (A → Option B) → Option B
none >>= next = none
some value >>= next = next value

-- The entries of `current` whose address `accepted` does not install.
unfoldable pub retired_entries : Option State → State → Option (Dict Bytes HistoryEntry)
unfolding history_entries dropped
retired_entries none accepted = some []
retired_entries (some current) accepted = do
  kept ← history_entries accepted
  entries ← history_entries current
  some (dropped entries kept)

-- A proxy's entry in the ledger, for one chain.
pub record History : Type 0 where
  pub current : Option State
  pub proposed : Option State
  pub history : Dict Bytes HistoryEntry

-- The ledger's change for a proxy whose proposed deployment is live.
unfoldable pub accept : State → History → Option History
unfolding accepted_state retired_entries
accept proposed h = do
  let accepted = accepted_state proposed
  retired ← retired_entries h.current accepted
  some (record { current = some accepted; proposed = none; history = update h.history retired })

-- Where a delegate is recorded, as the audit's reports name it.
pub data Label : Type 0 where
  proposed_facet : String → Label
  proposed_selectors : Label
  archived_facet : String → Label
  archived_selectors : Label
  current_facet : String → Label
  current_selectors : Label

unfoldable pub facet_delegates :
    (String → Label) → Dict String FacetRecord → Dict Bytes Label → Dict Bytes Label
facet_delegates label [] delegates = delegates
facet_delegates label ((source_id, rec) ∷ facets) delegates =
    facet_delegates label facets (elim (truthy rec.address) [
      | some address ↦ put address (label source_id) delegates
      | none ↦ delegates
    ])

-- `_state_delegates`; `none` is a KeyError.
unfoldable pub state_delegates : (String → Label) → Label → Option State → Option (Dict Bytes Label)
unfolding facet_delegates
state_delegates label selectors_label none = some []
state_delegates label selectors_label (some state) =
    let facets = facet_delegates label state.facets [] in
    elim (selectors_address state.selectors) [
      | none ↦ some facets
      | some none ↦ none
      | some (some address) ↦ some (put address selectors_label facets)
    ]

abbrev pub entry_label : HistoryEntry → Label
entry_label (facet_entry source_id git_commit rec) = archived_facet source_id
entry_label (selectors_entry git_commit names) = archived_selectors

unfoldable pub archived : Dict Bytes HistoryEntry → Dict Bytes Label → Dict Bytes Label
archived [] delegates = delegates
archived ((address, entry) ∷ history) delegates =
    archived history (put address (entry_label entry) delegates)

-- `current` is preferred to `history`, and `history` to `proposed`.
unfoldable pub recorded_delegates : History → Option (Dict Bytes Label)
unfolding state_delegates archived
recorded_delegates h = do
  proposed ← state_delegates proposed_facet proposed_selectors h.proposed
  current ← state_delegates current_facet current_selectors h.current
  some (update (update proposed (archived h.history [])) current)
