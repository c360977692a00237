-- ===== src/Deployment.antt =====
-- The ledger's record of a deployment, and src/josuke/deploy.py's readings of it: which facet owns each
-- selector, the routes of a migration, and the reuse of deployed facets. An address stands for its
-- bytes, so that `to_checksum_address` changes nothing. What a facet's source exposes comes from the
-- compiler: `facet_selectors` is a parameter, `none` where it raises.
pub mod Reuses
pub mod Build
pub mod Claims
pub mod Built
mod Tests
use josuke.Prelude.{
  ℕ, ◌-◌, ◌≡◌, Bool, true, false, ◌&&◌, Option, none, some, String, List, [], ◌∷◌, ◌++◌, nat_beq,
  if◌then◌else◌, length, drop,
}
use josuke.Prelude.Eq.{bytes_beq, bytes_eq, string_eq}
use josuke.Prelude.Bytes.{Bytes}
use josuke.Prelude.Dict.{Dict, get, put, set_default, has, update}

-- A facet's record in `facets`, with the fields that the checks read.
pub record FacetRecord : Type 0 where
  pub address : Option Bytes
  pub initcode_hash : Option Bytes
  pub code_hash : Option Bytes
  -- `from`
  pub sender : Option Bytes
  pub nonce : Option ℕ
  -- The JSON texts of `constructorArgs` and `block`.
  pub constructor_args : Option String
  pub block : Option String

-- The record of the generated `selectors()` delegate.
pub record SelectorsRecord : Type 0 where
  pub address : Option Bytes

-- `current` or `proposed`.
pub record State : Type 0 where
  pub git_commit : String
  pub facets : Dict String FacetRecord
  pub selectors : Option SelectorsRecord
  -- The address in `migration`.
  pub migration : Option Bytes

pub record Selector : Type 0 where
  pub selector : Bytes
  pub signature : String

-- selector -> (source_id, address)
abbrev pub Owners : Type 0
Owners = Dict Bytes (String × Option Bytes)

abbrev pub selectors_selector : Bytes
selectors_selector = 0x6e ∷ 0x25 ∷ 0xb9 ∷ 0x78 ∷ []

-- The facet's selectors, each owned by the facet's record.
unfoldable pub own_selectors :
    String → Option Bytes → List Selector → Owners × List Selector → Owners × List Selector
own_selectors source_id address [] (owners, sels) = (owners, sels)
own_selectors source_id address (s ∷ rest) (owners, sels) =
    own_selectors source_id address rest
      (put s.selector (source_id, address) owners, sels ++ s ∷ [])

abbrev own_facet :
    Option (List Selector)
    → String
    → Option Bytes
    → Owners × List Selector
    → Option (Owners × List Selector)
own_facet none source_id address acc = none
own_facet (some found) source_id address acc = some (own_selectors source_id address found acc)

unfoldable pub own_facets :
    (String → Option (List Selector))
    → Dict String FacetRecord
    → Option (Owners × List Selector)
    → Option (Owners × List Selector)
unfolding own_selectors
own_facets facet_selectors facets none = none
own_facets facet_selectors [] (some acc) = some acc
own_facets facet_selectors ((source_id, rec) ∷ facets) (some acc) =
    own_facets facet_selectors facets
      (own_facet (facet_selectors source_id) source_id rec.address acc)

-- The generated delegate serves `selectors()` unless a facet does.
unfoldable pub own_generated :
    Option SelectorsRecord → Owners × List Selector → Owners × List Selector
own_generated none acc = acc
own_generated (some impl) (owners, sels) =
    if has selectors_selector owners then (owners, sels) else (
      put selectors_selector ("selectors()", impl.address) owners,
      sels ++ record { selector = selectors_selector; signature = "selectors()" } ∷ [],
    )

unfoldable pub selector_owners :
    (String → Option (List Selector)) → State → Option (Owners × List Selector)
unfolding own_facets own_generated
selector_owners facet_selectors state =
    elim (own_facets facet_selectors state.facets (some ([], []))) [
      | some acc ↦ some (own_generated state.selectors acc)
      | none ↦ none
    ]

unfoldable pub put_selectors : List Selector → Dict Bytes Selector → Dict Bytes Selector
put_selectors [] out = out
put_selectors (s ∷ rest) out = put_selectors rest (put s.selector s out)

-- A facet whose selectors cannot be determined is warned of and passed over.
unfoldable pub current_selectors :
    (String → Option (List Selector))
    → Dict String FacetRecord
    → Dict Bytes Selector
    → Dict Bytes Selector
unfolding put_selectors
current_selectors facet_selectors [] out = out
current_selectors facet_selectors ((source_id, rec) ∷ facets) out =
    current_selectors facet_selectors facets
      (elim (facet_selectors source_id) [ some found ↦ put_selectors found out | none ↦ out ])

-- `record and record.get("initcodeHash") == initcode_hash`
abbrev pub matches : Bytes → FacetRecord → Bool
matches hash rec = elim rec.initcode_hash [ some h ↦ bytes_beq h hash | none ↦ false ]

-- An empty text counts as no address.
abbrev pub has_address : FacetRecord → Bool
has_address rec = elim rec.address [ some (b ∷ bs) ↦ true | _ ↦ false ]

abbrev pub Reuse : Type 0
Reuse = (Option FacetRecord × Bool) × Dict Bytes FacetRecord

unfoldable pub shared_deployment : Bytes → Dict Bytes FacetRecord → Reuse
shared_deployment hash run = elim (get hash run) [
  | some rec ↦ (if has_address rec then ((some rec, true), run) else ((none, false), run))
  | none ↦ ((none, false), run)
]

unfoldable pub staged_deployment : Bytes → Option FacetRecord → Dict Bytes FacetRecord → Reuse
unfolding shared_deployment
staged_deployment hash none run = shared_deployment hash run
staged_deployment hash (some staged) run =
    if matches hash staged && has_address staged
    then ((some staged, false), set_default hash staged run)
    else shared_deployment hash run

unfoldable pub live_deployment :
    Bytes → Option FacetRecord → Option FacetRecord → Dict Bytes FacetRecord → Reuse
unfolding staged_deployment
live_deployment hash none staged run = staged_deployment hash staged run
live_deployment hash (some live) staged run =
    if matches hash live
    then ((some live, false), set_default hash live run)
    else staged_deployment hash staged run

-- The record of a deployment to reuse, whether it is another's, and the run's deployments by hash.
unfoldable pub existing_deployment :
    String
    → Bytes
    → Dict String FacetRecord
    → Dict String FacetRecord
    → Dict Bytes FacetRecord
    → Bool
    → Reuse
unfolding live_deployment
existing_deployment source_id hash current proposed run redeploy_all =
    if redeploy_all
    then shared_deployment hash run
    else live_deployment hash (get source_id current) (get source_id proposed) run
