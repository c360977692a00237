-- ===== src/Check/Declared.antt =====
-- src/josuke/check.py: `_check_declarations`, which warns of declared constructor arguments that no
-- facet takes. A facet's parameters are given by their names, or none where they cannot be read.
use josuke.Prelude.{
  ◌≡◌, ◌↔◌, refl, sym, subst, Bool, true, false, Option, none, some, String, List, [], ◌∷◌, ◌++◌,
  if◌then◌else◌, concat_map, concat_map-eq-nil, In,
}
use josuke.Prelude.Eq.{string_eq}
use josuke.Prelude.Dict.{Dict, get, some_injective}
use josuke.Storage.Trace.{has_text}
use josuke.Storage.Found.{has_text_iff}

-- `constructorArgs` and `facetConstructorArgs`, by their names.
pub record Declared : Type 0 where
  pub args : List String
  pub facet_args : List (String × List String)

abbrev pub Params : Type 0
Params = Dict String (List String)

-- A warning under the proxy, or under its deployment.
pub data Warning : Type 0 where
  not_taken : String → Warning
  not_a_facet : String → Warning
  takes_no : String → String → Warning

abbrev pub taken : Params → List String
taken [] = []
taken ((source_id, names) ∷ params) = names ++ taken params

unfoldable pub check_arg : List String → String → List Warning
check_arg names name = if has_text name names then [] else not_taken name ∷ []

unfoldable pub check_facet_arg : String → List String → String → List Warning
check_facet_arg source_id names name =
    if has_text name names then [] else takes_no source_id name ∷ []

unfoldable pub check_facet_args : Params → String × List String → List Warning
unfolding check_facet_arg
check_facet_args params (source_id, args) = elim (get source_id params) as (λ _. List Warning) [
  | none ↦ not_a_facet source_id ∷ []
  | some names ↦ concat_map (check_facet_arg source_id names) args
]

unfoldable pub check_declared : Params → Declared → List Warning
unfolding check_arg check_facet_args
check_declared params d =
    concat_map (check_arg (taken params)) d.args
    ++ concat_map (check_facet_args params) d.facet_args

-- The proxy's declarations, then its deployment's.
unfoldable pub check_declarations : Option Params → Declared → Declared → List Warning
unfolding check_declared
check_declarations none entry deployment = []
check_declarations (some params) entry deployment =
    check_declared params entry ++ check_declared params deployment

-- Every argument is taken: a common one by some facet, a facet's own by that facet of the proxy.
abbrev pub AllTaken : Params → Declared → Type 0
AllTaken params d =
    ((name : String) → In name d.args → In name (taken params))
    × ((f : String × List String)
        → In f d.facet_args
        → (names : List String) × (get f.0 params ≡ some names)
          × ((name : String) → In name f.1 → In name names))

if-nil : (b : Bool) (w : Warning) → ((if b then [] else w ∷ []) ≡ []) ↔ (b ≡ true)
if-nil true w = (λ h. refl, λ h. refl)
if-nil false w = (λ h. cc, λ h. cc)

append-nil_both : (xs ys : List Warning) → (xs ++ ys ≡ []) ↔ ((xs ≡ []) × (ys ≡ []))
append-nil_both [] ys = (λ h. (refl, h), λ h. h.1)
append-nil_both (x ∷ xs) ys = (λ h. cc, λ h. absurd (clash h.0))
  where
    clash : x ∷ xs ≡ [] → ⊥
    clash e = cc

check_facet_args-nil :
    (params : Params) (f : String × List String)
    → (check_facet_args params f ≡ []) ↔ (
        (names : List String) × (get f.0 params ≡ some names)
        × ((name : String) → In name f.1 → In name names))
unfolding check_facet_args check_facet_arg
check_facet_args-nil params (source_id, args) = go (get source_id params)
  where
    clash : {names : List String} → none ≡ some names → ⊥
    clash e = cc

    go :
        (o : Option (List String))
        → ((elim o as (λ _. List Warning) [
          | none ↦ not_a_facet source_id ∷ []
          | some names ↦ concat_map (check_facet_arg source_id names) args
        ])
            ≡ [])
          ↔ ((names : List String) × (o ≡ some names)
              × ((name : String) → In name args → In name names))
    go none = (λ h. cc, λ h. absurd (clash h.1))
    go (some names) =
        let each = concat_map-eq-nil (check_facet_arg source_id names) args in
        (
          λ h. (
            names,
            refl,
            λ name m.
                (has_text_iff name names).0
                  ((if-nil (has_text name names) (takes_no source_id name)).0 (each.0 h name m)),
          ),
          λ h. each.1 (λ name m. (if-nil (has_text name names) (takes_no source_id name)).1 (
              (has_text_iff name names).1
                (subst (In name) (sym (some_injective h.1)) (h.2 name m)))),
        )

check_declared-nil :
    (params : Params) (d : Declared) → (check_declared params d ≡ []) ↔ AllTaken params d
unfolding check_declared check_arg
check_declared-nil params d =
    let both =
      append-nil_both (concat_map (check_arg (taken params)) d.args)
        (concat_map (check_facet_args params) d.facet_args) in
    let common = concat_map-eq-nil (check_arg (taken params)) d.args in
    let own = concat_map-eq-nil (check_facet_args params) d.facet_args in
    (
      λ h. (
        λ name m. (has_text_iff name (taken params)).0 (
            (if-nil (has_text name (taken params)) (not_taken name)).0
              (common.0 (both.0 h).0 name m)),
        λ f m. (check_facet_args-nil params f).0 (own.0 (both.0 h).1 f m),
      ),
      λ k. both.1 (
        common.1 (λ name m.
            (if-nil (has_text name (taken params)) (not_taken name)).1
              ((has_text_iff name (taken params)).1 (k.0 name m))),
        own.1 (λ f m. (check_facet_args-nil params f).1 (k.1 f m)),
      ),
    )

-- Where the facets' parameters can be read, there is no warning exactly where every declared argument
-- is taken, in the proxy's declarations and in its deployment's: a common one by some facet, and one
-- for a facet by that facet, which is one of the proxy's.
pub check_declarations-AllTaken :
    (params : Params) (entry deployment : Declared)
    → (check_declarations (some params) entry deployment ≡ [])
      ↔ (AllTaken params entry × AllTaken params deployment)
unfolding check_declarations
check_declarations-AllTaken params entry deployment =
    let both = append-nil_both (check_declared params entry) (check_declared params deployment) in
    let e = check_declared-nil params entry in
    let d = check_declared-nil params deployment in
    (λ h. (e.0 (both.0 h).0, d.0 (both.0 h).1), λ k. both.1 (e.1 k.0, d.1 k.1))
