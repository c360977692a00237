-- ===== src/Selectors/Tests.antt =====
-- erc8167.py: the method generated for two facets that share a selector.
use josuke.Prelude.{◌+◌, ◌*◌, ◌≡◌, ◌↔◌, ◌⊎◌, refl, arith, List, [], ◌∷◌, length, In}
use josuke.Prelude.Bytes.{Bytes, bytes_le}
use josuke.Prelude.Sort.{IsSorted, sort_by}
use josuke.Prelude.Dict.{get, put, set_default}
use josuke.Deployment.{Selector, selectors_selector}
use josuke.Selectors.{generated_selectors, selectors_method}
use josuke.Selectors.Method.{ExposedByAny, generated_selectors-Exposed, length-selectors_method}

abbrev deposit : Selector
deposit = record { selector = 0xd0 ∷ 0xe3 ∷ 0x0d ∷ 0xb0 ∷ []; signature = "deposit()" }

abbrev owner : Selector
owner = record { selector = 0x8d ∷ 0xa5 ∷ 0xcb ∷ 0x5b ∷ []; signature = "owner()" }

abbrev facets : List (List Selector)
facets = (deposit ∷ owner ∷ []) ∷ (owner ∷ []) ∷ []

generated_test :
    generated_selectors facets ≡ selectors_selector ∷ owner.selector ∷ deposit.selector ∷ []
unfolding generated_selectors sort_by bytes_le get put set_default
generated_test = refl

generated_selectors-Exposed_example :
    IsSorted bytes_le (generated_selectors facets)
    × ((k : Bytes)
        → In k (generated_selectors facets) ↔ (ExposedByAny k facets ⊎ (k ≡ selectors_selector)))
generated_selectors-Exposed_example = generated_selectors-Exposed facets

length-selectors_method_example :
    length (selectors_method (selectors_selector ∷ owner.selector ∷ [])) ≡ 9 * 2 + 12
length-selectors_method_example =
    length-selectors_method (selectors_selector ∷ owner.selector ∷ []) (refl, (refl, tt))
      (omega arith) (omega arith)
