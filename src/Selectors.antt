-- ===== src/Selectors.antt =====
-- src/josuke/erc8167.py: the `selectors()` method that is generated for a set of facets.
pub mod Method
mod Tests
use josuke.Prelude.{Option, none, some, List, [], ◌∷◌, ◌++◌, length}
use josuke.Prelude.Eq.{bytes_eq}
use josuke.Prelude.Sort.{sort_by}
use josuke.Prelude.Bytes.{Bytes, bytes_le}
use josuke.Prelude.Dict.{Dict, keys, set_default}
use josuke.Opcodes.{add, mstore, msize, push0, push1, push4, dup2, dup3, swap1, return_op, push}
use josuke.Deployment.{Selector, selectors_selector}

abbrev pub own_selector : Selector
own_selector = record { selector = selectors_selector; signature = "selectors()" }

unfoldable pub add_selectors : List Selector → Dict Bytes Selector → Dict Bytes Selector
add_selectors [] by_selector = by_selector
add_selectors (s ∷ rest) by_selector = add_selectors rest (set_default s.selector s by_selector)

unfoldable pub add_lists : List (List Selector) → Dict Bytes Selector → Dict Bytes Selector
unfolding add_selectors
add_lists [] by_selector = by_selector
add_lists (selectors ∷ rest) by_selector = add_lists rest (add_selectors selectors by_selector)

-- The four-byte values of the list, which is all of it that the method returns.
unfoldable pub generated_selectors : List (List Selector) → List Bytes
unfolding add_lists
generated_selectors lists =
    sort_by bytes_le (keys (add_lists lists ((selectors_selector, own_selector) ∷ [])))

-- PUSH4 selector DUP2 MSTORE
abbrev pub store_selector : Bytes → Bytes
store_selector selector = push4 ∷ (selector ++ (dup2 ∷ mstore ∷ []))

-- Joined by DUP2 ADD, which moves the pointer on.
unfoldable pub store_all : List Bytes → Bytes
store_all [] = []
store_all (selector ∷ []) = store_selector selector
store_all (selector ∷ next ∷ rest) =
    store_selector selector ++ (dup2 ∷ add ∷ store_all (next ∷ rest))

unfoldable pub selectors_method : List Bytes → Bytes
unfolding store_all push
selectors_method selectors =
    push1
    ∷ 0x20
    ∷ push1
    ∷ 0x24
    ∷ (store_all selectors
        ++ (push (length selectors)
            ++ (dup3 ∷ mstore ∷ swap1 ∷ push0 ∷ mstore ∷ msize ∷ push0 ∷ return_op ∷ [])))
