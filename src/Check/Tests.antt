-- ===== src/Check/Tests.antt =====
-- check.py: a struct whose second member is renamed and which has grown by a third, in two facets.
use josuke.Prelude.{
  ℕ, ◌≡◌, refl, Bool, Option, List, true, none, some, String, [], ◌∷◌, In, inl, inr, ap, arith, ◌↔◌,
}
use josuke.Check.{
  Member, struct, value, Shape, and_then, elements, was_at, any_elsewhere, members, visit,
  open_pair, fits, fit, reads,
}
use josuke.Prelude.Eq.{◌==◌, string_eq}
use josuke.Prelude.Dict.{get, put, Distinct}
use josuke.Prelude.Sort.{sort_by, insert_by}
use josuke.Check.Staged.{Hashes, differences, differences-nil}
use josuke.Check.Recorded.{History, State, recorded_states, InState, recorded_states-InState}
use josuke.Check.States.{
  was_seen, check_state, check_storage_history, KeptLike, check_storage_history-KeptLike,
}
use josuke.Check.Declared.{
  Declared, Params, takes_no, check_arg, check_facet_arg, check_facet_args, check_declared,
  check_declarations, AllTaken, check_declarations-AllTaken,
}
use josuke.Check.Complete.{Fitting, fit-Fitting}
use josuke.Check.Storage.{fail, warn, Decl, Layouts, declarations, Findings, check_storage}
use josuke.Check.Overlaps.{Consistent, Sized, check_storage-Consistent}
use josuke.Check.Compare.{
  compare_olds, compare_old, compare_all, compare_new, check_place, overlapping_with, note_dropped,
  where_at, note_renamed, note_grown, values_backwards, put_decl, reverse_onto, dedupe,
  compare_storage,
}
use josuke.Check.History.{Preserved, compare_storage-Preserved}

abbrev member : String → ℕ → Member
member label slot = record { label = label; slot = slot; offset = 0; kind = 1 }

abbrev old_shape : Shape
old_shape = struct 64 (member "a" 0 ∷ member "b" 1 ∷ []) ∷ value 32 "uint256" ∷ []

abbrev new_shape : Shape
new_shape = struct 96 (member "a" 0 ∷ member "c" 1 ∷ member "d" 2 ∷ []) ∷ value 32 "uint256" ∷ []

fit-Fitting_example : Fitting old_shape new_shape (fit old_shape new_shape)
fit-Fitting_example = fit-Fitting old_shape new_shape

-- It reads back, grown and with a member renamed.
fit_test :
    fit old_shape new_shape
    ≡ reads (record { compared = (1, 1) ∷ (0, 0) ∷ []; grown = true; renamed = true })
unfolding fit fits open_pair visit members any_elsewhere was_at elements and_then get put
fit_test = refl

abbrev layouts : Layouts
layouts =
    (
      "src/A.sol:A",
      some (
          record {
            label = "s";
            slot = 0;
            offset = 0;
            number_of_bytes = 64;
            type_label = "struct S";
            shape = old_shape;
          }
          ∷ []),
    )
    ∷ ("src/B.evm", none)
    ∷ []

abbrev no_findings : Findings
no_findings = record { failures = []; warnings = [] }

abbrev decl : Shape → ℕ → Decl
decl shape end = record {
  start = 0;
  end = end;
  source = "src/A.sol:A";
  label = "s";
  type_label = "struct S";
  shape = shape;
}

sized : Sized (declarations layouts)
unfolding declarations sort_by insert_by
sized a (inl e) = omega (arith, ap (λ d. d.start) e, ap (λ d. d.end) e)
sized a (inr m) = absurd m

check_storage-Consistent_example :
    ((check_storage (declarations layouts) no_findings).findings.failures ≡ [])
    ↔ Consistent (declarations layouts)
check_storage-Consistent_example = check_storage-Consistent layouts no_findings refl sized

compare_storage-Preserved_example :
    ((compare_storage "current"
          (decl old_shape 64 ∷ [])
          (decl new_shape 96 ∷ [])
          no_findings).findings.failures
        ≡ []
      → (o : Decl) → In o (decl old_shape 64 ∷ [])
      → Preserved (decl new_shape 96 ∷ []) o)
    × (((o : Decl) → In o (decl old_shape 64 ∷ []) → Preserved (decl new_shape 96 ∷ []) o)
        → (compare_storage "current"
            (decl old_shape 64 ∷ [])
            (decl new_shape 96 ∷ [])
            no_findings).findings.failures
          ≡ [])
compare_storage-Preserved_example =
    compare_storage-Preserved "current" (decl old_shape 64 ∷ []) (decl new_shape 96 ∷ [])
      no_findings refl

abbrev head_hashes : Hashes
head_hashes = ("src/A.sol:A", some (1 ∷ [])) ∷ ("src/B.sol:B", none) ∷ []

abbrev reference : Hashes
reference = ("src/B.sol:B", none) ∷ ("src/A.sol:A", some (1 ∷ [])) ∷ []

head-Distinct : Distinct head_hashes
unfolding get
head-Distinct = (refl, (refl, tt))

reference-Distinct : Distinct reference
unfolding get
reference-Distinct = (refl, (refl, tt))

differences-nil_example :
    (differences head_hashes reference ≡ [])
    ↔ ((source_id : String) → get source_id head_hashes ≡ get source_id reference)
differences-nil_example = differences-nil head_hashes reference head-Distinct reference-Distinct

abbrev is_evm : String → Bool
is_evm source = source == "src/B.evm"

abbrev history : History
history = record {
  legacy = none;
  current = some ("c1", "src/A.sol:A" ∷ "src/B.evm" ∷ []);
  proposed = none;
  retired = ("c0", some "src/A.sol:A") ∷ ("c0", none) ∷ ("c0", some "src/C.sol:C") ∷ [];
}

recorded_states-InState_example : InState "c0" "src/C.sol:C" (recorded_states is_evm history)
unfolding get
recorded_states-InState_example =
    recorded_states-InState is_evm history "c0" "src/C.sol:C" refl
      (inr (inr (inr (inr (inr (inl refl))))))

abbrev baselines : String → List String → Option (List Decl)
baselines commit sources = some (decl old_shape 64 ∷ [])

abbrev state : State
state = record { name = "current"; commit = "c1"; sources = "src/A.sol:A" ∷ [] }

abbrev label : State → String
label s = s.name

no_failure :
    (check_storage_history baselines label
      (decl new_shape 96 ∷ [])
      (state ∷ state ∷ [])
      []
      no_findings).failures
    ≡ []
unfolding check_storage_history check_state was_seen compare_storage compare_olds compare_old
    compare_all compare_new check_place overlapping_with note_dropped where_at note_renamed
    note_grown fail warn dedupe values_backwards put_decl reverse_onto fit fits open_pair visit
    members any_elsewhere was_at elements and_then get put
no_failure = refl

check_storage_history-KeptLike_example : KeptLike baselines label (decl new_shape 96 ∷ []) state
check_storage_history-KeptLike_example =
    check_storage_history-KeptLike baselines label (decl new_shape 96 ∷ []) (state ∷ state ∷ [])
      no_findings no_failure state (inl refl) refl

abbrev params : Params
params = ("src/A.sol:A", "owner" ∷ []) ∷ ("src/B.evm", []) ∷ []

abbrev entry_args : Declared
entry_args = record { args = "owner" ∷ []; facet_args = ("src/B.evm", "owner" ∷ []) ∷ [] }

abbrev no_args : Declared
no_args = record { args = []; facet_args = [] }

check_declarations-AllTaken_example :
    (check_declarations (some params) entry_args no_args ≡ [])
    ↔ (AllTaken params entry_args × AllTaken params no_args)
check_declarations-AllTaken_example = check_declarations-AllTaken params entry_args no_args

-- The facet that is named takes no argument.
check_declarations_test :
    check_declarations (some params) entry_args no_args ≡ takes_no "src/B.evm" "owner" ∷ []
unfolding check_declarations check_declared check_arg check_facet_args check_facet_arg get
check_declarations_test = refl
