-- ===== src/Verify/Script.antt =====
-- verify.py: `verify_migration`, the deployed migration script against the one recomputed from source.
use josuke.Prelude.{
  ◌≡◌, refl, subst, ap, ◌∙◌, Bool, true, false, Option, none, some, List, [], ◌∷◌, ◌++◌, concat_map,
  concat_map-eq-nil, if◌then◌else◌, inl, inr, if_cases, All, In,
}
use josuke.Prelude.Eq.{bytes_beq, bytes_eq, bytes_beq_iff}
use josuke.Prelude.Sort.{sort_by, In-sort_by, In-sort_by_cases}
use josuke.Prelude.Bytes.{Bytes, bytes_le}
use josuke.Prelude.Dict.{
  Dict, get, Distinct, In-get, get-In, get-none-has, other_keys, In-other_keys, In-other_keys_cases,
}
use josuke.Migration.{
  SourceMap, SetDelegate, Decoded, ok, invalid, unknown_delegate, not_an_address, stuck, decode,
  encode, migration,
}
use josuke.Migration.RoundTrip.{IsEncodable, decode-encode}
use josuke.Verify.Entries.{
  by_selector, SameEntry, OneEach, HasLike, SameEntry-sym, SameEntry-HasLike, by_selector-Distinct,
}
use josuke.Verify.{
  Failure, no_migration_needed, unrecognized_script, entry_missing, entry_differs,
  entry_writes_elsewhere, entry_unexpected,
}

abbrev pub Entry : Type 0
Entry = Bytes × SetDelegate

abbrev pub entry_le : Entry → Entry → Bool
entry_le x y = bytes_le x.0 y.0

unfoldable pub compare_entry : Bytes → Option SetDelegate → SetDelegate → List Failure
compare_entry selector none sd = entry_missing selector ∷ []
compare_entry selector (some found) sd =
    if bytes_beq found.delegate.address sd.delegate.address
    then (if bytes_beq found.storage_key32 sd.storage_key32
        then []
        else entry_writes_elsewhere selector ∷ [])
    else entry_differs selector found.delegate.address sd.delegate.address ∷ []

abbrev pub check_entry : Dict Bytes SetDelegate → Entry → List Failure
check_entry got e = compare_entry e.0 (get e.0 got) e.1

abbrev pub unexpected : Bytes → List Failure
unexpected selector = entry_unexpected selector ∷ []

unfoldable pub compare_scripts : Dict Bytes SetDelegate → Dict Bytes SetDelegate → List Failure
unfolding compare_entry
compare_scripts got want =
    concat_map (check_entry got) (sort_by entry_le want)
    ++ concat_map unexpected (sort_by bytes_le (other_keys got want))

-- The failures reported, given what `build_migration` recomputes and the code at the recorded address.
-- The error of an address that cannot be read is not caught.
unfoldable pub verify_migration :
    SourceMap → Option (List SetDelegate) → Bytes → Decoded (List Failure)
unfolding by_selector compare_scripts
verify_migration map none onchain = ok (no_migration_needed ∷ [])
verify_migration map (some want) onchain = elim (decode map onchain) [
  | ok got ↦ ok (compare_scripts (by_selector got []) (by_selector want []))
  | invalid ↦ ok (unrecognized_script ∷ [])
  | unknown_delegate ↦ ok (unrecognized_script ∷ [])
  | not_an_address ↦ not_an_address
  | stuck ↦ stuck
]

compare_entry-eq-nil :
    (selector : Bytes) (o : Option SetDelegate) (sd : SetDelegate)
    → compare_entry selector o sd ≡ []
    → SameEntry o (some sd)
unfolding compare_entry
compare_entry-eq-nil selector none sd h = cc
compare_entry-eq-nil selector (some found) sd h =
    elim (if_cases (bytes_beq found.delegate.address sd.delegate.address) _ _ h) [
      | inl (e, p) ↦ elim (if_cases (bytes_beq found.storage_key32 sd.storage_key32) [] _ p) [
        | inl (k, _) ↦ (
          (bytes_beq_iff found.delegate.address sd.delegate.address).0 e,
          (bytes_beq_iff found.storage_key32 sd.storage_key32).0 k,
        )
        | inr (_, q) ↦ cc
      ]
      | inr (_, p) ↦ cc
    ]

append-eq-nil : (xs ys : List Failure) → xs ++ ys ≡ [] → (xs ≡ []) × (ys ≡ [])
append-eq-nil [] ys h = (refl, h)
append-eq-nil (x ∷ xs) ys h = cc

compare_scripts-SameEntry :
    (got want : Dict Bytes SetDelegate)
    → compare_scripts got want ≡ []
    → (selector : Bytes) → SameEntry (get selector got) (get selector want)
unfolding compare_scripts
compare_scripts-SameEntry got want h selector =
    let (here, there) = append-eq-nil (concat_map (check_entry got) (sort_by entry_le want)) _ h in
    go (get selector got) (get selector want) refl refl
      (λ sd p. compare_entry-eq-nil selector (get selector got) sd (
        (concat_map-eq-nil (check_entry got) (sort_by entry_le want)).0 here (selector, sd)
          (In-sort_by entry_le (selector, sd) want (get-In selector sd want p))))
      (λ sd p q.
        (concat_map-eq-nil unexpected (sort_by bytes_le (other_keys got want))).0 there selector (
          In-sort_by bytes_le selector (other_keys got want)
            (In-other_keys selector sd got want p (get-none-has selector want q))))
  where
    go :
        (a b : Option SetDelegate)
        → get selector got ≡ a
        → get selector want ≡ b
        → ((sd : SetDelegate)
            → get selector want ≡ some sd
            → SameEntry (get selector got) (some sd))
        → ((sd : SetDelegate)
            → get selector got ≡ some sd
            → get selector want ≡ none
            → unexpected selector ≡ [])
        → SameEntry a b
    go a (some sd) p q wanted spare = subst (λ x. SameEntry x (some sd)) p (wanted sd q)
    go none none p q wanted spare = tt
    go (some found) none p q wanted spare = absurd (listed (spare found p q))
      where
        listed : unexpected selector ≡ [] → ⊥
        listed e = cc

-- The deployed script is a migration with the writes of the recomputed one, and no other.
pub record Installs (map : SourceMap) (expected : Option (List SetDelegate)) (onchain : Bytes)
    : Type 0 where
  pub want : List SetDelegate
  pub got : List SetDelegate
  pub needed : expected ≡ some want
  pub decoded : decode map onchain ≡ ok got
  pub installs : (sd : SetDelegate) → In sd want → HasLike sd got
  pub no_other : (sd : SetDelegate) → In sd got → HasLike sd want

ok_injective {ℓ} : {A : Type ℓ} {x y : A} → Decoded.ok x ≡ ok y → x ≡ y
ok_injective h = cc

-- Where the check of the deployed script reports nothing, a migration is needed and the script decodes;
-- and if no two entries of the decoded script, and no two of the recomputed migration, have one
-- selector, then for every entry of the one there is an entry of the other with its selector that
-- writes the same address to the same slot.
pub verify_migration-Installs :
    (map : SourceMap) (expected : Option (List SetDelegate)) (onchain : Bytes)
    → ((want : List SetDelegate) → expected ≡ some want → OneEach want)
    → ((got : List SetDelegate) → decode map onchain ≡ ok got → OneEach got)
    → verify_migration map expected onchain ≡ ok []
    → Installs map expected onchain
unfolding verify_migration
verify_migration-Installs map none onchain u v h = cc
verify_migration-Installs map (some want) onchain u v h = go (decode map onchain) refl h
  where
    go :
        (d : Decoded (List SetDelegate))
        → decode map onchain ≡ d
        → (elim d as (λ _. Decoded (List Failure)) [
          | ok got ↦ ok (compare_scripts (by_selector got []) (by_selector want []))
          | invalid ↦ ok (unrecognized_script ∷ [])
          | unknown_delegate ↦ ok (unrecognized_script ∷ [])
          | not_an_address ↦ not_an_address
          | stuck ↦ stuck
        ])
          ≡ ok []
        → Installs map (some want) onchain
    go (ok got) p h' =
        let same =
          compare_scripts-SameEntry (by_selector got []) (by_selector want []) (ok_injective h') in
        record {
          want = want;
          got = got;
          needed = refl;
          decoded = p;
          installs = SameEntry-HasLike want got (u want refl) same;
          no_other = SameEntry-HasLike got want (v got p) (λ k.
              SameEntry-sym (get k (by_selector got [])) (get k (by_selector want [])) (same k));
        }
    go invalid p h' = cc
    go unknown_delegate p h' = cc
    go not_an_address p h' = cc
    go stuck p h' = cc

compare_entry_same :
    (selector : Bytes) (sd : SetDelegate) → compare_entry selector (some sd) sd ≡ []
unfolding compare_entry
compare_entry_same selector sd =
    rw
      (
        (bytes_beq_iff sd.delegate.address sd.delegate.address).1 refl,
        (bytes_beq_iff sd.storage_key32 sd.storage_key32).1 refl,
      )
      refl

-- A script agrees with itself.
compare_scripts_same : (d : Dict Bytes SetDelegate) → Distinct d → compare_scripts d d ≡ []
unfolding compare_scripts
compare_scripts_same d h =
    ap (λ l. l ++ concat_map unexpected (sort_by bytes_le (other_keys d d)))
      ((concat_map-eq-nil (check_entry d) (sort_by entry_le d)).1 (λ e m.
        ap (λ o. compare_entry e.0 o e.1) (In-get e.0 e.1 d h (In-sort_by_cases entry_le e d m))
        ∙ compare_entry_same e.0 e.1))
    ∙ (concat_map-eq-nil unexpected (sort_by bytes_le (other_keys d d))).1 (λ k m.
        let (p, q) = In-other_keys_cases k d d (In-sort_by_cases bytes_le k (other_keys d d) m) in
        absurd (clash p q))
  where
    clash : {b : Bool} → b ≡ true → b ≡ false → ⊥
    clash p q = cc

-- The check of a script that `deploy` wrote for the recomputed migration reports nothing, where every
-- entry has a selector of four bytes, a slot of thirty-two, and a delegate registered under its
-- address of twenty bytes.
pub verify_migration-encode :
    (map : SourceMap) (sds : List SetDelegate)
    → All (IsEncodable map) sds
    → verify_migration map (some (migration sds)) (encode (migration sds)) ≡ ok []
unfolding verify_migration
verify_migration-encode map sds h =
    rw (verify_migration, decode-encode map sds h)
      (ap ok (
        compare_scripts_same (by_selector (migration sds) [])
          (by_selector-Distinct (migration sds) [] tt)))
