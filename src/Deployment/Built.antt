-- ===== src/Deployment/Built.antt =====
-- deploy.py: what a migration that `build_migration` returns does to the proxy.
use josuke.Prelude.{
  ◌≡◌, ◌≢◌, refl, sym, subst, ap, ◌∙◌, ◌⊎◌, inl, inr, Bool, true, false, Option, none, some, String,
  List, [], ◌∷◌, ◌++◌, In, In-append_left, In-append_right, if◌then◌else◌, if_cases, Bool-cases,
}
use josuke.Prelude.Eq.{bytes_beq, bytes_eq, bytes_beq_iff}
use josuke.Prelude.Sort.{sort_by, In-sort_by, In-sort_by_cases}
use josuke.Prelude.Bytes.{Bytes, bytes_le}
use josuke.Prelude.Dict.{
  Dict, get, put, get-put, get-In, get-none-has, other_keys, In-other_keys, some_injective,
}
use josuke.Storage.{slot_address, zeros}
use josuke.Deployment.{Selector, selectors_selector}
use josuke.Migration.{SetDelegate, migration, key_le}
use josuke.Deployment.Claims.{Claims, claim_facets-OwnedAt, >>=-eq-done, done_injective}
use josuke.Deployment.Build.{
  Facet, Built, done, failed, ◌>>=◌, Placed, claim_facets, Storage, routes_to, set_delegate, point,
  placed_le, point_all, point_selectors, clear, is_clear, key_error, kept, clear_all, without_kept,
  check_slots, unless_empty, build_migration, unresolved, slot_clash,
}

-- An entry that writes the address to the selector's slot.
abbrev pub Writes : Storage → Bytes → Bytes → List SetDelegate → Type 0
Writes storage selector address sds =
    (sd : SetDelegate) × (In sd sds)
    × (sd.selector4 ≡ selector)
    × (sd.delegate.address ≡ address)
    × (get selector storage.keys ≡ some sd.storage_key32)

-- The proxy routes the selector to the address, or will once the entries are written.
abbrev pub Served : Storage → Bytes → Bytes → List SetDelegate → Type 0
Served storage selector address sds =
    (slot_address (get selector storage.values) ≡ some address)
    ⊎ Writes storage selector address sds

-- The entries of a migration, none where none is needed.
abbrev pub entries : Option (List SetDelegate) → List SetDelegate
entries none = []
entries (some sds) = sds

abbrev pub OneWritePerSlot : List SetDelegate → Type 0
OneWritePerSlot sds =
    (x y : SetDelegate) → In x sds → In y sds → x.storage_key32 ≡ y.storage_key32 → x ≡ y

Served-wider :
    (storage : Storage) (selector address : Bytes) (xs ys : List SetDelegate)
    → ((sd : SetDelegate) → In sd xs → In sd ys)
    → Served storage selector address xs
    → Served storage selector address ys
Served-wider storage selector address xs ys f (inl r) = inl r
Served-wider storage selector address xs ys f (inr (sd, m, p, q, r)) = inr (sd, f sd m, p, q, r)

routes_to-eq :
    (storage : Storage) (selector address : Bytes)
    → routes_to storage selector address ≡ true
    → slot_address (get selector storage.values) ≡ some address
routes_to-eq storage selector address h = go (slot_address (get selector storage.values)) h
  where
    go :
        (o : Option Bytes)
        → (elim o as (λ _. Bool) [ some a ↦ bytes_beq a address | none ↦ false ]) ≡ true
        → o ≡ some address
    go none e = cc
    go (some a) e = ap some ((bytes_beq_iff a address).0 e)

point-Served :
    (storage : Storage) (selector address : Bytes) (path contract : String) (sds : List SetDelegate)
    → point storage selector address path contract ≡ done sds
    → Served storage selector address sds
unfolding point
point-Served storage selector address path contract sds h = go (get selector storage.keys) refl h
  where
    go :
        (o : Option Bytes)
        → get selector storage.keys ≡ o
        → (elim o as (λ _. Built (List SetDelegate)) [
          | none ↦ failed (unresolved selector)
          | some slot ↦
              (if routes_to storage selector address
                then done []
                else done (set_delegate selector slot address path contract ∷ []))
        ])
          ≡ done sds
        → Served storage selector address sds
    go none p e = cc
    go (some slot) p e = elim (if_cases (routes_to storage selector address) (done []) _ e) [
      | inl (r, _) ↦ inl (routes_to-eq storage selector address r)
      | inr (_, q) ↦ inr (
        set_delegate selector slot address path contract,
        subst (In (set_delegate selector slot address path contract)) (done_injective q) (inl refl),
        refl,
        refl,
        p,
      )
    ]

point_all-Served :
    (storage : Storage) (placed : List (Bytes × Placed)) (sds : List SetDelegate) (selector : Bytes)
    (facet : Facet) (address : Bytes)
    → point_all storage placed ≡ done sds
    → In (selector, (facet, address)) placed
    → Served storage selector address sds
unfolding point_all
point_all-Served storage [] sds selector facet address h m = absurd m
point_all-Served storage ((s, (f, a)) ∷ rest) sds selector facet address h m =
    let (here, p, h') = >>=-eq-done (point storage s a f.path f.contract) _ h in
    let (later, q, h'') = >>=-eq-done (point_all storage rest) _ h' in
    subst (Served storage selector address) (done_injective h'') (elim m [
      | inl e ↦
          Served-wider storage selector address here (here ++ later)
            (λ sd i. In-append_left sd here later i)
            (point-Served storage selector address f.path f.contract here
              (ap (λ x. point storage x.0 x.1.1 f.path f.contract) e ∙ p))
      | inr n ↦
          Served-wider storage selector address later (here ++ later)
            (λ sd i. In-append_right sd here later i)
            (point_all-Served storage rest later selector facet address q n)
    ])

-- The word read for the selector is zero, or an entry writes zero to the selector's slot.
abbrev pub Cleared : Storage → Bytes → List SetDelegate → Type 0
Cleared storage selector sds =
    (is_clear storage selector ≡ true) ⊎ Writes storage selector (zeros 20) sds

Cleared-wider :
    (storage : Storage) (selector : Bytes) (xs ys : List SetDelegate)
    → ((sd : SetDelegate) → In sd xs → In sd ys)
    → Cleared storage selector xs
    → Cleared storage selector ys
Cleared-wider storage selector xs ys f (inl r) = inl r
Cleared-wider storage selector xs ys f (inr (sd, m, p, q, r)) = inr (sd, f sd m, p, q, r)

clear-Cleared :
    (storage : Storage) (selector : Bytes) (sds : List SetDelegate)
    → clear storage selector ≡ done sds
    → Cleared storage selector sds
unfolding clear
clear-Cleared storage selector sds h = elim (if_cases (is_clear storage selector) (done []) _ h) [
  | inl (e, _) ↦ inl e
  | inr (_, q) ↦ inr (go (get selector storage.keys) refl q)
]
  where
    go :
        (o : Option Bytes)
        → get selector storage.keys ≡ o
        → (elim o as (λ _. Built (List SetDelegate)) [
          | some slot ↦ done (set_delegate selector slot (zeros 20) "" "" ∷ [])
          | none ↦ failed (key_error selector)
        ])
          ≡ done sds
        → Writes storage selector (zeros 20) sds
    go none p e = cc
    go (some slot) p e = (
      set_delegate selector slot (zeros 20) "" "",
      subst (In (set_delegate selector slot (zeros 20) "" "")) (done_injective e) (inl refl),
      refl,
      refl,
      p,
    )

clear_all-Cleared :
    (storage : Storage) (selectors : List Bytes) (sds : List SetDelegate) (selector : Bytes)
    → clear_all storage selectors ≡ done sds
    → In selector selectors
    → Cleared storage selector sds
unfolding clear_all
clear_all-Cleared storage [] sds selector h m = absurd m
clear_all-Cleared storage (s ∷ rest) sds selector h m =
    let (here, p, h') = >>=-eq-done (clear storage s) _ h in
    let (later, q, h'') = >>=-eq-done (clear_all storage rest) _ h' in
    subst (Cleared storage selector) (done_injective h'') (elim m [
      | inl e ↦
          Cleared-wider storage selector here (here ++ later)
            (λ sd i. In-append_left sd here later i)
            (clear-Cleared storage selector here (ap (clear storage) e ∙ p))
      | inr n ↦
          Cleared-wider storage selector later (here ++ later)
            (λ sd i. In-append_right sd here later i)
            (clear_all-Cleared storage rest later selector q n)
    ])

In-without_kept :
    (impl : Option Bytes) (k : Bytes) (ks : List Bytes)
    → In k ks
    → kept impl k ≡ false
    → In k (without_kept impl ks)
unfolding without_kept
In-without_kept impl k [] m n = m
In-without_kept impl k (s ∷ rest) m n = elim (Bool-cases (kept impl s)) [
  | inl t ↦ rw t (elim m [
    | inl e ↦ absurd (clash (ap (kept impl) e ∙ t) n)
    | inr i ↦ In-without_kept impl k rest i n
  ])
  | inr f ↦ rw f (elim m [ inl e ↦ inl e | inr i ↦ inr (In-without_kept impl k rest i n) ])
]
  where
    clash : {b : Bool} → b ≡ true → b ≡ false → ⊥
    clash p q = cc

-- A check that passes keeps the entries, none of which writes a slot of `by_slot` or another's.
record Checked (sds out : List SetDelegate) (by_slot : Dict Bytes Bytes) : Type 0 where
  same : out ≡ sds
  fresh : (sd : SetDelegate) → In sd sds → get sd.storage_key32 by_slot ≡ none
  once : OneWritePerSlot sds

fresh_of_put :
    (k j v : Bytes) (d : Dict Bytes Bytes)
    → get j (put k v d) ≡ none
    → (bytes_beq k j ≡ false) × (get j d ≡ none)
fresh_of_put k j v d h =
    elim (if_cases (bytes_beq k j) (some v) (get j d) (sym (get-put k j v d) ∙ h)) [
      | inl (_, p) ↦ cc
      | inr (e, p) ↦ (e, p)
    ]

check_slots-Checked :
    (sds out : List SetDelegate) (by_slot : Dict Bytes Bytes)
    → check_slots sds by_slot ≡ done out
    → Checked sds out by_slot
unfolding check_slots
check_slots-Checked [] out by_slot h = record {
  same = sym (done_injective h);
  fresh = λ sd m. absurd m;
  once = λ x y m n e. absurd m;
}
check_slots-Checked (sd ∷ rest) out by_slot h =
    go (get sd.storage_key32 by_slot) refl h (check_slots-Checked rest)
  where
    by_slot' : Dict Bytes Bytes
    by_slot' = put sd.storage_key32 sd.selector4 by_slot

    apart :
        (x : SetDelegate) {out' : List SetDelegate}
        → Checked rest out' by_slot'
        → In x rest
        → sd.storage_key32 ≡ x.storage_key32
        → ⊥
    apart x c m e =
        let (differs, _) =
          fresh_of_put sd.storage_key32 x.storage_key32 sd.selector4 by_slot (c.fresh x m) in
        clash ((bytes_beq_iff sd.storage_key32 x.storage_key32).1 e) differs
      where
        clash : {b : Bool} → b ≡ true → b ≡ false → ⊥
        clash p q = cc

    whole :
        {out' : List SetDelegate}
        → get sd.storage_key32 by_slot ≡ none
        → Checked rest out' by_slot'
        → Checked (sd ∷ rest) (sd ∷ out') by_slot
    whole p c = record {
      same = ap (λ l. sd ∷ l) c.same;
      fresh = λ x m. elim m [
        | inl e ↦ ap (λ y. get y.storage_key32 by_slot) e ∙ p
        | inr n ↦
            (fresh_of_put sd.storage_key32 x.storage_key32 sd.selector4 by_slot (c.fresh x n)).1
      ];
      once = λ x y m n e. elim m [
        | inl ex ↦ elim n [
          | inl ey ↦ ex ∙ sym ey
          | inr ny ↦ absurd (apart y c ny (ap (λ z. z.storage_key32) (sym ex) ∙ e))
        ]
        | inr mx ↦ elim n [
          | inl ey ↦ absurd (apart x c mx (sym (e ∙ ap (λ z. z.storage_key32) ey)))
          | inr ny ↦ c.once x y mx ny e
        ]
      ];
    }

    go :
        (o : Option Bytes)
        → get sd.storage_key32 by_slot ≡ o
        → (elim o as (λ _. Built (List SetDelegate)) [
          | some clash ↦ failed (slot_clash clash sd.selector4)
          | none ↦ (check_slots rest by_slot' >>= λ sds. done (sd ∷ sds))
        ])
          ≡ done out
        → ((out' : List SetDelegate) (d : Dict Bytes Bytes)
            → check_slots rest d ≡ done out'
            → Checked rest out' d)
        → Checked (sd ∷ rest) out by_slot
    go (some clash) p e ih = cc
    go none p e ih =
        let (out', q, e') = >>=-eq-done (check_slots rest by_slot') _ e in
        subst (λ l. Checked (sd ∷ rest) l by_slot) (done_injective e')
          (whole p (ih out' by_slot' q))

-- What the returned migration does, in terms of the facets' own claims: those of one selector agree on
-- the address, every claimed selector is served at it, `selectors()` at the generated delegate's if there
-- is one, every installed selector that nothing serves is cleared, and no slot is written twice.
pub record Migrates (facets : List (Placed × List Selector)) (storage : Storage)
    (installed : Dict Bytes Selector) (impl : Option Bytes) (sds : List SetDelegate) : Type 0 where
  pub agree : (selector a b : Bytes) → Claims facets selector a → Claims facets selector b → a ≡ b
  pub served :
      (selector address : Bytes)
      → Claims facets selector address
      → Served storage selector address sds
  pub own : (address : Bytes) → impl ≡ some address → Served storage selectors_selector address sds
  pub dropped :
      (selector : Bytes) (old : Selector)
      → get selector installed ≡ some old
      → ((address : Bytes) → ¬ (Claims facets selector address))
      → ((address : Bytes) → impl ≡ some address → selector ≢ selectors_selector)
      → Cleared storage selector sds
  pub once : OneWritePerSlot sds

-- Nothing keeps a selector but a generated delegate, and it only `selectors()`.
not_kept :
    (impl : Option Bytes) (selector : Bytes)
    → ((address : Bytes) → impl ≡ some address → selector ≢ selectors_selector)
    → kept impl selector ≡ false
not_kept none selector h = refl
not_kept (some address) selector h = elim (Bool-cases (bytes_beq selector selectors_selector)) [
  | inl t ↦ absurd (h address refl ((bytes_beq_iff selector selectors_selector).0 t))
  | inr e ↦ e
]

point_selectors-Served :
    (storage : Storage) (impl : Option Bytes) (address : Bytes) (sds : List SetDelegate)
    → point_selectors storage impl ≡ done sds
    → impl ≡ some address
    → Served storage selectors_selector address sds
unfolding point_selectors
point_selectors-Served storage none address sds h e = cc
point_selectors-Served storage (some a) address sds h e =
    point-Served storage selectors_selector address "selectors()" "" sds
      (ap (λ x. point storage selectors_selector x "selectors()" "") (sym (some_injective e)) ∙ h)

In-entries :
    (sd : SetDelegate) (sds : List SetDelegate) → In sd sds → In sd (entries (unless_empty sds))
unfolding migration
In-entries sd [] m = m
In-entries sd (x ∷ xs) m = In-sort_by key_le sd (x ∷ xs) m

In-entries_cases :
    (sd : SetDelegate) (sds : List SetDelegate) → In sd (entries (unless_empty sds)) → In sd sds
unfolding migration
In-entries_cases sd [] m = m
In-entries_cases sd (x ∷ xs) m = In-sort_by_cases key_le sd (x ∷ xs) m

-- Where `build_migration` returns, no two facets claim one selector at different addresses, every
-- selector that a facet claims is routed to the facet's address already or by an entry that writes it to
-- the selector's own slot, and so is `selectors()` to the generated delegate's if there is one; every
-- installed selector that no facet claims, `selectors()` aside where there is a generated delegate, has a
-- zero word or an entry that writes zero to its slot; and no two entries write one slot.
pub build_migration-Migrates :
    (facets : List (Placed × List Selector)) (installed : Dict Bytes Selector) (impl : Option Bytes)
    (storage : Storage) (result : Option (List SetDelegate))
    → build_migration facets installed impl storage ≡ done result
    → Migrates facets storage installed impl (entries result)
unfolding build_migration
build_migration-Migrates facets installed impl storage result h =
    let (owner, a, h1) = >>=-eq-done (claim_facets facets []) _ h in
    let (pointed, b, h2) = >>=-eq-done (point_all storage (sort_by placed_le owner)) _ h1 in
    let (own, c, h3) = >>=-eq-done (point_selectors storage impl) _ h2 in
    let (cleared, d, h4) =
      >>=-eq-done
        (clear_all storage (sort_by bytes_le (without_kept impl (other_keys installed owner)))) _
        h3 in
    let (sds, e, h5) = >>=-eq-done (check_slots (pointed ++ (own ++ cleared)) []) _ h4 in
    let checked = check_slots-Checked (pointed ++ (own ++ cleared)) sds [] e in
    let claims = claim_facets-OwnedAt facets owner a in
    subst (λ r. Migrates facets storage installed impl (entries r)) (done_injective h5)
      (record {
        agree = λ selector x y m n.
            let (f, p) = (claims selector x).0 m in
            let (g, q) = (claims selector y).0 n in ap (λ z. z.1) (some_injective (sym p ∙ q));
        served = λ selector address m.
            let (facet, g) = (claims selector address).0 m in
            Served-wider storage selector address pointed (entries (unless_empty sds))
              (λ sd m.
                In-entries sd sds
                  (subst (In sd) (sym checked.same) (In-append_left sd pointed (own ++ cleared) m)))
              (point_all-Served storage (sort_by placed_le owner) pointed selector facet address b (
                In-sort_by placed_le (selector, (facet, address)) owner
                  (get-In selector (facet, address) owner g)));
        own = λ address g.
            Served-wider storage selectors_selector address own (entries (unless_empty sds))
              (λ sd m. In-entries sd sds (
                subst (In sd) (sym checked.same)
                  (In-append_right sd pointed (own ++ cleared) (In-append_left sd own cleared m))))
              (point_selectors-Served storage impl address own c g);
        dropped = λ selector old g n k.
            let unclaimed =
              get-none-has selector owner
                (no_owner (get selector owner) (λ f x e. n x ((claims selector x).1 (f, e)))) in
            let gone = without_kept impl (other_keys installed owner) in
            Cleared-wider storage selector cleared (entries (unless_empty sds))
              (λ sd m. In-entries sd sds (
                subst (In sd) (sym checked.same)
                  (In-append_right sd pointed (own ++ cleared) (In-append_right sd own cleared m))))
              (clear_all-Cleared storage (sort_by bytes_le gone) cleared selector d (
                In-sort_by bytes_le selector gone (
                  In-without_kept impl selector (other_keys installed owner)
                    (In-other_keys selector old installed owner g unclaimed)
                    (not_kept impl selector k))));
        once = λ x y m n.
            checked.once x y (subst (In x) checked.same (In-entries_cases x sds m))
              (subst (In y) checked.same (In-entries_cases y sds n));
      })
  where
    no_owner : (o : Option Placed) → ((f : Facet) (x : Bytes) → ¬ (o ≡ some (f, x))) → o ≡ none
    no_owner none k = refl
    no_owner (some (f, x)) k = absurd (k f x refl)
