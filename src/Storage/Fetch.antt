-- ===== src/Storage/Fetch.antt =====
-- storage.py: `fetch` ends, and gives each selector a slot of its own.
use josuke.Prelude.{
  ℕ, zero, suc, ◌+◌, ◌-◌, ◌≤◌, ◌<◌, ◌≡◌, refl, sym, ap, ◌∙◌, subst, ◌⊎◌, inl, inr, Bool, true,
  false, Bool-cases, Option, none, some, String, List, [], ◌∷◌, ◌++◌, length, take, if◌then◌else◌,
  In, In-append_cases, arith,
}
use josuke.Prelude.Eq.{string_eq, string_le}
use josuke.Prelude.Sort.{sort_by, In-sort_by}
use josuke.Prelude.Dict.{Dict, get, has, has-update, some_injective}
use josuke.Storage.Trace.{has_text, add_text}
use josuke.Storage.Walk.{
  Slots, Relay, Search, is_empty, still_open, backwards, fetch_slots, begin_round, search,
  start_search, unwanted, probed, missing_values, Fetched, fetched, unrouted, key_error, stuck,
  routes_of, fetch,
}
use josuke.Storage.Routes.{Alone, Inverse}
use josuke.Storage.Found.{has_text_iff, search-Inverse, Routed, slots, Part, routes_of-Part}
use josuke.Storage.Ends.{count, count_less, count-length, Within}
use josuke.Storage.Rounds.{drain-Fresh}

-- The relay gives a value for each slot that it is asked for.
abbrev pub Serves : Relay → Type 0
Serves relay =
    (wanted : List String) (x : String) → In x wanted → has x (relay.storage_at wanted) ≡ true

fetch_slots-has :
    (relay : Relay) (needs : List String) (known : Slots) (x : String)
    → Serves relay
    → In x needs
    → has x (fetch_slots relay needs known) ≡ true
unfolding fetch_slots
fetch_slots-has relay [] known x h m = absurd m
fetch_slots-has relay (y ∷ needs) known x h m =
    let r = h (sort_by string_le (y ∷ needs)) x (In-sort_by string_le x (y ∷ needs) m) in
    has-update x known (relay.storage_at (sort_by string_le (y ∷ needs))) ∙ ground (arith, r)

fetch_slots-kept :
    (relay : Relay) (needs : List String) (known : Slots) (x : String)
    → has x known ≡ true
    → has x (fetch_slots relay needs known) ≡ true
unfolding fetch_slots
fetch_slots-kept relay [] known x h = h
fetch_slots-kept relay (y ∷ needs) known x h =
    has-update x known (relay.storage_at (sort_by string_le (y ∷ needs))) ∙ ground (arith, h)

module _ (relay : Relay) (all : List String) (within : Within relay all) (serves : Serves relay)
    (bound : ℕ) where
  -- Some result.
  abbrev Ended : Option (Slots × Search) → Type 0
  Ended o = (r : Slots × Search) × (o ≡ some r)

  search-closed :
      (fuel : ℕ) (known : Slots) (v : Search)
      → v.waiting ≡ []
      → 0 < fuel
      → Ended (search relay bound fuel known (still_open v.found v.waiting []) v)
  unfolding search still_open
  search-closed zero known v e h = absurd (omega (arith, h))
  search-closed (suc fuel) known v e h =
      subst (λ ws. Ended (search relay bound (suc fuel) known (still_open v.found ws []) v)) (sym e)
        ((known, v), refl)

  search-Ended :
      (fuel : ℕ) (known : Slots) (pending : List String) (w : Search)
      → length all ≤ bound
      → count (λ x. has x known) all + 2 ≤ fuel
      → Ended (search relay bound fuel known pending w)
  unfolding search
  search-Ended zero known pending w b l = absurd (omega (arith, l))
  search-Ended (suc fuel) known [] w b l = ((known, w), refl)
  search-Ended (suc fuel) known (s ∷ pending) w b l =
      let f = length (backwards (s ∷ pending) []) + bound + 1 in
      let (v, e, (n, q)) =
        drain-Fresh all known relay within f (begin_round (s ∷ pending) w)
          ((λ x m. absurd m), (λ _. refl))
          (omega (arith, b, count-length (λ x. has_text x w.shared) all)) in
      subst
        (λ o. Ended (elim o as (λ _. Option (Slots × Search)) [
          | none ↦ none
          | some v ↦
              search relay bound fuel (fetch_slots relay v.needs known)
                (still_open v.found v.waiting []) v
        ]))
        (sym e) (go (λ k p x. search-Ended fuel k p x b) v n q v.needs refl)
    where
      go :
          ((k : Slots) (p : List String) (x : Search)
            → count (λ y. has y k) all + 2 ≤ fuel
            → Ended (search relay bound fuel k p x))
          → (v : Search) → ((x : String) → In x v.needs → In x all × (has x known ≡ false))
          → (is_empty v.needs ≡ true → v.waiting ≡ [])
          → (needs : List String) → v.needs ≡ needs
          → Ended (
              search relay bound fuel
                (fetch_slots relay v.needs known)
                (still_open v.found v.waiting [])
                v)
      go ih v n q [] e =
          search-closed fuel (fetch_slots relay v.needs known) v (q (ap is_empty e))
            (omega (arith, l))
      go ih v n q (x ∷ needs) e =
          let m = subst (In x) (sym e) (inl refl) in
          let (p, z) = n x m in
          ih (fetch_slots relay v.needs known) (still_open v.found v.waiting []) v (
            omega (
              arith,
              l,
              count_less (λ y. has y known) (λ y. has y (fetch_slots relay v.needs known)) x all
                  (λ y t. fetch_slots-kept relay v.needs known y t) p z
                  (fetch_slots-has relay v.needs known x serves m),
            ))

In-missing_values :
    (wanted : List String) (found : Dict String String) (known : Slots) (s slot : String)
    → In s wanted
    → get s found ≡ some slot
    → In slot (missing_values wanted found known) ⊎ (has slot known ≡ true)
unfolding missing_values
In-missing_values [] found known s slot m e = absurd m
In-missing_values (x ∷ wanted) found known s slot (inl p) e =
    first (get x found) (subst (λ y. get y found ≡ some slot) p e)
  where
    put_in : (rest : List String) → In slot (add_text slot rest)
    put_in rest =
        (has_text_iff slot (add_text slot rest)).0
          (ground (arith, (string_eq.same_iff slot slot).1 refl))

    here :
        (b : Bool)
        → has slot known ≡ b
        → In slot (
            if b
            then missing_values wanted found known
            else add_text slot (missing_values wanted found known))
          ⊎ (has slot known ≡ true)
    here true h = inr h
    here false h = inl (put_in (missing_values wanted found known))

    first :
        (o : Option String)
        → o ≡ some slot
        → In slot (elim o as (λ _. List String) [
          | some y ↦
              (if has y known
                then missing_values wanted found known
                else add_text y (missing_values wanted found known))
          | none ↦ missing_values wanted found known
        ])
          ⊎ (has slot known ≡ true)
    first none q = cc
    first (some y) q =
        subst
          (λ z.
            In slot (
              if has z known
              then missing_values wanted found known
              else add_text z (missing_values wanted found known))
            ⊎ (has slot known ≡ true))
          (sym (some_injective q)) (here (has slot known) refl)
In-missing_values (x ∷ wanted) found known s slot (inr m) e =
    later (get x found) (In-missing_values wanted found known s slot m e)
  where
    keep : (y : String) (rest : List String) → In slot rest → In slot (add_text y rest)
    keep y rest n =
        (has_text_iff slot (add_text y rest)).0
          (let t = (has_text_iff slot rest).1 n in ground (arith, t))

    under :
        (b : Bool) (y : String) (rest : List String)
        → In slot rest
        → In slot (if b then rest else add_text y rest)
    under true y rest n = n
    under false y rest n = keep y rest n

    later :
        (o : Option String)
        → In slot (missing_values wanted found known) ⊎ (has slot known ≡ true)
        → In slot (elim o as (λ _. List String) [
          | some y ↦
              (if has y known
                then missing_values wanted found known
                else add_text y (missing_values wanted found known))
          | none ↦ missing_values wanted found known
        ])
          ⊎ (has slot known ≡ true)
    later o (inr h) = inr h
    later none (inl n) = inl n
    later (some y) (inl n) = inl (under (has y known) y (missing_values wanted found known) n)

-- What `fetch` comes to: each wanted selector in order, no slot twice; or a wanted selector.
abbrev pub Answered : List String → Fetched → Type 0
Answered wanted (fetched routes) = Routed wanted routes × Alone (slots routes)
Answered wanted (unrouted s) = In s wanted
Answered wanted key_error = ⊥
Answered wanted stuck = ⊥

Part-Answered :
    (wanted : List String) (found : Dict String String) (r : Fetched)
    → Part wanted found r
    → Answered wanted r
Part-Answered wanted found (fetched routes) h = (h.0, h.1)
Part-Answered wanted found (unrouted s) h = h.0
Part-Answered wanted found key_error h = h
Part-Answered wanted found stuck h = h

Alone-append :
    (xs ys : List String)
    → Alone xs
    → Alone ys
    → ((x : String) → In x xs → In x ys → ⊥)
    → Alone (xs ++ ys)
Alone-append [] ys a b d = b
Alone-append (x ∷ xs) ys a b d = (
  (λ m. elim (In-append_cases x xs ys m) [ inl k ↦ a.0 k | inr k ↦ d x (inl refl) k ]),
  Alone-append xs ys a.1 b (λ y m n. d y (inr m) n),
)

In-take : (x : String) (n : ℕ) (xs : List String) → In x (take n xs) → In x xs
In-take x zero xs m = absurd m
In-take x (suc n) [] m = absurd m
In-take x (suc n) (y ∷ xs) (inl e) = inl e
In-take x (suc n) (y ∷ xs) (inr m) = inr (In-take x n xs m)

take-Alone : (n : ℕ) (xs : List String) → Alone xs → Alone (take n xs)
take-Alone zero xs a = tt
take-Alone (suc n) [] a = tt
take-Alone (suc n) (x ∷ xs) a = ((λ m. a.0 (In-take x n xs m)), take-Alone n xs a.1)

In-unwanted :
    (wanted : List String) (x : String) (ds : List String)
    → In x (unwanted wanted ds)
    → In x ds × (has_text x wanted ≡ false)
In-unwanted wanted x [] m = absurd m
In-unwanted wanted x (d ∷ ds) m = go (has_text d wanted) refl m (λ k. In-unwanted wanted x ds k)
  where
    go :
        (b : Bool)
        → has_text d wanted ≡ b
        → In x (if b then unwanted wanted ds else d ∷ unwanted wanted ds)
        → (In x (unwanted wanted ds) → In x ds × (has_text x wanted ≡ false))
        → In x (d ∷ ds) × (has_text x wanted ≡ false)
    go true e k ih = let (p, q) = ih k in (inr p, q)
    go false e (inl k) ih = (inl k, ap (λ y. has_text y wanted) k ∙ e)
    go false e (inr k) ih = let (p, q) = ih k in (inr p, q)

unwanted-Alone : (wanted ds : List String) → Alone ds → Alone (unwanted wanted ds)
unwanted-Alone wanted [] a = tt
unwanted-Alone wanted (d ∷ ds) a = elim (Bool-cases (has_text d wanted)) [
  | inl t ↦ rw t (unwanted-Alone wanted ds a.1)
  | inr f ↦ rw f ((λ m. a.0 (In-unwanted wanted d ds m).0), unwanted-Alone wanted ds a.1)
]

probed-Alone : (wanted : List String) → Alone wanted → Alone (probed wanted)
unfolding probed
probed-Alone wanted a =
    Alone-append wanted (take (2 - length wanted) (unwanted wanted dummies)) a
      (take-Alone (2 - length wanted) (unwanted wanted dummies)
        (unwanted-Alone wanted dummies (apart, (λ m. m, tt))))
      (λ x m n.
        clash ((has_text_iff x wanted).1 m)
          (In-unwanted wanted x dummies
            (In-take x (2 - length wanted) (unwanted wanted dummies) n)).1)
  where
    dummies : List String
    dummies = "0xffffffff" ∷ "0xfffffffe" ∷ []

    apart : In {A = String} "0xffffffff" ("0xfffffffe" ∷ []) → ⊥
    apart (inl e) = let r = (string_eq.same_iff "0xffffffff" "0xfffffffe").1 e in cc
    apart (inr m) = m

    clash : {b : Bool} → b ≡ true → b ≡ false → ⊥
    clash p q = cc

starts : Inverse start_search
unfolding get
starts = record {
  claimed = λ key s e. cc;
  found_claims = λ s key e. cc;
  open_queue = λ s m. absurd m;
  alone = tt;
}

-- `fetch` of different selectors ends, where the dispatches read only the slots of a list no longer
-- than the bound, and the relay gives a value for each slot that it is asked for: either it gives each
-- wanted selector, in order, a slot that no other of them has, or it fails with one of the wanted
-- selectors.
pub fetch-Answered :
    (relay : Relay) (bound : ℕ) (wanted all : List String)
    → Within relay all
    → Serves relay
    → length all ≤ bound
    → Alone wanted
    → Answered wanted (fetch relay bound wanted)
unfolding fetch get
fetch-Answered relay bound wanted all within serves b a =
    let known_first : Slots = [] in
    let ((known, w), e) =
      search-Ended relay all within serves bound (bound + 2) [] (probed wanted) start_search b
        (omega (arith, b, count-length (λ x. has x known_first) all)) in
    subst
      (λ o. Answered wanted (elim o as (λ _. Fetched) [
        | none ↦ stuck
        | some (k, v) ↦
            routes_of wanted v.found (fetch_slots relay (missing_values wanted v.found k) k)
      ]))
      (sym e)
      (Part-Answered wanted w.found _ (
        routes_of-Part wanted w (fetch_slots relay (missing_values wanted w.found known) known) a
          (search-Inverse relay bound (bound + 2) [] (probed wanted) start_search known w starts
            ((λ s m. refl), probed-Alone wanted a) e)
          (λ s slot m p. elim (In-missing_values wanted w.found known s slot m p) [
            | inl n ↦
                fetch_slots-has relay (missing_values wanted w.found known) known slot serves n
            | inr h ↦ fetch_slots-kept relay (missing_values wanted w.found known) known slot h
          ])))
