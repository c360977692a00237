-- ===== src/Storage/Found.antt =====
-- storage.py: the slots that `fetch` finds are the selectors' own.
use josuke.Prelude.{
  ℕ, zero, suc, ◌+◌, ◌≡◌, refl, sym, ap, ◌∙◌, subst, ◌⊎◌, inl, inr, Bool, true, false, ◌||◌,
  Bool-cases, Option, none, some, String, List, [], ◌∷◌, length, if◌then◌else◌, In, arith, ◌↔◌,
}
use josuke.Prelude.Eq.{◌==◌, string_eq}
use josuke.Prelude.Dict.{Dict, get, has, some_injective, has-get}
use josuke.Storage.Trace.{has_text, add_text}
use josuke.Storage.Walk.{
  Slots, Relay, Search, drain, still_open, backwards, fetch_slots, begin_round, search, Fetched,
  fetched, unrouted, key_error, stuck, keep_route, routes_of,
}
use josuke.Storage.Routes.{Alone, Inverse, drain-Inverse}

pub has_text_iff : (x : String) (ys : List String) → (has_text x ys ≡ true) ↔ In x ys
has_text_iff x [] = (λ h. cc, λ m. absurd m)
has_text_iff x (y ∷ ys) = let ih = has_text_iff x ys in (λ h. there ih h, λ m. back ih m)
  where
    there : (has_text x ys ≡ true) ↔ In x ys → has_text x (y ∷ ys) ≡ true → In x (y ∷ ys)
    there ih h = elim (Bool-cases (y == x)) [
      | inl t ↦ inl (sym ((string_eq.same_iff y x).0 t))
      | inr f ↦ inr (ih.0 (ground (arith, h, f)))
    ]

    back : (has_text x ys ≡ true) ↔ In x ys → In x (y ∷ ys) → has_text x (y ∷ ys) ≡ true
    back ih (inl e) = let t = (string_eq.same_iff y x).1 (sym e) in ground (arith, t)
    back ih (inr m) = let t = ih.1 m in ground (arith, t)

In-backwards_cases :
    (s : String) (selectors out : List String)
    → In s (backwards selectors out)
    → In s selectors ⊎ In s out
unfolding backwards
In-backwards_cases s [] out m = inr m
In-backwards_cases s (x ∷ selectors) out m = elim (In-backwards_cases s selectors (x ∷ out) m) [
  | inl k ↦ inl (inr k)
  | inr k ↦ front k
]
  where
    front : In s (x ∷ out) → In s (x ∷ selectors) ⊎ In s out
    front (inl e) = inl (inl e)
    front (inr k) = inr k

pub backwards-Alone :
    (selectors out : List String)
    → Alone selectors
    → Alone out
    → ((s : String) → In s selectors → In s out → ⊥)
    → Alone (backwards selectors out)
unfolding backwards
backwards-Alone [] out a b d = b
backwards-Alone (x ∷ selectors) out a b d =
    backwards-Alone selectors (x ∷ out) a.1 ((λ m. d x (inl refl) m), b) (λ s m n. apart s m n)
  where
    apart : (s : String) → In s selectors → In s (x ∷ out) → ⊥
    apart s m (inl e) = a.0 (subst (λ y. In y selectors) e m)
    apart s m (inr n) = d s (inr m) n

-- The selectors that are still open: they have no slot, and stand once each.
abbrev pub Open : Search → List String → Type 0
Open w pending = ((s : String) → In s pending → get s w.found ≡ none) × Alone pending

In-still_open_cases :
    (found : Dict String String) (s : String) (waiting seen : List String)
    → In s (still_open found waiting seen)
    → (has_text s seen ≡ false) × (has s found ≡ false)
unfolding still_open
In-still_open_cases found s [] seen m = absurd m
In-still_open_cases found s (x ∷ waiting) seen m =
    go (has_text x seen || has x found) refl m
      (λ k. In-still_open_cases found s waiting (add_text x seen) k)
  where
    fewer : has_text s (add_text x seen) ≡ false → has_text s seen ≡ false
    fewer h = ground (arith, h)

    go :
        (b : Bool)
        → (has_text x seen || has x found) ≡ b
        → In s (
            if b
            then still_open found waiting (add_text x seen)
            else x ∷ still_open found waiting (add_text x seen))
        → (In s (still_open found waiting (add_text x seen))
            → (has_text s (add_text x seen) ≡ false) × (has s found ≡ false))
        → (has_text s seen ≡ false) × (has s found ≡ false)
    go true e k ih = let (p, q) = ih k in (fewer p, q)
    go false e (inl k) ih = (
      ap (λ y. has_text y seen) k ∙ ground (arith, e),
      ap (λ y. has y found) k ∙ ground (arith, e),
    )
    go false e (inr k) ih = let (p, q) = ih k in (fewer p, q)

still_open-Alone :
    (found : Dict String String) (waiting seen : List String)
    → Alone (still_open found waiting seen)
unfolding still_open
still_open-Alone found [] seen = tt
still_open-Alone found (x ∷ waiting) seen = elim (Bool-cases (has_text x seen || has x found)) [
  | inl t ↦ rw t (still_open-Alone found waiting (add_text x seen))
  | inr f ↦ rw f (
    (λ m. clash (In-still_open_cases found x waiting (add_text x seen) m).0 added),
    still_open-Alone found waiting (add_text x seen),
  )
]
  where
    clash : {b : Bool} → b ≡ false → b ≡ true → ⊥
    clash p q = cc

    added : has_text x (add_text x seen) ≡ true
    added = let r = (string_eq.same_iff x x).1 refl in ground (arith, r)

get-has-none : (s : String) (d : Dict String String) → has s d ≡ false → get s d ≡ none
unfolding get
get-has-none s [] h = refl
get-has-none s ((j, v) ∷ d) h = ground (arith, h, get-has-none s d)

-- At the end of the search the slots found are the claims' inverse.
pub search-Inverse :
    (relay : Relay) (bound fuel : ℕ) (known : Slots) (pending : List String) (w : Search)
    (known' : Slots) (v : Search)
    → Inverse w
    → Open w pending
    → search relay bound fuel known pending w ≡ some (known', v)
    → Inverse v
unfolding search
search-Inverse relay bound zero known pending w known' v i o e = cc
search-Inverse relay bound (suc fuel) known [] w known' v i o e =
    subst Inverse (ap (λ (x : Slots × Search). x.1) (some_injective e)) i
search-Inverse relay bound (suc fuel) known (s ∷ pending) w known' v i o e =
    go (λ k p x j q. search-Inverse relay bound fuel k p x known' v j q)
      (drain relay known (length (backwards (s ∷ pending) []) + bound + 1)
        (begin_round (s ∷ pending) w))
      refl e
  where
    begun : Inverse (begin_round (s ∷ pending) w)
    begun = record {
      claimed = i.claimed;
      found_claims = i.found_claims;
      open_queue = λ t m. elim (In-backwards_cases t (s ∷ pending) [] m) [
        | inl k ↦ o.0 t k
        | inr k ↦ absurd k
      ];
      alone = backwards-Alone (s ∷ pending) [] o.1 tt (λ t m n. n);
    }

    opened : (x : Search) → Open x (still_open x.found x.waiting [])
    opened x = (
      λ t m. get-has-none t x.found (In-still_open_cases x.found t x.waiting [] m).1,
      still_open-Alone x.found x.waiting [],
    )

    go :
        ((k : Slots) (p : List String) (x : Search)
          → Inverse x
          → Open x p
          → search relay bound fuel k p x ≡ some (known', v)
          → Inverse v)
        → (r : Option Search)
        → drain relay known
            (length (backwards (s ∷ pending) []) + bound + 1)
            (begin_round (s ∷ pending) w)
          ≡ r
        → (elim r as (λ _. Option (Slots × Search)) [
          | none ↦ none
          | some x ↦
              search relay bound fuel
                (fetch_slots relay x.needs known)
                (still_open x.found x.waiting [])
                x
        ])
          ≡ some (known', v)
        → Inverse v
    go ih none q k = cc
    go ih (some x) q k =
        ih (fetch_slots relay x.needs known) (still_open x.found x.waiting []) x
          (drain-Inverse relay known _ (begin_round (s ∷ pending) w) x begun q) (opened x) k

-- The selectors, with a slot of its own for each.
abbrev pub Routed : List String → List (String × String × String) → Type 0
Routed [] [] = Unit
Routed [] (r ∷ routes) = ⊥
Routed (s ∷ wanted) [] = ⊥
Routed (s ∷ wanted) ((t, slot, value) ∷ routes) = (t ≡ s) × Routed wanted routes

abbrev pub slots : List (String × String × String) → List String
slots [] = []
slots ((t, slot, value) ∷ routes) = slot ∷ slots routes

-- What `fetch` comes to.
abbrev pub Part : List String → Dict String String → Fetched → Type 0
Part wanted found (fetched routes) =
    Routed wanted routes
    × Alone (slots routes)
    × ((slot : String)
        → In slot (slots routes)
        → (s : String) × In s wanted × (get s found ≡ some slot))
Part wanted found (unrouted s) = In s wanted × (get s found ≡ none)
Part wanted found key_error = ⊥
Part wanted found stuck = ⊥

pub routes_of-Part :
    (wanted : List String) (w : Search) (known : Slots)
    → Alone wanted
    → Inverse w
    → ((s slot : String) → In s wanted → get s w.found ≡ some slot → has slot known ≡ true)
    → Part wanted w.found (routes_of wanted w.found known)
unfolding routes_of keep_route
routes_of-Part [] w known a i g = (tt, tt, λ slot m. absurd m)
routes_of-Part (s ∷ wanted) w known a i g =
    one (get s w.found) refl (routes_of wanted w.found known)
      (routes_of-Part wanted w known a.1 i (λ t slot m. g t slot (inr m)))
  where
    own :
        (slot : String)
        → get s w.found ≡ some slot
        → (t : String) → In t wanted
        → get t w.found ≡ some slot
        → ⊥
    own slot p t m q = a.0 (
        subst (λ x. In x wanted)
          (some_injective (sym (i.found_claims t slot q) ∙ i.found_claims s slot p)) m)

    none_clash : {o : Option String} → {x : String} → o ≡ none → o ≡ some x → ⊥
    none_clash p q = cc

    keep :
        (slot value : String)
        → get s w.found ≡ some slot
        → (rest : Fetched) → Part wanted w.found rest
        → Part (s ∷ wanted) w.found (keep_route s slot value rest)
    keep slot value p (fetched routes) (h, k, l) =
        ((refl, h), ((λ m. let (t, n, q) = l slot m in own slot p t n q), k), λ x m. here x m)
      where
        here :
            (x : String)
            → In x (slot ∷ slots routes)
            → (t : String) × In t (s ∷ wanted) × (get t w.found ≡ some x)
        here x (inl e) = (s, inl refl, p ∙ ap some (sym e))
        here x (inr m) = let (t, n, q) = l x m in (t, inr n, q)
    keep slot value p (unrouted t) (m, n) = (inr m, n)
    keep slot value p key_error h = h
    keep slot value p stuck h = h

    two :
        (slot : String)
        → get s w.found ≡ some slot
        → (o : Option String) → get slot known ≡ o
        → (rest : Fetched) → Part wanted w.found rest
        → Part (s ∷ wanted) w.found (elim o as (λ _. Fetched) [
          | none ↦ key_error
          | some value ↦ keep_route s slot value rest
        ])
    two slot p none n rest h = none_clash n (has-get slot known (g s slot (inl refl) p)).1
    two slot p (some value) n rest h = keep slot value p rest h

    one :
        (o : Option String)
        → get s w.found ≡ o
        → (rest : Fetched) → Part wanted w.found rest
        → Part (s ∷ wanted) w.found (elim o as (λ _. Fetched) [
          | none ↦ unrouted s
          | some slot ↦ (elim (get slot known) as (λ _. Fetched) [
            | none ↦ key_error
            | some value ↦ keep_route s slot value rest
          ])
        ])
    one none p rest h = (inl refl, p)
    one (some slot) p rest h = two slot p (get slot known) refl rest h
