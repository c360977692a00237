-- ===== src/Storage/Routes.antt =====
-- storage.py: the slots found and the claims to slots are inverse to each other throughout the search.
use josuke.Prelude.{
  ℕ, zero, suc, ◌≡◌, refl, sym, ap, ◌∙◌, subst, inl, inr, false, ◌&&◌, ◌||◌, not, Bool-cases,
  Option, none, some, String, List, [], ◌∷◌, if◌then◌else◌, if_cases, In, arith,
}
use josuke.Prelude.Eq.{◌==◌, string_eq}
use josuke.Prelude.Dict.{get, put, has, remove, get-put, get-remove, some_injective}
use josuke.Storage.Trace.{has_text}
use josuke.Storage.Walk.{
  Outcome, Slots, Relay, Search, has_failed, reads, unknown_of, wait, Try, stop, onward, pass_by,
  claim, is_empty, settle, try_key, walk, drain,
}

abbrev pub Alone : List String → Type 0
Alone [] = Unit
Alone (s ∷ queue) = (In s queue → ⊥) × Alone queue

-- A slot is claimed by a selector exactly where it was found for it, and no selector that waits in the
-- queue has a slot.
pub record Inverse (w : Search) : Type 0 where
  pub claimed : (key s : String) → get key w.claims ≡ some s → get s w.found ≡ some key
  pub found_claims : (s key : String) → get s w.found ≡ some key → get key w.claims ≡ some s
  pub open_queue : (s : String) → In s w.queue → get s w.found ≡ none
  pub alone : Alone w.queue

-- The selector that is walked has no slot, and does not wait.
abbrev pub Walked : String → Search → Type 0
Walked s w = (get s w.found ≡ none) × (In s w.queue → ⊥)

none-some : {o : Option String} {x : String} → o ≡ none → o ≡ some x → ⊥
none-some p q = cc

claimed_new :
    (w : Search) (s key : String)
    → Inverse w
    → Walked s w
    → get key w.claims ≡ none
    → Inverse (record w { claims = put key s w.claims; found = put s key w.found })
claimed_new w s key i h n = record {
  claimed = λ k t e. fwd k t (sym (get-put key k s w.claims) ∙ e);
  found_claims = λ t k e. bwd t k (sym (get-put s t key w.found) ∙ e);
  open_queue = λ t m. waits t m;
  alone = i.alone;
}
  where
    fwd :
        (k t : String)
        → (if key == k then some s else get k w.claims) ≡ some t
        → get t (put s key w.found) ≡ some k
    fwd k t e = elim (if_cases (key == k) (some s) (get k w.claims) e) [
      | inl (p, q) ↦
          get-put s t key w.found
          ∙ rw ((string_eq.same_iff s t).1 (some_injective q))
              (ap some ((string_eq.same_iff key k).0 p))
      | inr (p, q) ↦ elim (Bool-cases (s == t)) [
        | inl u ↦ absurd (
            none-some (subst (λ x. get x w.found ≡ none) ((string_eq.same_iff s t).0 u) h.0)
              (i.claimed k t q))
        | inr u ↦ get-put s t key w.found ∙ rw u (i.claimed k t q)
      ]
    ]

    bwd :
        (t k : String)
        → (if s == t then some key else get t w.found) ≡ some k
        → get k (put key s w.claims) ≡ some t
    bwd t k e = elim (if_cases (s == t) (some key) (get t w.found) e) [
      | inl (p, q) ↦
          get-put key k s w.claims
          ∙ rw ((string_eq.same_iff key k).1 (some_injective q))
              (ap some ((string_eq.same_iff s t).0 p))
      | inr (p, q) ↦ elim (Bool-cases (key == k)) [
        | inl u ↦ absurd (
            none-some (subst (λ x. get x w.claims ≡ none) ((string_eq.same_iff key k).0 u) n)
              (i.found_claims t k q))
        | inr u ↦ get-put key k s w.claims ∙ rw u (i.found_claims t k q)
      ]
    ]

    waits : (t : String) → In t w.queue → get t (put s key w.found) ≡ none
    waits t m = elim (Bool-cases (s == t)) [
      | inl u ↦ absurd (h.1 (subst (λ x. In x w.queue) (sym ((string_eq.same_iff s t).0 u)) m))
      | inr u ↦ get-put s t key w.found ∙ rw u (i.open_queue t m)
    ]

-- The search after a second selector claims the slot.
abbrev pub both_claim : String → String → Search → Search
both_claim key other w = record w {
  shared = key ∷ w.shared;
  claims = remove key w.claims;
  found = remove other w.found;
  queue = other ∷ w.queue;
}

claimed_twice :
    (w : Search) (other key : String)
    → Inverse w
    → get key w.claims ≡ some other
    → Inverse (both_claim key other w)
claimed_twice w other key i n = record {
  claimed = λ k t e. fwd k t (sym (get-remove key k w.claims) ∙ e);
  found_claims = λ t k e. bwd t k (sym (get-remove other t w.found) ∙ e);
  open_queue = λ t m. waits t m;
  alone = ((λ m. none-some (i.open_queue other m) has_slot), i.alone);
}
  where
    has_slot : get other w.found ≡ some key
    has_slot = i.claimed key other n

    fwd :
        (k t : String)
        → (if key == k then none else get k w.claims) ≡ some t
        → get t (remove other w.found) ≡ some k
    fwd k t e = elim (if_cases (key == k) none (get k w.claims) e) [
      | inl (p, q) ↦ cc
      | inr (p, q) ↦ elim (Bool-cases (other == t)) [
        | inl u ↦ absurd (
            differ p (
              some_injective (
                sym has_slot
                ∙ subst (λ x. get x w.found ≡ some k) (sym ((string_eq.same_iff other t).0 u))
                    (i.claimed k t q))))
        | inr u ↦ get-remove other t w.found ∙ rw u (i.claimed k t q)
      ]
    ]
      where
        differ : key == k ≡ false → key ≡ k → ⊥
        differ p q = let r = (string_eq.same_iff key k).1 q in cc

    bwd :
        (t k : String)
        → (if other == t then none else get t w.found) ≡ some k
        → get k (remove key w.claims) ≡ some t
    bwd t k e = elim (if_cases (other == t) none (get t w.found) e) [
      | inl (p, q) ↦ cc
      | inr (p, q) ↦ elim (Bool-cases (key == k)) [
        | inl u ↦ absurd (
            differ p (
              some_injective (
                sym n
                ∙ subst (λ x. get x w.claims ≡ some t) (sym ((string_eq.same_iff key k).0 u))
                    (i.found_claims t k q))))
        | inr u ↦ get-remove key k w.claims ∙ rw u (i.found_claims t k q)
      ]
    ]
      where
        differ : other == t ≡ false → other ≡ t → ⊥
        differ p q = let r = (string_eq.same_iff other t).1 q in cc

    waits : (t : String) → In t (other ∷ w.queue) → get t (remove other w.found) ≡ none
    waits t m = elim (Bool-cases (other == t)) [
      | inl u ↦ get-remove other t w.found ∙ rw u refl
      | inr u ↦ get-remove other t w.found ∙ rw u (later u m)
    ]
      where
        later : other == t ≡ false → In t (other ∷ w.queue) → get t w.found ≡ none
        later u (inl e) = let r = (string_eq.same_iff other t).1 (sym e) in cc
        later u (inr k) = i.open_queue t k

abbrev Kept : String → Try → Type 0
Kept s (stop w) = Inverse w
Kept s (onward w) = Inverse w × Walked s w

pass_by-Kept :
    (known : Slots) (s key : String) (w : Search)
    → Inverse w
    → Walked s w
    → Kept s (pass_by known s key w)
unfolding pass_by
pass_by-Kept known s key w i h = elim (Bool-cases (has key known)) [
  | inl t ↦ rw t (i, h)
  | inr f ↦ rw f (record {
    claimed = i.claimed;
    found_claims = i.found_claims;
    open_queue = i.open_queue;
    alone = i.alone;
  })
]

claim-Kept :
    (known : Slots) (s key : String) (w : Search)
    → Inverse w
    → Walked s w
    → Kept s (claim known s key w)
unfolding claim
claim-Kept known s key w i h = go (get key w.claims) refl
  where
    go :
        (o : Option String)
        → get key w.claims ≡ o
        → Kept s (elim o as (λ _. Try) [
          | none ↦ stop (record w { claims = put key s w.claims; found = put s key w.found })
          | some other ↦ pass_by known s key (both_claim key other w)
        ])
    go none n = claimed_new w s key i h n
    go (some other) n =
        pass_by-Kept known s key (both_claim key other w) (claimed_twice w other key i n)
          (open_s, waits)
      where
        open_s : get s (remove other w.found) ≡ none
        open_s = get-remove other s w.found ∙ ground (arith, h.0)

        waits : In s (other ∷ w.queue) → ⊥
        waits (inl e) = none-some (subst (λ x. get x w.found ≡ none) e h.0) (i.claimed key other n)
        waits (inr m) = h.1 m

-- Changes of what fails, is needed or waits.
pub relabel :
    (w v : Search)
    → v.claims ≡ w.claims
    → v.found ≡ w.found
    → v.queue ≡ w.queue
    → Inverse w
    → Inverse v
relabel w v p q r i = record {
  claimed = rw (p, q) i.claimed;
  found_claims = rw (p, q) i.found_claims;
  open_queue = rw (q, r) i.open_queue;
  alone = rw r i.alone;
}

settle-Kept :
    (known : Slots) (s key : String) (o : Outcome) (w : Search)
    → Inverse w
    → Walked s w
    → Kept s (settle known s key o w)
unfolding settle
settle-Kept known s key o w i h = elim (Bool-cases (not (is_empty (unknown_of known key o)))) [
  | inl t ↦ rw t (relabel w (wait s (unknown_of known key o) w) refl refl refl i)
  | inr f ↦ elim (Bool-cases (o.reached && not o.exhausted)) [
    | inl t ↦ rw (f, t) (claim-Kept known s key w i h)
    | inr g ↦
        rw (f, g)
          (pass_by-Kept known s key (record w { failed = (s, key) ∷ w.failed })
            (relabel w (record w { failed = (s, key) ∷ w.failed }) refl refl refl i) h)
  ]
]

try_key-Kept :
    (relay : Relay) (known : Slots) (s key : String) (w : Search)
    → Inverse w
    → Walked s w
    → Kept s (try_key relay known s key w)
unfolding try_key
try_key-Kept relay known s key w i h =
    elim (Bool-cases (has_text key w.shared || has_failed s key w.failed)) [
      | inl t ↦ rw t (pass_by-Kept known s key w i h)
      | inr f ↦ rw f (settle-Kept known s key (relay.call s (put key relay.routed known)) w i h)
    ]

pub walk-Inverse :
    (relay : Relay) (known : Slots) (s : String) (keys : List String) (w : Search)
    → Inverse w
    → Walked s w
    → Inverse (walk relay known s keys w)
unfolding walk
walk-Inverse relay known s [] w i h = i
walk-Inverse relay known s (key ∷ keys) w i h =
    go (λ v. walk-Inverse relay known s keys v) (try_key relay known s key w)
      (try_key-Kept relay known s key w i h)
  where
    go :
        ((v : Search) → Inverse v → Walked s v → Inverse (walk relay known s keys v))
        → (t : Try) → Kept s t
        → Inverse (elim t as (λ _. Search) [ stop v ↦ v | onward v ↦ walk relay known s keys v ])
    go ih (stop v) k = k
    go ih (onward v) k = ih v k.0 k.1

pub drain-Inverse :
    (relay : Relay) (known : Slots) (fuel : ℕ) (w v : Search)
    → Inverse w
    → drain relay known fuel w ≡ some v
    → Inverse v
unfolding drain
drain-Inverse relay known zero w v i e = cc
drain-Inverse relay known (suc fuel) w v i e =
    go (λ x j. drain-Inverse relay known fuel x v j) w.queue refl e
  where
    go :
        ((x : Search) → Inverse x → drain relay known fuel x ≡ some v → Inverse v)
        → (q : List String) → w.queue ≡ q
        → (elim q as (λ _. Option Search) [
          | [] ↦ some w
          | s ∷ queue ↦
              drain relay known fuel
                (walk relay known s (reads relay known s) (record w { queue = queue }))
        ])
          ≡ some v
        → Inverse v
    go ih [] p k = subst Inverse (some_injective k) i
    go ih (s ∷ queue) p k =
        ih (walk relay known s (reads relay known s) (record w { queue = queue }))
          (walk-Inverse relay known s (reads relay known s) (record w { queue = queue })
            (record {
              claimed = i.claimed;
              found_claims = i.found_claims;
              open_queue = λ t m. i.open_queue t (subst (In t) (sym p) (inr m));
              alone = (subst Alone p i.alone).1;
            })
            (i.open_queue s (subst (In s) (sym p) (inl refl)), (subst Alone p i.alone).0))
          k
