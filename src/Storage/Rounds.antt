-- ===== src/Storage/Rounds.antt =====
-- storage.py: each pass of the search spends a part of a bound.
use josuke.Prelude.{
  ℕ, zero, suc, ◌+◌, ◌≤◌, ◌<◌, ◌≡◌, refl, sym, ap, ◌∙◌, subst, ◌⊎◌, inl, inr, Bool, true, false,
  ◌&&◌, ◌||◌, not, Bool-cases, Option, none, some, String, List, [], ◌∷◌, length, if◌then◌else◌, In,
  arith,
}
use josuke.Prelude.Eq.{string_eq}
use josuke.Prelude.Dict.{get, put, has}
use josuke.Storage.Trace.{has_text, add_text, steered_by}
use josuke.Storage.Walk.{
  Outcome, Slots, Relay, Search, has_failed, reads, without, unknown_of, add_all, wait, Try, stop,
  onward, pass_by, claim, is_empty, settle, try_key, walk, drain,
}
use josuke.Storage.Routes.{both_claim}
use josuke.Storage.Ends.{
  count, count_less, Among, Within, In-slots_read, In-steered_by, In-without, In-add_text,
}

module _ (slots : List String) (known : Slots) where
  -- What is needed is not known, and selectors wait only where something is needed.
  abbrev pub Fresh : Search → Type 0
  Fresh w =
      ((x : String) → In x w.needs → In x slots × (has x known ≡ false))
      × (is_empty w.needs ≡ true → w.waiting ≡ [])

  -- The selectors in the queue, and the slots that may yet prove to be shared.
  abbrev pub spent : Search → ℕ
  spent w = length w.queue + count (λ x. has_text x w.shared) slots

  abbrev Spends : Search → Try → Type 0
  Spends w (stop v) = Fresh v × (spent v ≤ spent w)
  Spends w (onward v) = Fresh v × (spent v ≤ spent w)

  In-add_all :
      (x : String) (more needs : List String) → In x (add_all more needs) → In x more ⊎ In x needs
  In-add_all x [] needs m = inr m
  In-add_all x (y ∷ more) needs m = elim (In-add_all x more (add_text y needs) m) [
    | inl k ↦ inl (inr k)
    | inr k ↦ front (In-add_text x y needs k)
  ]
    where
      front : In x (y ∷ needs) → In x (y ∷ more) ⊎ In x needs
      front (inl e) = inl (inl e)
      front (inr k) = inr k

  add_text-some : (y : String) (needs : List String) → is_empty (add_text y needs) ≡ false
  add_text-some y [] = refl
  add_text-some y (x ∷ needs) = ground arith

  add_all-some :
      (more needs : List String) → is_empty needs ≡ false → is_empty (add_all more needs) ≡ false
  add_all-some [] needs h = h
  add_all-some (y ∷ more) needs h = add_all-some more (add_text y needs) (add_text-some y needs)

  wait-Fresh :
      (s : String) (more : List String) (w : Search)
      → is_empty more ≡ false
      → ((x : String) → In x more → In x slots × (has x known ≡ false))
      → Fresh w
      → Fresh (wait s more w)
  wait-Fresh s [] w e h f = cc
  wait-Fresh s (y ∷ more) w e h f = (
    λ x m. elim (In-add_all x (y ∷ more) w.needs m) [ inl k ↦ h x k | inr k ↦ f.0 x k ],
    λ k. absurd (clash (add_all-some more (add_text y w.needs) (add_text-some y w.needs)) k),
  )
    where
      clash : {b : Bool} → b ≡ false → b ≡ true → ⊥
      clash p q = cc

  pass_by-Spends :
      (s key : String) (w v : Search)
      → In key slots
      → Fresh w
      → spent w ≤ spent v
      → Spends v (pass_by known s key w)
  unfolding pass_by
  pass_by-Spends s key w v m f l = elim (Bool-cases (has key known)) [
    | inl t ↦ rw t (f, l)
    | inr e ↦ rw e (wait-Fresh s (key ∷ []) w refl (λ x n. one e x n) f, l)
  ]
    where
      one :
          has key known ≡ false
          → (x : String) → In x (key ∷ [])
          → In x slots × (has x known ≡ false)
      one e x (inl p) = (subst (λ y. In y slots) (sym p) m, ap (λ y. has y known) p ∙ e)
      one e x (inr n) = absurd n

  claim-Spends :
      (s key : String) (w : Search)
      → In key slots
      → has_text key w.shared ≡ false
      → Fresh w
      → Spends w (claim known s key w)
  unfolding claim
  claim-Spends s key w m h f = go (get key w.claims)
    where
      less : spent (both_claim key s w) ≤ spent w
      less =
          let c =
            count_less (λ x. has_text x w.shared) (λ x. has_text x (key ∷ w.shared)) key slots
              (λ y t. ground (arith, t)) m h
              (ground (arith, (string_eq.same_iff key key).1 refl)) in
          omega (arith, c)

      go :
          (o : Option String)
          → Spends w (elim o as (λ _. Try) [
            | none ↦ stop (record w { claims = put key s w.claims; found = put s key w.found })
            | some other ↦ pass_by known s key (both_claim key other w)
          ])
      go none = (f, omega arith)
      go (some other) = pass_by-Spends s key (both_claim key other w) w m f less

  unknown-Fresh :
      (key : String) (o : Outcome)
      → Among slots o.events
      → (x : String) → In x (unknown_of known key o)
      → In x slots × (has x known ≡ false)
  unknown-Fresh key o a x m = go o.exhausted m
    where
      go :
          (b : Bool)
          → In x (if b then [] else without known key (steered_by o.events key))
          → In x slots × (has x known ≡ false)
      go true n = absurd n
      go false n =
          let (p, q) = In-without known key x (steered_by o.events key) n in
          (In-steered_by slots x key o.events a p, q)

  settle-Spends :
      (s key : String) (o : Outcome) (w : Search)
      → Among slots o.events
      → In key slots
      → has_text key w.shared ≡ false
      → Fresh w
      → Spends w (settle known s key o w)
  unfolding settle
  settle-Spends s key o w a m h f = elim (Bool-cases (is_empty (unknown_of known key o))) [
    | inr t ↦
        rw t (wait-Fresh s (unknown_of known key o) w t (unknown-Fresh key o a) f, omega arith)
    | inl e ↦ elim (Bool-cases (o.reached && not o.exhausted)) [
      | inl t ↦ rw (e, t) (claim-Spends s key w m h f)
      | inr g ↦
          rw (e, g)
            (pass_by-Spends s key (record w { failed = (s, key) ∷ w.failed }) w m f (omega arith))
    ]
  ]

  module _ (relay : Relay) (within : Within relay slots) where
    try_key-Spends :
        (s key : String) (w : Search)
        → In key slots
        → Fresh w
        → Spends w (try_key relay known s key w)
    unfolding try_key
    try_key-Spends s key w m f =
        elim (Bool-cases (has_text key w.shared || has_failed s key w.failed)) [
          | inl t ↦ rw t (pass_by-Spends s key w w m f (omega arith))
          | inr e ↦ rw e (
              settle-Spends s key (relay.call s (put key relay.routed known)) w
                (within s (put key relay.routed known)) m (ground (arith, e)) f)
        ]

    walk-Spends :
        (s : String) (keys : List String) (w : Search)
        → ((x : String) → In x keys → In x slots)
        → Fresh w
        → Fresh (walk relay known s keys w) × (spent (walk relay known s keys w) ≤ spent w)
    unfolding walk
    walk-Spends s [] w h f = (f, omega arith)
    walk-Spends s (key ∷ keys) w h f =
        go (λ v. walk-Spends s keys v (λ x m. h x (inr m))) (try_key relay known s key w)
          (try_key-Spends s key w (h key (inl refl)) f)
      where
        go :
            ((v : Search)
              → Fresh v
              → Fresh (walk relay known s keys v) × (spent (walk relay known s keys v) ≤ spent v))
            → (t : Try) → Spends w t
            → Fresh (elim t as (λ _. Search) [ stop v ↦ v | onward v ↦ walk relay known s keys v ])
              × (spent
                    (elim t as (λ _. Search) [ stop v ↦ v | onward v ↦ walk relay known s keys v ])
                  ≤ spent w)
        go ih (stop v) k = k
        go ih (onward v) k = let (p, q) = ih v k.0 in (p, omega (arith, q, k.1))

    reads-Among : (s x : String) → In x (reads relay known s) → In x slots
    unfolding reads
    reads-Among s x m = In-slots_read slots x (relay.call s known).events [] (within s known) m

    -- With fuel for what may be spent, the queue is emptied.
    pub drain-Fresh :
        (fuel : ℕ) (w : Search)
        → Fresh w
        → spent w < fuel
        → (v : Search) × (drain relay known fuel w ≡ some v) × Fresh v
    unfolding drain
    drain-Fresh zero w f l = absurd (omega (arith, l))
    drain-Fresh (suc fuel) w f l = go (λ v. drain-Fresh fuel v) w.queue refl
      where
        go :
            ((v : Search)
              → Fresh v
              → spent v < fuel
              → (u : Search) × (drain relay known fuel v ≡ some u) × Fresh u)
            → (q : List String) → w.queue ≡ q
            → (v : Search) × ((elim q as (λ _. Option Search) [
              | [] ↦ some w
              | s ∷ queue ↦
                  drain relay known fuel
                    (walk relay known s (reads relay known s) (record w { queue = queue }))
            ])
                ≡ some v)
              × Fresh v
        go ih [] e = (w, refl, f)
        go ih (s ∷ queue) e =
            let (p, q) =
              walk-Spends s (reads relay known s) (record w { queue = queue })
                (λ x m. reads-Among s x m) f in
            ih (walk relay known s (reads relay known s) (record w { queue = queue })) p
              (omega (arith, q, l, ap length e))
