-- ===== src/Deployment/Claims.antt =====
-- deploy.py: the claims of the proposed facets that `build_migration` gathers before it writes an entry.
use josuke.Prelude.{
  ◌≡◌, refl, sym, subst, ap, ◌∙◌, ◌⊎◌, inl, inr, false, Option, none, some, List, [], ◌∷◌, In,
  if_cases, arith,
}
use josuke.Prelude.Eq.{bytes_beq, bytes_eq, bytes_beq_iff}
use josuke.Prelude.Bytes.{Bytes}
use josuke.Prelude.Dict.{get, put, get-put, some_injective}
use josuke.Deployment.{Selector}
use josuke.Deployment.Build.{
  Facet, Built, done, failed, ◌>>=◌, Placed, Placement, claims_otherwise, claim_selectors,
  claim_facets, BuildError, claimed_twice,
}

pub >>=-eq-done :
    {A B : Type 0} {out : B} (step : Built A) (next : A → Built B)
    → (step >>= next) ≡ done out
    → (value : A) × (step ≡ done value) × (next value ≡ done out)
>>=-eq-done (failed why) next h = cc
>>=-eq-done (done value) next h = (value, refl, h)

pub done_injective : {A : Type 0} {x y : A} → done x ≡ done y → x ≡ y
done_injective h = cc

-- A facet with a record at the address exposes the selector.
abbrev pub Claims : List (Placed × List Selector) → Bytes → Bytes → Type 0
Claims facets selector address =
    (facet : Facet) × (selectors : List Selector) × (s : Selector) × In
      ((facet, address), selectors) facets
    × In s selectors
    × (s.selector ≡ selector)

-- A dict gives the selector to a facet at the address.
abbrev pub OwnedAt : Placement → Bytes → Bytes → Type 0
OwnedAt owner selector address = (facet : Facet) × (get selector owner ≡ some (facet, address))

-- One dict gives what another does and the new claims, and nothing more.
record Adds (new : Bytes → Bytes → Type 0) (owner owner' : Placement) : Type 0 where
  stays : (k a : Bytes) → OwnedAt owner k a → OwnedAt owner' k a
  added : (k a : Bytes) → new k a → OwnedAt owner' k a
  only : (k a : Bytes) → OwnedAt owner' k a → OwnedAt owner k a ⊎ new k a

-- The two steps of a loop as one.
Adds-trans :
    (p q r : Bytes → Bytes → Type 0) (a b c : Placement)
    → ((k x : Bytes) → r k x → p k x ⊎ q k x)
    → ((k x : Bytes) → p k x ⊎ q k x → r k x)
    → Adds p a b
    → Adds q b c
    → Adds r a c
Adds-trans p q r a b c split join f g = record {
  stays = λ k x o. g.stays k x (f.stays k x o);
  added =
      λ k x n. elim (split k x n) [ inl m ↦ g.stays k x (f.added k x m) | inr m ↦ g.added k x m ];
  only = λ k x o. elim (g.only k x o) [
    | inl m ↦ elim (f.only k x m) [ inl i ↦ inl i | inr i ↦ inr (join k x (inl i)) ]
    | inr m ↦ inr (join k x (inr m))
  ];
}

same_address :
    (o : Option Placed) (facet : Facet) (a address : Bytes)
    → claims_otherwise o address ≡ false
    → o ≡ some (facet, a)
    → a ≡ address
same_address none facet a address h e = cc
same_address (some prior) facet a address h e =
    let p = (bytes_beq_iff prior.1 address).0 (ground (arith, h)) in
    ap (λ x. x.1) (some_injective (sym e)) ∙ p

put-Adds :
    (facet : Facet) (address selector : Bytes) (owner : Placement)
    → claims_otherwise (get selector owner) address ≡ false
    → Adds (λ k a. (k ≡ selector) × (a ≡ address)) owner (put selector (facet, address) owner)
put-Adds facet address selector owner h = record {
  stays = λ k a (f, g). elim (at k) [
    | inl (e, p) ↦ (
      facet,
      p
          ∙ ap (λ x. some (facet, x))
              (sym (same_address (get selector owner) f a address h (ap (λ x. get x owner) e ∙ g))),
    )
    | inr p ↦ (f, p ∙ g)
  ];
  added = λ k a (e, p). (
    facet,
    ap (λ x. get x after) e
        ∙ get-put selector selector (facet, address) owner
        ∙ rw ((bytes_beq_iff selector selector).1 refl) (ap (λ x. some (facet, x)) (sym p)),
  );
  only = λ k a (f, g). elim (at k) [
    | inl (e, p) ↦ inr (sym e, sym (ap (λ x. x.1) (some_injective (sym p ∙ g))))
    | inr p ↦ inl (f, sym p ∙ g)
  ];
}
  where
    after : Placement
    after = put selector (facet, address) owner

    at :
        (k : Bytes)
        → ((selector ≡ k) × (get k after ≡ some (facet, address))) ⊎ (get k after ≡ get k owner)
    at k =
        elim (if_cases (bytes_beq selector k) (some (facet, address)) (get k owner)
          (sym (get-put selector k (facet, address) owner))) [
            | inl (t, p) ↦ inl ((bytes_beq_iff selector k).0 t, sym p)
            | inr (_, p) ↦ inr (sym p)
          ]

-- A selector of the list, at the address.
abbrev pub Listed : List Selector → Bytes → Bytes → Bytes → Type 0
Listed selectors address k a = (s : Selector) × In s selectors × (s.selector ≡ k) × (a ≡ address)

claim_selectors-Adds :
    (facet : Facet) (address : Bytes) (selectors : List Selector) (owner owner' : Placement)
    → claim_selectors facet address selectors owner ≡ done owner'
    → Adds (Listed selectors address) owner owner'
unfolding claim_selectors
claim_selectors-Adds facet address [] owner owner' h = record {
  stays = λ k a o. subst (λ d. OwnedAt d k a) (done_injective h) o;
  added = λ k a l. absurd l.1;
  only = λ k a o. inl (subst (λ d. OwnedAt d k a) (sym (done_injective h)) o);
}
claim_selectors-Adds facet address (s ∷ rest) owner owner' h =
    elim (if_cases (claims_otherwise (get s.selector owner) address)
      (failed (claimed_twice s.selector))
      (claim_selectors facet address rest (put s.selector (facet, address) owner)) h) [
        | inl (_, q) ↦ absurd (clash q)
        | inr (e, q) ↦
            Adds-trans (λ k a. (k ≡ s.selector) × (a ≡ address)) (Listed rest address)
              (Listed (s ∷ rest) address) owner (put s.selector (facet, address) owner) owner' split
              join (put-Adds facet address s.selector owner e)
              (claim_selectors-Adds facet address rest (put s.selector (facet, address) owner)
                owner' q)
      ]
  where
    clash : {why : BuildError} → failed why ≡ done owner' → ⊥
    clash e = cc

    split :
        (k a : Bytes)
        → Listed (s ∷ rest) address k a
        → ((k ≡ s.selector) × (a ≡ address)) ⊎ Listed rest address k a
    split k a (t, inl e, p, q) = inl (sym p ∙ ap (λ x. x.selector) e, q)
    split k a (t, inr m, p, q) = inr (t, m, p, q)

    join :
        (k a : Bytes)
        → ((k ≡ s.selector) × (a ≡ address)) ⊎ Listed rest address k a
        → Listed (s ∷ rest) address k a
    join k a (inl (p, q)) = (s, inl refl, sym p, q)
    join k a (inr (t, m, p, q)) = (t, inr m, p, q)

claim_facets-Adds :
    (facets : List (Placed × List Selector)) (owner owner' : Placement)
    → claim_facets facets owner ≡ done owner'
    → Adds (Claims facets) owner owner'
unfolding claim_facets
claim_facets-Adds [] owner owner' h = record {
  stays = λ k a o. subst (λ d. OwnedAt d k a) (done_injective h) o;
  added = λ k a (f, ss, s, m, r, e). absurd m;
  only = λ k a o. inl (subst (λ d. OwnedAt d k a) (sym (done_injective h)) o);
}
claim_facets-Adds (((facet, address), selectors) ∷ rest) owner owner' h =
    let (next, p, q) = >>=-eq-done (claim_selectors facet address selectors owner) _ h in
    Adds-trans (Listed selectors address) (Claims rest)
      (Claims (((facet, address), selectors) ∷ rest)) owner next owner' split join
      (claim_selectors-Adds facet address selectors owner next p)
      (claim_facets-Adds rest next owner' q)
  where
    split :
        (k a : Bytes)
        → Claims (((facet, address), selectors) ∷ rest) k a
        → Listed selectors address k a ⊎ Claims rest k a
    split k a (f, ss, s, inl e, m, p) =
        inl (s, subst (In s) (ap (λ x. x.1) e) m, p, ap (λ x. x.0.1) e)
    split k a (f, ss, s, inr n, m, p) = inr (f, ss, s, n, m, p)

    join :
        (k a : Bytes)
        → Listed selectors address k a ⊎ Claims rest k a
        → Claims (((facet, address), selectors) ∷ rest) k a
    join k a (inl (s, m, p, q)) =
        (facet, selectors, s, inl (ap (λ x. ((facet, x), selectors)) q), m, p)
    join k a (inr (f, ss, s, n, m, p)) = (f, ss, s, inr n, m, p)

-- Where the loop over the facets ends without an error, the dict gives every selector that is claimed
-- to a facet at the address of each of its claims, and no other selector.
pub claim_facets-OwnedAt :
    (facets : List (Placed × List Selector)) (owner : Placement)
    → claim_facets facets [] ≡ done owner
    → (selector address : Bytes)
    → (Claims facets selector address → OwnedAt owner selector address)
      × (OwnedAt owner selector address → Claims facets selector address)
unfolding get
claim_facets-OwnedAt facets owner h selector address =
    let c = claim_facets-Adds facets [] owner h in
    (
      c.added selector address,
      λ o. elim (c.only selector address o) [ inl n ↦ absurd (nothing n) | inr m ↦ m ],
    )
  where
    nothing : OwnedAt [] selector address → ⊥
    nothing (f, e) = cc
