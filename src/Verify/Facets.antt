-- ===== src/Verify/Facets.antt =====
-- verify.py: what `verify_facets` establishes when it reports nothing.
use josuke.Prelude.{
  ℕ, ◌≡◌, refl, sym, ap, subst, ◌↔◌, Bool, true, false, Option, none, some, String, List, [], ◌∷◌,
  ◌++◌, inl, inr, Bool-cases, if_cases,
}
use josuke.Prelude.Eq.{bytes_beq, bytes_beq_iff}
use josuke.Prelude.Bytes.{Bytes}
use josuke.Prelude.Dict.{Dict, some_injective}
use josuke.Deployment.{FacetRecord}
use josuke.Verify.{
  World, Failure, create_address, truthy, option_beq, unless, verify_initcode, verify_creation,
  verify_address, verify_runtime, onchain_hash, verify_replay, verify_facet, verify_facets,
  creates_other, onchain_differs, initcode_differs,
}

-- Where the constructor ran at a recorded nonce, that creation made the recorded address.
abbrev pub Created : (Bytes → Bytes) → Option ℕ → Option Bytes → Option Bytes → Type 0
Created keccak none sender address = Unit
Created keccak (some nonce) none address = ⊥
Created keccak (some nonce) (some sender) none = Unit
Created keccak (some nonce) (some sender) (some address) =
    create_address keccak sender nonce ≡ address

-- The recorded hash and the chain's code are those of the runtime rebuilt from source.
abbrev pub Deployed : World → FacetRecord → Option Bytes → Type 0
Deployed w rec none = ⊥
Deployed w rec (some runtime) =
    (rec.code_hash ≡ some (w.keccak runtime))
    × (((a : Bytes) × (rec.address ≡ some a))
        × (onchain_hash w (truthy rec.address) ≡ some (w.keccak runtime)))

-- A facet's record is of the initcode and the runtime that its source gives.
abbrev pub Genuine : World → String → FacetRecord → Type 0
Genuine w source_id rec =
    let initcode = w.initcode source_id rec.constructor_args in
    (rec.initcode_hash ≡ some (w.keccak initcode))
    × (Created w.keccak rec.nonce (truthy rec.sender) (truthy rec.address)
        × Deployed w rec (w.runtime initcode rec))

abbrev pub AllGenuine : World → Dict String FacetRecord → Type 0
AllGenuine w [] = Unit
AllGenuine w ((source_id, rec) ∷ facets) = Genuine w source_id rec × AllGenuine w facets

append-eq-nil : (xs ys : List Failure) → (xs ++ ys ≡ []) ↔ ((xs ≡ []) × (ys ≡ []))
append-eq-nil [] ys = (λ h. (refl, h), λ h. h.1)
append-eq-nil (x ∷ xs) ys = (λ h. cc, λ h. cc (h.0))

pub unless-eq-nil : (b : Bool) (f : Failure) → (unless b f ≡ []) ↔ (b ≡ true)
unless-eq-nil true f = (λ _. refl, λ _. refl)
unless-eq-nil false f = (λ h. cc, λ h. cc)

pub option_beq_iff : (x y : Option Bytes) → (option_beq x y ≡ true) ↔ (x ≡ y)
option_beq_iff none none = (λ _. refl, λ _. refl)
option_beq_iff none (some y) = (λ h. cc, λ h. cc)
option_beq_iff (some x) none = (λ h. cc, λ h. cc)
option_beq_iff (some x) (some y) =
    (λ h. ap some ((bytes_beq_iff x y).0 h), λ h. (bytes_beq_iff x y).1 (some_injective h))

verify_initcode_iff :
    (s : String) (got : Bytes) (o : Option Bytes) → (verify_initcode s got o ≡ []) ↔ (o ≡ some got)
unfolding verify_initcode
verify_initcode_iff s got none = (λ h. cc, λ h. cc)
verify_initcode_iff s got (some recorded) = (
  λ h. ap some (
      sym (
        (bytes_beq_iff got recorded).0
          ((unless-eq-nil (bytes_beq got recorded) (initcode_differs s got recorded)).0 h))),
  λ h.
      (unless-eq-nil (bytes_beq got recorded) (initcode_differs s got recorded)).1
        ((bytes_beq_iff got recorded).1 (sym (some_injective h))),
)

verify_creation_iff :
    (keccak : Bytes → Bytes) (s : String) (nonce : Option ℕ) (sender address : Option Bytes)
    → (verify_creation keccak s nonce sender address ≡ []) ↔ Created keccak nonce sender address
unfolding verify_creation
verify_creation_iff keccak s none sender address = (λ _. tt, λ _. refl)
verify_creation_iff keccak s (some n) none address = (λ h. cc, λ h. absurd h)
verify_creation_iff keccak s (some n) (some sender) none = (λ _. tt, λ _. refl)
verify_creation_iff keccak s (some n) (some sender) (some a) =
    let derived = create_address keccak sender n in
    (
      λ h.
          (bytes_beq_iff derived a).0
            ((unless-eq-nil (bytes_beq derived a) (creates_other s derived)).0 h),
      λ h.
          (unless-eq-nil (bytes_beq derived a) (creates_other s derived)).1
            ((bytes_beq_iff derived a).1 h),
    )

verify_address_iff :
    (s : String) (rebuilt : Bytes) (address onchain : Option Bytes)
    → (verify_address s rebuilt (some rebuilt) address onchain ≡ [])
      ↔ (((a : Bytes) × (address ≡ some a)) × (onchain ≡ some rebuilt))
unfolding verify_address
verify_address_iff s rebuilt none onchain = (λ h. cc, λ h. cc (h.0.1))
verify_address_iff s rebuilt (some a) onchain =
    let report = onchain_differs s onchain rebuilt in
    (
      λ h. (
        (a, refl),
        (option_beq_iff onchain (some rebuilt)).0
            ((unless-eq-nil (option_beq onchain (some rebuilt)) report).0 h),
      ),
      λ h.
          (unless-eq-nil (option_beq onchain (some rebuilt)) report).1
            ((option_beq_iff onchain (some rebuilt)).1 h.1),
    )

verify_runtime_iff :
    (s : String) (rebuilt : Bytes) (recorded address onchain : Option Bytes)
    → (verify_runtime s rebuilt recorded address onchain ≡ []) ↔ (
        (recorded ≡ some rebuilt) × (((a : Bytes) × (address ≡ some a)) × (onchain ≡ some rebuilt)))
unfolding verify_runtime
verify_runtime_iff s rebuilt none address onchain = (λ h. cc, λ h. cc (h.0))
verify_runtime_iff s rebuilt (some recorded) address onchain = (to, from)
  where
    rest : List Failure
    rest = verify_address s rebuilt (some recorded) address onchain

    same :
        bytes_beq rebuilt recorded ≡ true
        → rest ≡ []
        → (some recorded ≡ some rebuilt)
          × (((a : Bytes) × (address ≡ some a)) × (onchain ≡ some rebuilt))
    same e h =
        let q : recorded ≡ rebuilt = sym ((bytes_beq_iff rebuilt recorded).0 e) in
        (
          ap some q,
          (verify_address_iff s rebuilt address onchain).0
              (subst (λ r. verify_address s rebuilt (some r) address onchain ≡ []) q h),
        )

    to :
        verify_runtime s rebuilt (some recorded) address onchain ≡ []
        → (some recorded ≡ some rebuilt)
          × (((a : Bytes) × (address ≡ some a)) × (onchain ≡ some rebuilt))
    to h = elim (Bool-cases (bytes_beq rebuilt recorded)) [
      | inl e ↦ same e (rw e at h)
      | inr e ↦ elim (if_cases (option_beq onchain (some rebuilt)) _ _ (rw e at h)) [
        | inl (_, q) ↦ cc
        | inr (_, q) ↦ cc
      ]
    ]

    from :
        (some recorded ≡ some rebuilt)
          × (((a : Bytes) × (address ≡ some a)) × (onchain ≡ some rebuilt))
        → verify_runtime s rebuilt (some recorded) address onchain ≡ []
    from h =
        let e : rebuilt ≡ recorded = sym (some_injective h.0) in
        rw ((bytes_beq_iff rebuilt recorded).1 e) (
          subst (λ r. verify_address s rebuilt (some r) address onchain ≡ []) e
            ((verify_address_iff s rebuilt address onchain).1 h.1))

verify_replay_iff :
    (w : World) (s : String) (rec : FacetRecord) (runtime : Option Bytes)
    → (verify_replay w s rec runtime ≡ []) ↔ Deployed w rec runtime
unfolding verify_replay
verify_replay_iff w s rec none = (λ h. cc, λ h. absurd h)
verify_replay_iff w s rec (some runtime) =
    verify_runtime_iff s (w.keccak runtime) rec.code_hash rec.address
      (onchain_hash w (truthy rec.address))

verify_facet_iff :
    (w : World) (s : String) (rec : FacetRecord) → (verify_facet w s rec ≡ []) ↔ Genuine w s rec
unfolding verify_facet
verify_facet_iff w s rec = (
  λ h.
      let p = (append-eq-nil first (second ++ third)).0 h in
      let q = (append-eq-nil second third).0 p.1 in
      (initcode_iff.0 p.0, (creation_iff.0 q.0, replay_iff.0 q.1)),
  λ g. (append-eq-nil first (second ++ third)).1 (
    initcode_iff.1 g.0,
    (append-eq-nil second third).1 (creation_iff.1 g.1.0, replay_iff.1 g.1.1),
  ),
)
  where
    initcode : Bytes
    initcode = w.initcode s rec.constructor_args

    first : List Failure
    first = verify_initcode s (w.keccak initcode) rec.initcode_hash

    second : List Failure
    second = verify_creation w.keccak s rec.nonce (truthy rec.sender) (truthy rec.address)

    third : List Failure
    third = verify_replay w s rec (w.runtime initcode rec)

    initcode_iff : (first ≡ []) ↔ (rec.initcode_hash ≡ some (w.keccak initcode))
    initcode_iff = verify_initcode_iff s (w.keccak initcode) rec.initcode_hash

    creation_iff :
        (second ≡ []) ↔ Created w.keccak rec.nonce (truthy rec.sender) (truthy rec.address)
    creation_iff = verify_creation_iff w.keccak s rec.nonce (truthy rec.sender) (truthy rec.address)

    replay_iff : (third ≡ []) ↔ Deployed w rec (w.runtime initcode rec)
    replay_iff = verify_replay_iff w s rec (w.runtime initcode rec)

-- The check of a deployment's facets reports nothing exactly when every facet's record is genuine:
-- its initcode is its source's, its recorded creation made its address, and its recorded hash and the
-- code on chain are those of the runtime that its source gives.
pub verify_facets_iff :
    (w : World) (facets : Dict String FacetRecord)
    → (verify_facets w facets ≡ []) ↔ AllGenuine w facets
unfolding verify_facets
verify_facets_iff w [] = (λ _. tt, λ _. refl)
verify_facets_iff w ((source_id, rec) ∷ facets) =
    let split = append-eq-nil (verify_facet w source_id rec) (verify_facets w facets) in
    let here = verify_facet_iff w source_id rec in
    let later = verify_facets_iff w facets in
    (λ h. (here.0 (split.0 h).0, later.0 (split.0 h).1), λ g. split.1 (here.1 g.0, later.1 g.1))
