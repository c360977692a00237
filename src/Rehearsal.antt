-- ===== src/Rehearsal.antt =====
-- src/josuke/rehearsal.py: `rehearse_migration`, and `delegate_stub` of src/josuke/storage.py. The relay
-- is a parameter: what a call comes to in a state, and the state it leaves, overrides applied first.
mod Tests
use josuke.Prelude.{
  ℕ, zero, suc, ◌≡◌, ◌↔◌, refl, sym, ap, ◌∙◌, subst, inl, inr, Bool, true, false, not, Bool-cases,
  Option, none, some, List, [], ◌∷◌, ◌++◌, map, length, nat_beq, if◌then◌else◌, In, arith,
}
use josuke.Prelude.Bytes.{Bytes, bytes_le}
use josuke.Prelude.Eq.{bytes_beq, bytes_beq_iff}
use josuke.Prelude.Sort.{sort_by, In-sort_by, In-sort_by_cases}
use josuke.Storage.{slot_address}
use josuke.Opcodes.{push0, push20, mstore, msize}

-- Accounts with the code that stands in for theirs.
abbrev pub Overrides : Type 0
Overrides = List (Bytes × Bytes)

-- PUSH20 address PUSH0 MSTORE MSIZE PUSH0 RETURN
unfoldable pub delegate_stub : Bytes → Bytes
delegate_stub address = push20 ∷ (address ++ (push0 ∷ mstore ∷ msize ∷ push0 ∷ 0xf3 ∷ []))

-- A selector, and the address that it must reach, or none where it must revert.
abbrev pub Route : Type 0
Route = Bytes × Option Bytes

abbrev pub route_le : Route → Route → Bool
route_le (s, w) (t, v) = bytes_le s t

pub data Failure : Type 0 where
  reverted : Bytes → Failure
  not_removed : Bytes → Bytes → Failure
  reverts : Bytes → Bytes → Failure
  misrouted : Bytes → Bytes → Bytes → Failure

-- The address that a word holds, or else the data returned.
abbrev pub got : Bytes → Bytes
got answer = elim (if nat_beq (length answer) 32 then slot_address (some answer) else none) [
  | some address ↦ address
  | none ↦ answer
]

-- What a dispatch's answer, whether it went through and its data, says against the route.
unfoldable pub check_route : Route → Bool → Bytes → List Failure → List Failure
check_route (selector, none) ok answer rest =
    if ok then not_removed selector (got answer) ∷ rest else rest
check_route (selector, some want) ok answer rest =
    if not ok
    then reverts selector want ∷ rest
    else if bytes_beq (got answer) want
    then rest
    else misrouted selector (got answer) want ∷ rest

module _ {S : Type 0} (call : S → Bytes → Bytes → Overrides → Bool × Bytes × S) where
  -- The loop over the routes. Only its first call restores the proxy's code.
  unfoldable pub check_routes : Bytes → List Route → Overrides → S → List Failure
  unfolding check_route
  check_routes proxy [] restore s = []
  check_routes proxy (r ∷ routes) restore s =
      check_route r (call s proxy r.0 restore).0 (call s proxy r.0 restore).1
        (check_routes proxy routes [] (call s proxy r.0 restore).2)

  abbrev pub stubs : List Bytes → Overrides
  stubs delegates = map (λ address. (address, delegate_stub address)) delegates

  -- The call that runs the migration as the proxy's code.
  abbrev pub migrate : Bytes → Bytes → List Bytes → S → Bool × Bytes × S
  migrate proxy migration_runtime delegates s =
      call s proxy [] (stubs delegates ++ ((proxy, migration_runtime) ∷ []))

  unfoldable pub rehearse_migration :
      Bytes → Bytes → Bytes → List Route → List Bytes → S → List Failure
  unfolding check_routes
  rehearse_migration proxy code migration_runtime routes delegates s =
      let first = migrate proxy migration_runtime delegates s in
      if not first.0
      then reverted first.1 ∷ []
      else check_routes proxy (sort_by route_le routes) ((proxy, code) ∷ []) first.2

  -- A dispatch goes where the route says.
  abbrev pub Right : Option Bytes → Bool × Bytes × S → Type 0
  Right none (ok, answer, t) = ok ≡ false
  Right (some want) (ok, answer, t) = (ok ≡ true) × (got answer ≡ want)

  check_route-nil :
      (r : Route) (x : Bool × Bytes × S) (rest : List Failure)
      → (check_route r x.0 x.1 rest ≡ []) ↔ (Right r.1 x × (rest ≡ []))
  unfolding check_route
  check_route-nil (selector, none) (true, answer, t) rest = (λ h. cc, λ h. absurd (clash h.0))
    where
      clash : true ≡ false → ⊥
      clash e = cc
  check_route-nil (selector, none) (false, answer, t) rest = (λ h. (refl, h), λ h. h.1)
  check_route-nil (selector, some want) (false, answer, t) rest =
      (λ h. cc, λ h. absurd (clash h.0.0))
    where
      clash : false ≡ true → ⊥
      clash e = cc
  check_route-nil (selector, some want) (true, answer, t) rest =
      elim (Bool-cases (bytes_beq (got answer) want)) [
        | inl e ↦ rw e (λ h. ((refl, (bytes_beq_iff (got answer) want).0 e), h), λ h. h.1)
        | inr f ↦ rw f (λ h. cc, λ h. absurd (clash ((bytes_beq_iff (got answer) want).1 h.0.1) f))
      ]
    where
      clash : {b : Bool} → b ≡ true → b ≡ false → ⊥
      clash p q = cc

  module _ (proxy : Bytes) (settled : S)
      (kept : (selector : Bytes) → (call settled proxy selector []).2 ≡ settled) where
    check_routes-nil :
        (routes : List Route)
        → (check_routes proxy routes [] settled ≡ [])
          ↔ ((r : Route) → In r routes → Right r.1 (call settled proxy r.0 []))
    unfolding check_routes
    check_routes-nil [] = (λ h r m. absurd m, λ h. refl)
    check_routes-nil (x ∷ routes) =
        let ih = check_routes-nil routes in
        let one =
          check_route-nil x (call settled proxy x.0 [])
            (check_routes proxy routes [] (call settled proxy x.0 []).2) in
        let same = ap (check_routes proxy routes []) (kept x.0) in
        (
          λ h r m. both (one.0 h).0 (ih.0 (sym same ∙ (one.0 h).1)) r m,
          λ h. one.1 (h x (inl refl), same ∙ ih.1 (λ r m. h r (inr m))),
        )
      where
        both :
            Right x.1 (call settled proxy x.0 [])
            → ((r : Route) → In r routes → Right r.1 (call settled proxy r.0 []))
            → (r : Route) → In r (x ∷ routes)
            → Right r.1 (call settled proxy r.0 [])
        both h k r (inl e) = subst (λ y. Right y.1 (call settled proxy y.0 [])) (sym e) h
        both h k r (inr m) = k r m

    check_routes-restored :
        (code : Bytes) (s : S) (routes : List Route)
        → ((selector : Bytes)
            → call s proxy selector ((proxy, code) ∷ []) ≡ call settled proxy selector [])
        → check_routes proxy routes ((proxy, code) ∷ []) s ≡ check_routes proxy routes [] settled
    unfolding check_routes
    check_routes-restored code s [] h = refl
    check_routes-restored code s (x ∷ routes) h =
        ap (λ (c : Bool × Bytes × S). check_route x c.0 c.1 (check_routes proxy routes [] c.2))
          (h x.0)

    -- The rehearsal reports nothing exactly where the migration goes through and every route holds of the
    -- proxy's state afterwards, whatever the order of the routes: the selector's call goes through and
    -- answers the wanted address, or reverts where none is wanted. It is assumed that the first call
    -- after the migration only puts the proxy's code back, and that no dispatch changes the state.
    pub rehearse_migration-Right :
        (code : Bytes) (migration_runtime : Bytes) (routes : List Route) (delegates : List Bytes)
        (s : S)
        → ((selector : Bytes)
            → call
                (migrate proxy migration_runtime delegates s).2
                proxy
                selector
                ((proxy, code) ∷ [])
              ≡ call settled proxy selector [])
        → (rehearse_migration proxy code migration_runtime routes delegates s ≡ []) ↔ (
            ((migrate proxy migration_runtime delegates s).0 ≡ true)
            × ((r : Route) → In r routes → Right r.1 (call settled proxy r.0 [])))
    unfolding rehearse_migration
    rehearse_migration-Right code runtime routes delegates s h =
        let first = (migrate proxy runtime delegates s) in
        let same = check_routes-restored code first.2 (sort_by route_le routes) h in
        let all = check_routes-nil (sort_by route_le routes) in
        elim (Bool-cases first.0) [
          | inl t ↦ rw t (
            λ e. (refl, λ r m. all.0 (sym same ∙ e) r (In-sort_by route_le r routes m)),
            λ k. same ∙ all.1 (λ r m. k.1 r (In-sort_by_cases route_le r routes m)),
          )
          | inr f ↦ rw f (λ e. cc, λ k. absurd (clash k.0))
        ]
      where
        clash : false ≡ true → ⊥
        clash e = cc
