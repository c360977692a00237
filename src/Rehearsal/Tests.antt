-- ===== src/Rehearsal/Tests.antt =====
-- rehearsal.py: a proxy that, once migrated, routes one selector and reverts on every other.
use josuke.Prelude.{
  ◌≡◌, ◌↔◌, refl, Bool, true, false, none, some, List, [], ◌∷◌, ◌++◌, In, if◌then◌else◌, arith,
}
use josuke.Prelude.Bytes.{Bytes}
use josuke.Prelude.Eq.{bytes_beq}
use josuke.Storage.{zeros}
use josuke.Rehearsal.{
  Overrides, Route, Right, migrate, rehearse_migration, rehearse_migration-Right,
}

abbrev delegate : Bytes
delegate = 0x11 ∷ zeros 19

-- The state is whether the migration has run. A call with no data runs it.
abbrev call : Bool → Bytes → Bytes → Overrides → Bool × Bytes × Bool
call s proxy [] overrides = (true, [], true)
call s proxy (b ∷ selector) overrides =
    if bytes_beq (b ∷ selector) (1 ∷ 2 ∷ 3 ∷ 4 ∷ [])
    then (true, zeros 12 ++ delegate, s)
    else (false, [], s)

abbrev routes : List Route
routes = (1 ∷ 2 ∷ 3 ∷ 4 ∷ [], some delegate) ∷ (5 ∷ 6 ∷ 7 ∷ 8 ∷ [], none) ∷ []

call-kept : (selector : Bytes) → (call true (0xaa ∷ []) selector []).2 ≡ true
call-kept [] = refl
call-kept (b ∷ selector) = ground arith

call-restored :
    (selector : Bytes)
    → call true (0xaa ∷ []) selector ((0xaa ∷ [], []) ∷ []) ≡ call true (0xaa ∷ []) selector []
call-restored [] = refl
call-restored (b ∷ selector) = refl

rehearse_migration-Right_example :
    (rehearse_migration call (0xaa ∷ []) [] (0 ∷ []) routes (delegate ∷ []) false ≡ []) ↔ (
      ((migrate call (0xaa ∷ []) (0 ∷ []) (delegate ∷ []) false).0 ≡ true)
      × ((r : Route) → In r routes → Right call r.1 (call true (0xaa ∷ []) r.0 [])))
rehearse_migration-Right_example =
    rehearse_migration-Right call (0xaa ∷ []) true call-kept [] (0 ∷ []) routes (delegate ∷ [])
      false call-restored
