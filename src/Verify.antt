-- ===== src/Verify.antt =====
-- src/josuke/verify.py: the checks of a recorded deployment against its source and the chain. A check is
-- the list of the failures that it reports, in order; a failure is its message's data. The compiler,
-- the replay of a constructor and the node are parameters.
pub mod Facets
pub mod Dispatch
pub mod Entries
pub mod Script
mod Tests
use josuke.Prelude.{
  ℕ, zero, suc, ◌+◌, ◌-◌, ◌<◌, ◌≡◌, Bool, true, false, ◌&&◌, Option, none, some, String, List, [],
  ◌∷◌, ◌++◌, map, nat_beq, ltb, if◌then◌else◌, length, drop,
}
use josuke.Prelude.Eq.{bytes_beq, bytes_eq, string_eq}
use josuke.Prelude.Sort.{sort_by}
use josuke.Prelude.Bytes.{Bytes, bytes_le}
use josuke.Prelude.Dict.{Dict, get, put, has, update, keys}
use josuke.Opcodes.{to_bytes}
use josuke.Storage.{slot_address}
use josuke.Deployment.{FacetRecord, SelectorsRecord, State, Owners, Selector}
use josuke.Migration.{
  Delegate, SourceMap, SetDelegate, Decoded, ok, invalid, unknown_delegate, not_an_address, stuck,
  decode,
}

-- What is rebuilt from source, and what the chain holds.
pub record World : Type 0 where
  pub keccak : Bytes → Bytes
  -- `facet_initcode`, of a facet and its constructor's arguments.
  pub initcode : String → Option String → Bytes
  -- The runtime that `_replay_runtime` gives, `none` where the constructor reverts.
  pub runtime : Bytes → FacetRecord → Option Bytes
  -- `eth_getCode`
  pub code_at : Bytes → Bytes

pub data Failure : Type 0 where
  no_initcode_hash : String → Bytes → Failure
  initcode_differs : String → Bytes → Bytes → Failure
  nonce_without_from : String → Failure
  creates_other : String → Bytes → Failure
  constructor_reverted : String → Failure
  no_code_hash : String → Bytes → Failure
  recorded_wrong : String → Bytes → Failure
  rebuilt_differs : String → Bytes → Bytes → Failure
  no_address : String → Failure
  onchain_differs : String → Option Bytes → Bytes → Failure
  dispatch_unrecorded : Bytes → String → Bytes → Failure
  dispatch_differs : Bytes → String → Option Bytes → Bytes → Failure
  facet_implements_selectors : Option Bytes → Failure
  no_selectors_address : Failure
  selectors_differ : Bytes → Failure
  facet_missing : String → Failure
  facet_unmatched : String → Failure
  no_migration_needed : Failure
  unrecognized_script : Failure
  entry_missing : Bytes → Failure
  entry_differs : Bytes → Bytes → Bytes → Failure
  entry_writes_elsewhere : Bytes → Failure
  entry_unexpected : Bytes → Failure

-- `_rlp_uint`, of a number of at most 55 bytes.
unfoldable pub rlp_uint : ℕ → Bytes
unfolding to_bytes
rlp_uint n =
    let body = to_bytes n in
    if nat_beq n 0 then 0x80 ∷ [] else if ltb n 0x80 then n ∷ [] else (0x80 + length body) ∷ body

-- keccak(rlp([sender, nonce]))[12:]
unfoldable pub create_address : (Bytes → Bytes) → Bytes → ℕ → Bytes
unfolding rlp_uint
create_address keccak sender nonce =
    let payload : Bytes = 0x94 ∷ (sender ++ rlp_uint nonce) in
    drop 12 (keccak ((0xc0 + length payload) ∷ payload))

-- An empty text counts as none.
abbrev pub truthy : Option Bytes → Option Bytes
truthy none = none
truthy (some []) = none
truthy (some (b ∷ bs)) = some (b ∷ bs)

abbrev pub option_beq : Option Bytes → Option Bytes → Bool
option_beq none none = true
option_beq none (some y) = false
option_beq (some x) none = false
option_beq (some x) (some y) = bytes_beq x y

abbrev pub unless : Bool → Failure → List Failure
unless true f = []
unless false f = f ∷ []

unfoldable pub verify_initcode : String → Bytes → Option Bytes → List Failure
verify_initcode source_id got none = no_initcode_hash source_id got ∷ []
verify_initcode source_id got (some recorded) =
    unless (bytes_beq got recorded) (initcode_differs source_id got recorded)

unfoldable pub verify_creation :
    (Bytes → Bytes) → String → Option ℕ → Option Bytes → Option Bytes → List Failure
unfolding create_address
verify_creation keccak source_id none sender address = []
verify_creation keccak source_id (some nonce) none address = nonce_without_from source_id ∷ []
verify_creation keccak source_id (some nonce) (some sender) none = []
verify_creation keccak source_id (some nonce) (some sender) (some address) =
    let derived = create_address keccak sender nonce in
    unless (bytes_beq derived address) (creates_other source_id derived)

unfoldable pub verify_address :
    String → Bytes → Option Bytes → Option Bytes → Option Bytes → List Failure
verify_address source_id rebuilt recorded none onchain = no_address source_id ∷ []
verify_address source_id rebuilt none (some address) onchain =
    unless (option_beq onchain (some rebuilt)) (onchain_differs source_id onchain rebuilt)
verify_address source_id rebuilt (some recorded) (some address) onchain =
    unless (option_beq onchain (some recorded)) (onchain_differs source_id onchain recorded)

unfoldable pub verify_runtime :
    String → Bytes → Option Bytes → Option Bytes → Option Bytes → List Failure
unfolding verify_address
verify_runtime source_id rebuilt none address onchain =
    no_code_hash source_id rebuilt ∷ verify_address source_id rebuilt none address onchain
verify_runtime source_id rebuilt (some recorded) address onchain =
    let rest = verify_address source_id rebuilt (some recorded) address onchain in
    if bytes_beq rebuilt recorded
    then rest
    else if option_beq onchain (some rebuilt)
    then recorded_wrong source_id recorded ∷ []
    else rebuilt_differs source_id rebuilt recorded ∷ rest

-- `_onchain_codehash(address) if address else None`
abbrev pub onchain_hash : World → Option Bytes → Option Bytes
onchain_hash w none = none
onchain_hash w (some address) = some (w.keccak (w.code_at address))

unfoldable pub verify_replay : World → String → FacetRecord → Option Bytes → List Failure
unfolding verify_runtime
verify_replay w source_id rec none = constructor_reverted source_id ∷ []
verify_replay w source_id rec (some runtime) =
    verify_runtime source_id (w.keccak runtime) rec.code_hash rec.address
      (onchain_hash w (truthy rec.address))

-- One pass of `verify_facets`.
unfoldable pub verify_facet : World → String → FacetRecord → List Failure
unfolding verify_initcode verify_creation verify_replay
verify_facet w source_id rec =
    let initcode = w.initcode source_id rec.constructor_args in
    verify_initcode source_id (w.keccak initcode) rec.initcode_hash
    ++ (verify_creation w.keccak source_id rec.nonce (truthy rec.sender) (truthy rec.address)
        ++ verify_replay w source_id rec (w.runtime initcode rec))

unfoldable pub verify_facets : World → Dict String FacetRecord → List Failure
unfolding verify_facet
verify_facets w [] = []
verify_facets w ((source_id, rec) ∷ facets) = verify_facet w source_id rec ++ verify_facets w facets
