-- ===== src/Migration.antt =====
-- src/josuke/migration.py: the migration script's encoding and decoding; src/josuke/delegate.py: the registry
-- of delegates that decoding reads. A hexadecimal text is modelled by the bytes that it spells.
pub mod RoundTrip
pub mod Total
mod Tests
use josuke.Prelude.{
  ℕ, zero, suc, ◌-◌, ◌≡◌, Bool, true, false, ◌&&◌, Option, none, some, List, [], ◌∷◌, ◌++◌, String,
  nat_beq, if◌then◌else◌, length, take, drop, slice,
}
use josuke.Prelude.Eq.{bytes_beq, bytes_eq}
use josuke.Prelude.Sort.{sort_by}
use josuke.Prelude.Bytes.{Bytes, bytes_le}
use josuke.Prelude.Dict.{Dict, get, put}
use josuke.Opcodes.{push0, push1, push4, push20, push32, dup1, dup4, dup5, shl, log3, sstore}

pub record ContractSource : Type 0 where
  pub path : String
  pub name : String

pub record Delegate : Type 0 where
  pub address : Bytes
  pub source : ContractSource

-- `source_map`, by address.
abbrev pub SourceMap : Type 0
SourceMap = Dict Bytes Delegate

-- `Delegate(address, source)` registers itself.
unfoldable pub new_delegate : Bytes → ContractSource → SourceMap → Delegate × SourceMap
new_delegate address source map =
    let d : Delegate = record { address = address; source = source } in (d, put address d map)

pub record SetDelegate : Type 0 where
  pub selector4 : Bytes
  pub storage_key32 : Bytes
  pub delegate : Delegate

-- keccak256("SelectorDelegated(bytes4,address)"), `SELECTOR_DELEGATED_SIG`.
abbrev pub selector_delegated_sig : Bytes
selector_delegated_sig =
    0x7c ∷ 0x86 ∷ 0x09 ∷ 0x1f ∷ 0xe2 ∷ 0x3e ∷ 0x47 ∷ 0x3a ∷ 0xf4 ∷ 0xb7 ∷ 0x80 ∷ 0xc3 ∷ 0x75 ∷ 0x25
    ∷ 0xce ∷ 0x8c ∷ 0xfa ∷ 0x74 ∷ 0xec ∷ 0x05 ∷ 0xa4 ∷ 0xa4 ∷ 0xe7 ∷ 0xd4 ∷ 0xd3 ∷ 0xe7 ∷ 0xf0
    ∷ 0x55 ∷ 0x1d ∷ 0x86 ∷ 0xa7 ∷ 0xce ∷ []

abbrev pub normal_head : Bytes
normal_head = dup1 ∷ dup1 ∷ push4 ∷ []

abbrev pub normal_mid : Bytes
normal_mid = push1 ∷ 0xe0 ∷ shl ∷ dup5 ∷ push0 ∷ push0 ∷ log3 ∷ push32 ∷ []

abbrev pub final_head : Bytes
final_head = dup1 ∷ push4 ∷ []

abbrev pub final_mid : Bytes
final_mid = push1 ∷ 0xe0 ∷ shl ∷ dup4 ∷ push0 ∷ push0 ∷ log3 ∷ push32 ∷ []

abbrev pub tail_code : Bytes
tail_code = sstore ∷ []

abbrev pub normal_block_size : ℕ
normal_block_size = 48

abbrev pub final_block_size : ℕ
final_block_size = 47

-- `SetDelegate._block(last)`
unfoldable pub block : SetDelegate → Bool → Bytes
block sd last =
    let dup_delegate = if last then dup1 ∷ [] else dup1 ∷ dup1 ∷ [] in
    let dup_sig = if last then dup4 else dup5 in
    dup_delegate
    ++ (push4
        ∷ (sd.selector4
            ++ (push1
                ∷ 0xe0
                ∷ shl
                ∷ dup_sig
                ∷ push0
                ∷ push0
                ∷ log3
                ∷ push32
                ∷ (sd.storage_key32 ++ (sstore ∷ [])))))

-- The sort key `(address20, selector4)`.
unfoldable pub key_le : SetDelegate → SetDelegate → Bool
key_le x y =
    if bytes_beq x.delegate.address y.delegate.address
    then bytes_le x.selector4 y.selector4
    else bytes_le x.delegate.address y.delegate.address

-- `Migration(setdelegates)`: the object is its sorted list.
unfoldable pub migration : List SetDelegate → List SetDelegate
migration setdelegates = sort_by key_le setdelegates

-- `itertools.groupby` by the delegate's address. A group is its first entry and the others.
abbrev pub Group : Type 0
Group = SetDelegate × List SetDelegate

unfoldable pub add_to_groups : SetDelegate → List Group → List Group
add_to_groups sd [] = (sd, []) ∷ []
add_to_groups sd ((head, rest) ∷ groups) =
    if bytes_beq sd.delegate.address head.delegate.address
    then (sd, head ∷ rest) ∷ groups
    else (sd, []) ∷ (head, rest) ∷ groups

unfoldable pub group_by : List SetDelegate → List Group
unfolding add_to_groups
group_by [] = []
group_by (sd ∷ sds) = add_to_groups sd (group_by sds)

-- The blocks of a group, of which the last consumes the delegate.
unfoldable pub blocks : SetDelegate → List SetDelegate → Bytes
unfolding block
blocks sd [] = block sd true
blocks sd (next ∷ rest) = block sd false ++ blocks next rest

unfoldable pub encode_groups : List Group → Bytes
unfolding blocks
encode_groups [] = []
encode_groups ((head, rest) ∷ groups) =
    push20 ∷ (head.delegate.address ++ (blocks head rest ++ encode_groups groups))

unfoldable pub encode : List SetDelegate → Bytes
unfolding encode_groups group_by
encode m = push32 ∷ (selector_delegated_sig ++ encode_groups (group_by m))

-- `InvalidMigration`; the `KeyError` of an address with no delegate; the `ValueError` of
-- `to_checksum_address` on a text that is no address; `stuck` is no outcome of the code.
pub data Decoded {ℓ} (A : Type ℓ) : Type ℓ where
  ok : A → Decoded A
  invalid : Decoded A
  unknown_delegate : Decoded A
  not_an_address : Decoded A
  stuck : Decoded A

infixl 5 ◌>>=◌
abbrev pub ◌>>=◌ {ℓ κ} : {A : Type ℓ} {B : Type κ} → Decoded A → (A → Decoded B) → Decoded B
invalid >>= next = invalid
ok value >>= next = next value
unknown_delegate >>= next = unknown_delegate
not_an_address >>= next = not_an_address
stuck >>= next = stuck

unfoldable pub is_normal : Bytes → Bool
is_normal code =
    nat_beq (length code) normal_block_size
    && (bytes_beq (slice 0 3 code) normal_head
        && (bytes_beq (slice 7 15 code) normal_mid && bytes_beq (slice 47 48 code) tail_code))

unfoldable pub is_final : Bytes → Bool
is_final code =
    nat_beq (length code) final_block_size
    && (bytes_beq (slice 6 14 code) final_mid && bytes_beq (slice 46 47 code) tail_code)

abbrev pub entry : Bytes → Bytes → Delegate → SetDelegate
entry selector4 storage_key32 delegate = record {
  selector4 = selector4;
  storage_key32 = storage_key32;
  delegate = delegate;
}

-- `while not saw_final`: `code` is `bytecode[i:]`, and `out` is `setdelegates`. The result holds what
-- follows the group.
unfoldable pub decode_group :
    ℕ → Delegate → Bytes → List SetDelegate → Decoded (List SetDelegate × Bytes)
unfolding is_normal is_final
decode_group zero d code out = stuck
decode_group (suc fuel) d code out =
    let normal = take normal_block_size code in
    let final = take final_block_size code in
    let more =
      decode_group fuel d (drop normal_block_size code)
        (out ++ (entry (slice 3 7 normal) (slice 15 47 normal) d ∷ [])) in
    let done =
      ok
        (out ++ (entry (slice 2 6 final) (slice 14 46 final) d ∷ []), drop final_block_size code) in
    if bytes_beq (take 2 code) (take 2 normal_head)
    then (if is_normal normal then more else invalid)
    else if bytes_beq (take 2 code) final_head
    then (if is_final final then done else invalid)
    else invalid

-- `source_map[to_checksum_address(...)]`
unfoldable pub find_delegate : SourceMap → Bytes → Decoded Delegate
find_delegate map address =
    if nat_beq (length address) 20
    then (elim (get address map) [ some d ↦ ok d | none ↦ unknown_delegate ])
    else not_an_address

-- `while i < n`
unfoldable pub decode_groups : ℕ → SourceMap → Bytes → List SetDelegate → Decoded (List SetDelegate)
unfolding decode_group find_delegate
decode_groups fuel map [] out = ok out
decode_groups zero map (b ∷ bs) out = stuck
decode_groups (suc fuel) map (b ∷ bs) out =
    let group = find_delegate map (slice 1 21 (b ∷ bs)) >>= λ d.
    decode_group (length bs) d (drop 21 (b ∷ bs)) out >>= λ r. decode_groups fuel map r.1 r.0 in
    if nat_beq b push20 then group else invalid

-- Each pass of either loop takes bytes, so the length of the code is fuel enough.
unfoldable pub decode : SourceMap → Bytes → Decoded (List SetDelegate)
unfolding decode_groups
decode map code =
    if bytes_beq (slice 0 1 code) (push32 ∷ [])
      && bytes_beq (slice 1 33 code) selector_delegated_sig
    then (decode_groups (length code) map (drop 33 code) [] >>= λ sds. ok (migration sds))
    else invalid
