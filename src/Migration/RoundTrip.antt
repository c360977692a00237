-- ===== src/Migration/RoundTrip.antt =====
-- migration.py: `Migration.decode` reads back what `Migration.encode` wrote.
use josuke.Prelude.{
  ℕ, zero, suc, ◌+◌, ◌-◌, ◌≤◌, ◌<◌, ◌≡◌, refl, sym, subst, ap, ◌∙◌, true, false, some, List, [],
  ◌∷◌, ◌++◌, append-nil, append_assoc, arith, length, length-append, take, drop, inl, inr,
  take-append_length, drop-append_length, All, Bool-cases,
}
use josuke.Prelude.Bytes.{Bytes, bytes_le_total}
use josuke.Prelude.Dict.{get, some_injective}
use josuke.Prelude.Eq.{bytes_eq, bytes_beq, bytes_beq_iff}
use josuke.Prelude.Sort.{sort_by_sorted, sort_by-IsSorted, All-sort_by}
use josuke.Migration.{
  Delegate, SourceMap, SetDelegate, Group, block, blocks, add_to_groups, group_by, encode_groups,
  encode, migration, ok, ◌>>=◌, entry, decode_group, find_delegate, decode_groups, decode, key_le,
}

-- Four bytes for the selector, thirty-two for the slot, twenty for the address, and the delegate is
-- the one registered under its address.
pub record IsEncodable (map : SourceMap) (sd : SetDelegate) : Type 0 where
  pub selector : length sd.selector4 ≡ 4
  pub storage_key : length sd.storage_key32 ≡ 32
  pub address : length sd.delegate.address ≡ 20
  pub registered : get sd.delegate.address map ≡ some sd.delegate

-- What follows the slot of a block: the SSTORE and the rest of the code.
take_key :
    (key rest : Bytes) → length key ≡ 32 → take 33 (key ++ (0x55 ∷ rest)) ≡ key ++ (0x55 ∷ [])
take_key key rest h =
    ap (take 33) (sym (append_assoc key (0x55 ∷ []) rest))
    ∙ take-append_length 33 (key ++ (0x55 ∷ [])) rest (omega (arith, length-append key (0x55 ∷ [])))

drop_key : (key rest : Bytes) → length key ≡ 32 → drop 33 (key ++ (0x55 ∷ rest)) ≡ rest
drop_key key rest h =
    ap (drop 33) (sym (append_assoc key (0x55 ∷ []) rest))
    ∙ drop-append_length 33 (key ++ (0x55 ∷ [])) rest (omega (arith, length-append key (0x55 ∷ [])))

length-key : (key : Bytes) → length key ≡ 32 → length (key ++ (0x55 ∷ [])) ≡ 33
length-key key h = omega (arith, length-append key (0x55 ∷ []))

normal_step :
    (fuel a b c e : ℕ) (key rest : Bytes) (d : Delegate) (out : List SetDelegate)
    → length key ≡ 32
    → decode_group
        (suc fuel)
        d
        (0x80
          ∷ 0x80
          ∷ 0x63
          ∷ a
          ∷ b
          ∷ c
          ∷ e
          ∷ 0x60
          ∷ 0xe0
          ∷ 0x1b
          ∷ 0x84
          ∷ 0x5f
          ∷ 0x5f
          ∷ 0xa3
          ∷ 0x7f
          ∷ (key ++ (0x55 ∷ rest)))
        out
      ≡ decode_group fuel d rest (out ++ (entry (a ∷ b ∷ c ∷ e ∷ []) key d ∷ []))
unfolding decode_group
normal_step fuel a b c e key rest d out h =
    rw
      (
        take_key key rest h,
        drop_key key rest h,
        take-append_length 32 key (0x55 ∷ []) h,
        drop-append_length 32 key (0x55 ∷ []) h,
        length-key key h,
      )
      refl

final_step :
    (fuel a b c e : ℕ) (key rest : Bytes) (d : Delegate) (out : List SetDelegate)
    → length key ≡ 32
    → decode_group
        (suc fuel)
        d
        (0x80
          ∷ 0x63
          ∷ a
          ∷ b
          ∷ c
          ∷ e
          ∷ 0x60
          ∷ 0xe0
          ∷ 0x1b
          ∷ 0x83
          ∷ 0x5f
          ∷ 0x5f
          ∷ 0xa3
          ∷ 0x7f
          ∷ (key ++ (0x55 ∷ rest)))
        out
      ≡ ok (out ++ (entry (a ∷ b ∷ c ∷ e ∷ []) key d ∷ []), rest)
unfolding decode_group
final_step fuel a b c e key rest d out h =
    rw
      (
        take_key key rest h,
        drop_key key rest h,
        take-append_length 32 key (0x55 ∷ []) h,
        drop-append_length 32 key (0x55 ∷ []) h,
        length-key key h,
      )
      refl

-- A block that is not its group's last is read back, and the group goes on.
block_normal :
    (fuel : ℕ) (s key tail : Bytes) (d : Delegate) (out : List SetDelegate)
    → length s ≡ 4
    → length key ≡ 32
    → decode_group (suc fuel) d (block (entry s key d) false ++ tail) out
      ≡ decode_group fuel d tail (out ++ (entry s key d ∷ []))
unfolding block
block_normal fuel [] key tail d out hs hk = absurd (omega arith)
block_normal fuel (a ∷ []) key tail d out hs hk = absurd (omega arith)
block_normal fuel (a ∷ b ∷ []) key tail d out hs hk = absurd (omega arith)
block_normal fuel (a ∷ b ∷ c ∷ []) key tail d out hs hk = absurd (omega arith)
block_normal fuel (a ∷ b ∷ c ∷ e ∷ []) key tail d out hs hk =
    rw (append_assoc key (0x55 ∷ []) tail) (normal_step fuel a b c e key tail d out hk)
block_normal fuel (a ∷ b ∷ c ∷ e ∷ f ∷ s) key tail d out hs hk = absurd (omega arith)

-- The last block of a group is read back, and the group ends.
block_final :
    (fuel : ℕ) (s key tail : Bytes) (d : Delegate) (out : List SetDelegate)
    → length s ≡ 4
    → length key ≡ 32
    → decode_group (suc fuel) d (block (entry s key d) true ++ tail) out
      ≡ ok (out ++ (entry s key d ∷ []), tail)
unfolding block
block_final fuel [] key tail d out hs hk = absurd (omega arith)
block_final fuel (a ∷ []) key tail d out hs hk = absurd (omega arith)
block_final fuel (a ∷ b ∷ []) key tail d out hs hk = absurd (omega arith)
block_final fuel (a ∷ b ∷ c ∷ []) key tail d out hs hk = absurd (omega arith)
block_final fuel (a ∷ b ∷ c ∷ e ∷ []) key tail d out hs hk =
    rw (append_assoc key (0x55 ∷ []) tail) (final_step fuel a b c e key tail d out hk)
block_final fuel (a ∷ b ∷ c ∷ e ∷ f ∷ s) key tail d out hs hk = absurd (omega arith)

-- An entry of a group of `d`.
pub record OfDelegate (d : Delegate) (sd : SetDelegate) : Type 0 where
  pub selector : length sd.selector4 ≡ 4
  pub storage_key : length sd.storage_key32 ≡ 32
  pub same : sd.delegate ≡ d

-- The blocks of a group are read back as its entries, in their order.
decode_group-blocks :
    (d : Delegate) (head : SetDelegate) (rest : List SetDelegate) (fuel : ℕ) (tail : Bytes)
    (out : List SetDelegate)
    → OfDelegate d head
    → All (OfDelegate d) rest
    → length rest < fuel
    → decode_group fuel d (blocks head rest ++ tail) out ≡ ok (out ++ (head ∷ rest), tail)
unfolding blocks
decode_group-blocks d head rest zero tail out hh hr hf = absurd (omega arith)
decode_group-blocks d head [] (suc fuel) tail out hh hr hf =
    subst
      (λ x. decode_group (suc fuel) x (block head true ++ tail) out ≡ ok (out ++ (head ∷ []), tail))
      hh.same
      (block_final fuel head.selector4 head.storage_key32 tail head.delegate out hh.selector
        hh.storage_key)
decode_group-blocks d head (next ∷ rest) (suc fuel) tail out hh hr hf =
    ap (λ c. decode_group (suc fuel) d c out)
      (append_assoc (block head false) (blocks next rest) tail)
    ∙ subst
        (λ x.
          decode_group (suc fuel) x (block head false ++ (blocks next rest ++ tail)) out
          ≡ decode_group fuel x (blocks next rest ++ tail) (out ++ (head ∷ [])))
        hh.same
        (block_normal fuel head.selector4 head.storage_key32 (blocks next rest ++ tail)
          head.delegate out hh.selector hh.storage_key)
    ∙ decode_group-blocks d next rest fuel tail (out ++ (head ∷ [])) hr.0 hr.1 (omega arith)
    ∙ ap (λ l. ok (l, tail)) (append_assoc out (head ∷ []) (next ∷ rest))

-- The entries of a group.
abbrev pub flatten : List Group → List SetDelegate
flatten [] = []
flatten ((head, rest) ∷ groups) = head ∷ (rest ++ flatten groups)

-- A group of one registered delegate.
abbrev pub IsGroup : SourceMap → Group → Type 0
IsGroup map (head, rest) =
    (get head.delegate.address map ≡ some head.delegate)
    × ((length head.delegate.address ≡ 20)
        × (OfDelegate head.delegate head × All (OfDelegate head.delegate) rest))

length-blocks :
    (head : SetDelegate) (rest : List SetDelegate) → length rest < length (blocks head rest)
unfolding blocks
length-blocks head [] = omega arith
length-blocks head (next ∷ rest) =
    omega (arith, length-blocks next rest, length-append (block head false) (blocks next rest))

find_delegate-registered :
    (map : SourceMap) (a : Bytes) (d : Delegate)
    → length a ≡ 20
    → get a map ≡ some d
    → find_delegate map a ≡ ok d
unfolding find_delegate
find_delegate-registered map a d h e = rw (h, e) refl

-- The groups are read back, whatever follows them, and a pass of the loop is spent on each.
pub decode_groups-encode_groups :
    (map : SourceMap) (groups : List Group) (fuel left : ℕ) (tail : Bytes) (out : List SetDelegate)
    → All (IsGroup map) groups
    → fuel ≡ length groups + left
    → decode_groups fuel map (encode_groups groups ++ tail) out
      ≡ decode_groups left map tail (out ++ flatten groups)
unfolding decode_groups encode_groups find_delegate
decode_groups-encode_groups map [] fuel left tail out hg hf =
    let same : fuel ≡ left = omega arith in
    ap (λ n. decode_groups n map tail out) same
    ∙ ap (decode_groups left map tail) (sym (append-nil out))
decode_groups-encode_groups map (g ∷ groups) zero left tail out hg hf = absurd (omega arith)
decode_groups-encode_groups map ((head, rest) ∷ groups) (suc fuel) left tail out (h, hg) hf =
    rw
      (
        regroup,
        take-append_length 20 address (blocks head rest ++ after) h.1.0,
        drop-append_length 20 address (blocks head rest ++ after) h.1.0,
        find_delegate-registered map address head.delegate h.1.0 h.0,
        decode_group-blocks head.delegate head rest
            (length (address ++ (blocks head rest ++ after))) after out h.1.1.0 h.1.1.1
            (fuel_enough),
      )
      (decode_groups-encode_groups map groups fuel left tail (out ++ (head ∷ rest)) hg (omega arith)
        ∙ ap (decode_groups left map tail) (append_assoc out (head ∷ rest) (flatten groups)))
  where
    address : Bytes
    address = head.delegate.address

    after : Bytes
    after = encode_groups groups ++ tail

    regroup :
        (address ++ (blocks head rest ++ encode_groups groups)) ++ tail
        ≡ address ++ (blocks head rest ++ after)
    regroup =
        append_assoc address (blocks head rest ++ encode_groups groups) tail
        ∙ ap (λ l. address ++ l) (append_assoc (blocks head rest) (encode_groups groups) tail)

    fuel_enough : length rest < length (address ++ (blocks head rest ++ after))
    fuel_enough = omega (
      arith,
      length-blocks head rest,
      length-append address (blocks head rest ++ after),
      length-append (blocks head rest) after,
    )

flatten-add_to_groups :
    (sd : SetDelegate) (groups : List Group)
    → flatten (add_to_groups sd groups) ≡ sd ∷ flatten groups
unfolding add_to_groups
flatten-add_to_groups sd [] = refl
flatten-add_to_groups sd ((head, rest) ∷ groups) =
    elim (Bool-cases (bytes_beq sd.delegate.address head.delegate.address)) [
      | inl e ↦ rw e refl
      | inr e ↦ rw e refl
    ]

-- Grouping keeps the entries in their order.
flatten-group_by : (m : List SetDelegate) → flatten (group_by m) ≡ m
unfolding group_by
flatten-group_by [] = refl
flatten-group_by (sd ∷ sds) =
    flatten-add_to_groups sd (group_by sds) ∙ ap (λ l. sd ∷ l) (flatten-group_by sds)

key_le_total : (x y : SetDelegate) → key_le x y ≡ false → key_le y x ≡ true
unfolding key_le
key_le_total x y h = ground (
  arith,
  bytes_le_total x.selector4 y.selector4,
  bytes_le_total x.delegate.address y.delegate.address,
  bytes_beq_iff x.delegate.address y.delegate.address,
  bytes_beq_iff y.delegate.address x.delegate.address,
)

add_to_groups-IsGroup :
    (map : SourceMap) (sd : SetDelegate) (groups : List Group)
    → IsEncodable map sd
    → All (IsGroup map) groups
    → All (IsGroup map) (add_to_groups sd groups)
unfolding add_to_groups
add_to_groups-IsGroup map sd [] h hg = (
  (
    h.registered,
    (h.address, (record { selector = h.selector; storage_key = h.storage_key; same = refl }, tt)),
  ),
  tt,
)
add_to_groups-IsGroup map sd ((head, rest) ∷ groups) h hg =
    elim (Bool-cases (bytes_beq sd.delegate.address head.delegate.address)) [
      | inl e ↦ rw e (
        (
          h.registered,
          (
            h.address,
            (
              own,
              subst (λ d. OfDelegate d head × All (OfDelegate d) rest) (same_delegate e) hg.0.1.1,
            ),
          ),
        ),
        hg.1,
      )
      | inr e ↦ rw e ((h.registered, (h.address, (own, tt))), hg)
    ]
  where
    own : OfDelegate sd.delegate sd
    own = record { selector = h.selector; storage_key = h.storage_key; same = refl }

    same_delegate :
        bytes_beq sd.delegate.address head.delegate.address ≡ true → head.delegate ≡ sd.delegate
    same_delegate e = some_injective (
        sym hg.0.0
        ∙ ap (λ a. get a map) (sym ((bytes_beq_iff sd.delegate.address head.delegate.address).0 e))
        ∙ h.registered)

pub group_by-IsGroup :
    (map : SourceMap) (m : List SetDelegate)
    → All (IsEncodable map) m
    → All (IsGroup map) (group_by m)
unfolding group_by
group_by-IsGroup map [] h = tt
group_by-IsGroup map (sd ∷ sds) h =
    add_to_groups-IsGroup map sd (group_by sds) h.0 (group_by-IsGroup map sds h.1)

pub length-encode_groups : (groups : List Group) → length groups ≤ length (encode_groups groups)
unfolding encode_groups
length-encode_groups [] = omega arith
length-encode_groups ((head, rest) ∷ groups) = omega (
  arith,
  length-encode_groups groups,
  length-append head.delegate.address (blocks head rest ++ encode_groups groups),
  length-append (blocks head rest) (encode_groups groups),
)

-- The header is read past, and the groups that follow it are decoded, in any order of the entries.
pub decode-encode_sorted :
    (map : SourceMap) (m : List SetDelegate)
    → All (IsEncodable map) m
    → decode map (encode m) ≡ ok (migration m)
unfolding decode encode
decode-encode_sorted map m h =
    ap (λ r. r >>= λ sds. ok (migration sds))
      (ap (λ c. decode_groups (length (encode m)) map c [])
          (sym (append-nil (encode_groups groups)))
        ∙ decode_groups-encode_groups map groups (length (encode m))
            (length (encode m) - length groups) [] [] (group_by-IsGroup map m h)
            (omega (arith, length-encode_groups groups)))
    ∙ ap (λ l. ok (migration l)) (flatten-group_by m)
  where
    groups : List Group
    groups = group_by m

-- Decoding the encoding of a migration gives it back, where every entry has a selector of four
-- bytes, a slot of thirty-two, and a delegate registered under its address of twenty bytes.
pub decode-encode :
    (map : SourceMap) (sds : List SetDelegate)
    → All (IsEncodable map) sds
    → decode map (encode (migration sds)) ≡ ok (migration sds)
unfolding migration
decode-encode map sds h =
    decode-encode_sorted map (migration sds) (All-sort_by key_le (IsEncodable map) sds h)
    ∙ ap ok (sort_by_sorted key_le (migration sds) (sort_by-IsSorted key_le key_le_total sds))
