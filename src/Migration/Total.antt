-- ===== src/Migration/Total.antt =====
-- migration.py: `Migration.decode` comes to an end on any byte string.
use josuke.Prelude.{
  ℕ, zero, suc, ◌≤◌, ◌<◌, ◌≡◌, ◌≢◌, ◌⊎◌, refl, subst, Bool, true, false, ◌&&◌, List, [], ◌∷◌, ◌++◌,
  arith, length, length-drop, length-append, All, ◌-◌, ap, ◌∙◌, length-take, take, drop, slice,
  nat_beq, nat_beq_iff, if◌then◌else◌, Bool-cases, inl, inr, Option, some, none, Option-cases,
  if_cases,
}
use josuke.Prelude.Bytes.{Bytes}
use josuke.Prelude.Dict.{get}
use josuke.Prelude.Eq.{bytes_eq, bytes_beq}
use josuke.Migration.RoundTrip.{
  IsEncodable, decode_groups-encode_groups, group_by-IsGroup, length-encode_groups,
}
use josuke.Migration.{
  encode, encode_groups, group_by, Delegate, SourceMap, SetDelegate, Decoded, ok, invalid,
  unknown_delegate, not_an_address, stuck, ◌>>=◌, is_normal, is_final, decode_group, find_delegate,
  decode_groups, decode, normal_block_size, final_block_size, normal_head, final_head, migration,
  selector_delegated_sig,
}

-- A result that is no fuel's end, and leaves at most `n` bytes.
abbrev Within : ℕ → Decoded (List SetDelegate × Bytes) → Type 0
Within n (ok r) = length r.1 ≤ n
Within n invalid = Unit
Within n unknown_delegate = Unit
Within n not_an_address = Unit
Within n stuck = ⊥

Within-le : (m n : ℕ) (r : Decoded (List SetDelegate × Bytes)) → m ≤ n → Within m r → Within n r
Within-le m n (ok r) h w = omega arith
Within-le m n invalid h w = tt
Within-le m n unknown_delegate h w = tt
Within-le m n not_an_address h w = tt
Within-le m n stuck h w = w

and-left : (a b : Bool) → (a && b) ≡ true → a ≡ true
and-left true b h = refl
and-left false b h = h

Within-if :
    (n : ℕ) (b : Bool) (x y : Decoded (List SetDelegate × Bytes))
    → (b ≡ true → Within n x)
    → Within n y
    → Within n (if b then x else y)
Within-if n true x y hx hy = hx refl
Within-if n false x y hx hy = hy

normal_length : (code : Bytes) → is_normal (take normal_block_size code) ≡ true → 48 ≤ length code
unfolding is_normal
normal_length code h =
    omega (arith, length-take 48 code, (nat_beq_iff (length (take 48 code)) 48).0 (and-left _ _ h))

decode_group-Within :
    (fuel : ℕ) (d : Delegate) (code : Bytes) (out : List SetDelegate)
    → length code < fuel
    → Within (length code) (decode_group fuel d code out)
unfolding decode_group
decode_group-Within zero d code out h = absurd (omega arith)
decode_group-Within (suc fuel) d code out h =
    Within-if (length code) (bytes_beq (take 2 code) (take 2 normal_head)) _ _
      (λ _.
        Within-if (length code) (is_normal (take normal_block_size code)) _ invalid
          (λ e.
            Within-le (length (drop normal_block_size code)) (length code) _
              (omega (arith, length-drop 48 code))
              (decode_group-Within fuel d (drop normal_block_size code) _
                (omega (arith, length-drop 48 code, normal_length code e))))
          tt)
      (Within-if (length code) (bytes_beq (take 2 code) final_head) _ invalid
        (λ _.
          Within-if (length code) (is_final (take final_block_size code)) _ invalid
            (λ _. omega (arith, length-drop 47 code)) tt)
        tt)

length-find_delegate :
    (map : SourceMap) (a : Bytes) → (length a ≡ 20) ⊎ (find_delegate map a ≡ not_an_address)
unfolding find_delegate
length-find_delegate map a = elim (Bool-cases (nat_beq (length a) 20)) [
  | inl e ↦ inl ((nat_beq_iff (length a) 20).0 e)
  | inr e ↦ inr (rw e refl)
]

find_delegate-ne-stuck : (map : SourceMap) (a : Bytes) → find_delegate map a ≢ stuck
unfolding find_delegate
find_delegate-ne-stuck map a e =
    elim (if_cases (nat_beq (length a) 20)
      (elim (get a map) [ some d ↦ ok d | none ↦ unknown_delegate ]) not_an_address e) [
        | inl (_, p) ↦ elim (Option-cases (get a map)) [
          | inl n ↦ found none n p
          | inr (d, n) ↦ found (some d) n p
        ]
        | inr (_, p) ↦ cc
      ]
  where
    found :
        (o : Option Delegate)
        → get a map ≡ o
        → (elim (get a map) as (λ _. Decoded Delegate) [ some d ↦ ok d | none ↦ unknown_delegate ])
          ≡ stuck
        → ⊥
    found none n p = cc
    found (some d) n p = cc

-- A chain is stuck only if one of its steps is.
>>=-ne-stuck {ℓ κ} :
    {A : Type ℓ} {B : Type κ} (m : Decoded A) (f : A → Decoded B)
    → m ≢ stuck
    → ((a : A) → m ≡ ok a → f a ≢ stuck)
    → (m >>= f) ≢ stuck
>>=-ne-stuck (ok a) f h k = k a refl
>>=-ne-stuck invalid f h k = λ p. cc
>>=-ne-stuck unknown_delegate f h k = λ p. cc
>>=-ne-stuck not_an_address f h k = λ p. cc
>>=-ne-stuck stuck f h k = absurd (h refl)

Within-ne-stuck : (n : ℕ) (r : Decoded (List SetDelegate × Bytes)) → Within n r → r ≢ stuck
Within-ne-stuck n (ok r) w = λ p. cc
Within-ne-stuck n invalid w = λ p. cc
Within-ne-stuck n unknown_delegate w = λ p. cc
Within-ne-stuck n not_an_address w = λ p. cc
Within-ne-stuck n stuck w = absurd w

-- A delegate is found only at an address of twenty bytes.
find_delegate-eq-ok :
    (map : SourceMap) (a : Bytes) (d : Delegate) → find_delegate map a ≡ ok d → length a ≡ 20
find_delegate-eq-ok map a d e = elim (length-find_delegate map a) [ inl h ↦ h | inr h ↦ cc ]

decode_groups-ne-stuck :
    (fuel : ℕ) (map : SourceMap) (code : Bytes) (out : List SetDelegate)
    → length code ≤ fuel
    → decode_groups fuel map code out ≢ stuck
unfolding decode_groups
decode_groups-ne-stuck fuel map [] out h = λ e. cc
decode_groups-ne-stuck zero map (b ∷ bs) out h = absurd (omega arith)
decode_groups-ne-stuck (suc fuel) map (b ∷ bs) out h = λ e. elim (if_cases (nat_beq b 0x73) _ _ e) [
  | inl (_, p) ↦
      >>=-ne-stuck (find_delegate map (slice 1 21 (b ∷ bs))) _
        (find_delegate-ne-stuck map (slice 1 21 (b ∷ bs)))
        (λ d q.
          >>=-ne-stuck (decode_group (length bs) d (drop 20 bs) out) _
            (Within-ne-stuck (length (drop 20 bs)) _ (group d q))
            (λ r u. decode_groups-ne-stuck fuel map r.1 r.0 (
              omega
                (arith, length-drop 20 bs, subst (Within (length (drop 20 bs))) u (group d q)))))
        p
  | inr (_, p) ↦ cc
]
  where
    group :
        (d : Delegate)
        → find_delegate map (slice 1 21 (b ∷ bs)) ≡ ok d
        → Within (length (drop 20 bs)) (decode_group (length bs) d (drop 20 bs) out)
    group d q = decode_group-Within (length bs) d (drop 20 bs) out (
        omega
          (arith, length-drop 20 bs, length-take 20 bs, find_delegate-eq-ok map (take 20 bs) d q))

-- Decoding ends, for any map and any byte string.
pub decode-ne-stuck : (map : SourceMap) (code : Bytes) → decode map code ≢ stuck
unfolding decode
decode-ne-stuck map code e =
    elim (if_cases
      (bytes_beq (slice 0 1 code) (0x7f ∷ []) && bytes_beq (slice 1 33 code) selector_delegated_sig)
      (decode_groups (length code) map (drop 33 code) [] >>= λ sds. ok (migration sds)) invalid e) [
        | inl (_, p) ↦
            >>=-ne-stuck (decode_groups (length code) map (drop 33 code) []) _
              (decode_groups-ne-stuck (length code) map (drop 33 code) []
                (omega (arith, length-drop 33 code)))
              (λ sds q r. cc) p
        | inr (_, p) ↦ cc
      ]

find_delegate-short :
    (map : SourceMap) (a : Bytes) → length a < 20 → find_delegate map a ≡ not_an_address
find_delegate-short map a h = elim (length-find_delegate map a) [
  | inl e ↦ absurd (omega arith)
  | inr e ↦ e
]

decode_groups-truncated :
    (fuel : ℕ) (map : SourceMap) (address : Bytes) (out : List SetDelegate)
    → 0 < fuel
    → length address < 20
    → decode_groups fuel map (0x73 ∷ address) out ≡ not_an_address
unfolding decode_groups
decode_groups-truncated zero map address out f h = absurd (omega arith)
decode_groups-truncated (suc fuel) map address out f h =
    rw (find_delegate-short map (take 20 address) (omega (arith, length-take 20 address))) refl

-- A script of any whole groups, of entries with a selector of four bytes, a slot of thirty-two and a
-- delegate registered under its address of twenty bytes, that ends within the address of one more group
-- is answered by the address that cannot be read, not by an invalid migration.
pub decode-truncated :
    (map : SourceMap) (sds : List SetDelegate) (address : Bytes)
    → All (IsEncodable map) sds
    → length address < 20
    → decode map (encode sds ++ (0x73 ∷ address)) ≡ not_an_address
unfolding decode encode
decode-truncated map sds address h short =
    let groups = group_by sds in
    let tail = 0x73 ∷ address in
    let fuel = length (encode sds ++ tail) in
    ap (λ r. r >>= λ found. ok (migration found))
      (decode_groups-encode_groups map groups fuel (fuel - length groups) tail []
          (group_by-IsGroup map sds h)
          (omega (arith, length-encode_groups groups, length-append (encode_groups groups) tail))
        ∙ decode_groups-truncated (fuel - length groups) map address _
            (omega (arith, length-encode_groups groups, length-append (encode_groups groups) tail))
            short)
