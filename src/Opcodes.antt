-- ===== src/Opcodes.antt =====
-- src/josuke/opcodes.py: the opcodes that the generated code uses, as bytes, and `push`.
pub mod Table
mod Tests
use josuke.Prelude.{ℕ, zero, suc, ◌+◌, ◌/◌, ◌%◌, [], ◌∷◌, nat_beq, if◌then◌else◌, length}
use josuke.Prelude.Bytes.{Bytes}

abbrev pub add : ℕ
add = 0x01

abbrev pub shl : ℕ
shl = 0x1b

abbrev pub mstore : ℕ
mstore = 0x52

abbrev pub sstore : ℕ
sstore = 0x55

abbrev pub msize : ℕ
msize = 0x59

abbrev pub push0 : ℕ
push0 = 0x5f

abbrev pub push1 : ℕ
push1 = 0x60

abbrev pub push4 : ℕ
push4 = 0x63

abbrev pub push20 : ℕ
push20 = 0x73

abbrev pub push32 : ℕ
push32 = 0x7f

abbrev pub dup1 : ℕ
dup1 = 0x80

abbrev pub dup2 : ℕ
dup2 = 0x81

abbrev pub dup3 : ℕ
dup3 = 0x82

abbrev pub dup4 : ℕ
dup4 = 0x83

abbrev pub dup5 : ℕ
dup5 = 0x84

abbrev pub swap1 : ℕ
swap1 = 0x90

abbrev pub log3 : ℕ
log3 = 0xa3

abbrev pub return_op : ℕ
return_op = 0xf3

-- The big-endian bytes of a number with no leading zero, by at most `fuel` divisions.
unfoldable pub bytes_of : ℕ → ℕ → Bytes → Bytes
bytes_of zero n tail = tail
bytes_of (suc fuel) n tail =
    let more = bytes_of fuel (n / 256) (n % 256 ∷ tail) in if nat_beq n 0 then tail else more

-- `n.to_bytes((n.bit_length() + 7) // 8, "big")`. A number below 2 ^ 256 has at most 32 bytes.
unfoldable pub to_bytes : ℕ → Bytes
to_bytes n = bytes_of 33 n []

-- Of a number with fewer than 33 bytes, which `push` asserts.
unfoldable pub push : ℕ → Bytes
push n = let body = to_bytes n in if nat_beq n 0 then push0 ∷ [] else (push0 + length body) ∷ body
