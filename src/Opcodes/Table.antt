-- ===== src/Opcodes/Table.antt =====
-- src/josuke/opcodes.py: every instruction that the module names, with its byte.
use josuke.Prelude.{
  ℕ, ◌≡◌, refl, Option, none, some, List, [], ◌∷◌, ◌++◌, map, nat_beq, if◌then◌else◌, ap, sym, ◌∙◌,
}
use josuke.Prelude.Dict.{some_injective}

-- Instructions of computation, memory and control.
pub data Operation : Type 0 where
  stop_op : Operation
  add_op : Operation
  mul_op : Operation
  sub_op : Operation
  div_op : Operation
  sdiv_op : Operation
  mod_op : Operation
  smod_op : Operation
  addmod_op : Operation
  mulmod_op : Operation
  exp_op : Operation
  signextend_op : Operation
  lt_op : Operation
  gt_op : Operation
  slt_op : Operation
  sgt_op : Operation
  eq_op : Operation
  iszero_op : Operation
  and_op : Operation
  or_op : Operation
  xor_op : Operation
  not_op : Operation
  byte_op : Operation
  shl_op : Operation
  shr_op : Operation
  sar_op : Operation
  clz_op : Operation
  sha3_op : Operation
  address_op : Operation
  balance_op : Operation
  origin_op : Operation
  caller_op : Operation
  callvalue_op : Operation
  calldataload_op : Operation
  calldatasize_op : Operation
  calldatacopy_op : Operation
  codesize_op : Operation
  codecopy_op : Operation
  gasprice_op : Operation
  extcodesize_op : Operation
  extcodecopy_op : Operation
  returndatasize_op : Operation
  returndatacopy_op : Operation
  extcodehash_op : Operation
  blockhash_op : Operation
  coinbase_op : Operation
  timestamp_op : Operation
  number_op : Operation
  prevrandao_op : Operation
  gaslimit_op : Operation
  chainid_op : Operation
  selfbalance_op : Operation
  basefee_op : Operation
  blobhash_op : Operation
  blobbasefee_op : Operation
  pop_op : Operation
  mload_op : Operation
  mstore_op : Operation
  mstore8_op : Operation
  sload_op : Operation
  sstore_op : Operation
  jump_op : Operation
  jumpi_op : Operation
  pc_op : Operation
  msize_op : Operation
  gas_op : Operation
  jumpdest_op : Operation
  tload_op : Operation
  tstore_op : Operation
  mcopy_op : Operation

unfoldable pub operation_code : Operation → ℕ
operation_code stop_op = 0x00
operation_code add_op = 0x01
operation_code mul_op = 0x02
operation_code sub_op = 0x03
operation_code div_op = 0x04
operation_code sdiv_op = 0x05
operation_code mod_op = 0x06
operation_code smod_op = 0x07
operation_code addmod_op = 0x08
operation_code mulmod_op = 0x09
operation_code exp_op = 0x0a
operation_code signextend_op = 0x0b
operation_code lt_op = 0x10
operation_code gt_op = 0x11
operation_code slt_op = 0x12
operation_code sgt_op = 0x13
operation_code eq_op = 0x14
operation_code iszero_op = 0x15
operation_code and_op = 0x16
operation_code or_op = 0x17
operation_code xor_op = 0x18
operation_code not_op = 0x19
operation_code byte_op = 0x1a
operation_code shl_op = 0x1b
operation_code shr_op = 0x1c
operation_code sar_op = 0x1d
operation_code clz_op = 0x1e
operation_code sha3_op = 0x20
operation_code address_op = 0x30
operation_code balance_op = 0x31
operation_code origin_op = 0x32
operation_code caller_op = 0x33
operation_code callvalue_op = 0x34
operation_code calldataload_op = 0x35
operation_code calldatasize_op = 0x36
operation_code calldatacopy_op = 0x37
operation_code codesize_op = 0x38
operation_code codecopy_op = 0x39
operation_code gasprice_op = 0x3a
operation_code extcodesize_op = 0x3b
operation_code extcodecopy_op = 0x3c
operation_code returndatasize_op = 0x3d
operation_code returndatacopy_op = 0x3e
operation_code extcodehash_op = 0x3f
operation_code blockhash_op = 0x40
operation_code coinbase_op = 0x41
operation_code timestamp_op = 0x42
operation_code number_op = 0x43
operation_code prevrandao_op = 0x44
operation_code gaslimit_op = 0x45
operation_code chainid_op = 0x46
operation_code selfbalance_op = 0x47
operation_code basefee_op = 0x48
operation_code blobhash_op = 0x49
operation_code blobbasefee_op = 0x4a
operation_code pop_op = 0x50
operation_code mload_op = 0x51
operation_code mstore_op = 0x52
operation_code mstore8_op = 0x53
operation_code sload_op = 0x54
operation_code sstore_op = 0x55
operation_code jump_op = 0x56
operation_code jumpi_op = 0x57
operation_code pc_op = 0x58
operation_code msize_op = 0x59
operation_code gas_op = 0x5a
operation_code jumpdest_op = 0x5b
operation_code tload_op = 0x5c
operation_code tstore_op = 0x5d
operation_code mcopy_op = 0x5e

-- Instructions that push, copy and exchange words of the stack.
pub data StackOperation : Type 0 where
  push0_op : StackOperation
  push1_op : StackOperation
  push2_op : StackOperation
  push3_op : StackOperation
  push4_op : StackOperation
  push5_op : StackOperation
  push6_op : StackOperation
  push7_op : StackOperation
  push8_op : StackOperation
  push9_op : StackOperation
  push10_op : StackOperation
  push11_op : StackOperation
  push12_op : StackOperation
  push13_op : StackOperation
  push14_op : StackOperation
  push15_op : StackOperation
  push16_op : StackOperation
  push17_op : StackOperation
  push18_op : StackOperation
  push19_op : StackOperation
  push20_op : StackOperation
  push21_op : StackOperation
  push22_op : StackOperation
  push23_op : StackOperation
  push24_op : StackOperation
  push25_op : StackOperation
  push26_op : StackOperation
  push27_op : StackOperation
  push28_op : StackOperation
  push29_op : StackOperation
  push30_op : StackOperation
  push31_op : StackOperation
  push32_op : StackOperation
  dup1_op : StackOperation
  dup2_op : StackOperation
  dup3_op : StackOperation
  dup4_op : StackOperation
  dup5_op : StackOperation
  dup6_op : StackOperation
  dup7_op : StackOperation
  dup8_op : StackOperation
  dup9_op : StackOperation
  dup10_op : StackOperation
  dup11_op : StackOperation
  dup12_op : StackOperation
  dup13_op : StackOperation
  dup14_op : StackOperation
  dup15_op : StackOperation
  dup16_op : StackOperation
  swap1_op : StackOperation
  swap2_op : StackOperation
  swap3_op : StackOperation
  swap4_op : StackOperation
  swap5_op : StackOperation
  swap6_op : StackOperation
  swap7_op : StackOperation
  swap8_op : StackOperation
  swap9_op : StackOperation
  swap10_op : StackOperation
  swap11_op : StackOperation
  swap12_op : StackOperation
  swap13_op : StackOperation
  swap14_op : StackOperation
  swap15_op : StackOperation
  swap16_op : StackOperation

unfoldable pub stack_code : StackOperation → ℕ
stack_code push0_op = 0x5f
stack_code push1_op = 0x60
stack_code push2_op = 0x61
stack_code push3_op = 0x62
stack_code push4_op = 0x63
stack_code push5_op = 0x64
stack_code push6_op = 0x65
stack_code push7_op = 0x66
stack_code push8_op = 0x67
stack_code push9_op = 0x68
stack_code push10_op = 0x69
stack_code push11_op = 0x6a
stack_code push12_op = 0x6b
stack_code push13_op = 0x6c
stack_code push14_op = 0x6d
stack_code push15_op = 0x6e
stack_code push16_op = 0x6f
stack_code push17_op = 0x70
stack_code push18_op = 0x71
stack_code push19_op = 0x72
stack_code push20_op = 0x73
stack_code push21_op = 0x74
stack_code push22_op = 0x75
stack_code push23_op = 0x76
stack_code push24_op = 0x77
stack_code push25_op = 0x78
stack_code push26_op = 0x79
stack_code push27_op = 0x7a
stack_code push28_op = 0x7b
stack_code push29_op = 0x7c
stack_code push30_op = 0x7d
stack_code push31_op = 0x7e
stack_code push32_op = 0x7f
stack_code dup1_op = 0x80
stack_code dup2_op = 0x81
stack_code dup3_op = 0x82
stack_code dup4_op = 0x83
stack_code dup5_op = 0x84
stack_code dup6_op = 0x85
stack_code dup7_op = 0x86
stack_code dup8_op = 0x87
stack_code dup9_op = 0x88
stack_code dup10_op = 0x89
stack_code dup11_op = 0x8a
stack_code dup12_op = 0x8b
stack_code dup13_op = 0x8c
stack_code dup14_op = 0x8d
stack_code dup15_op = 0x8e
stack_code dup16_op = 0x8f
stack_code swap1_op = 0x90
stack_code swap2_op = 0x91
stack_code swap3_op = 0x92
stack_code swap4_op = 0x93
stack_code swap5_op = 0x94
stack_code swap6_op = 0x95
stack_code swap7_op = 0x96
stack_code swap8_op = 0x97
stack_code swap9_op = 0x98
stack_code swap10_op = 0x99
stack_code swap11_op = 0x9a
stack_code swap12_op = 0x9b
stack_code swap13_op = 0x9c
stack_code swap14_op = 0x9d
stack_code swap15_op = 0x9e
stack_code swap16_op = 0x9f

-- Instructions that log, call, create and end.
pub data SystemOperation : Type 0 where
  log0_op : SystemOperation
  log1_op : SystemOperation
  log2_op : SystemOperation
  log3_op : SystemOperation
  log4_op : SystemOperation
  create_op : SystemOperation
  call_op : SystemOperation
  callcode_op : SystemOperation
  return_op : SystemOperation
  delegatecall_op : SystemOperation
  create2_op : SystemOperation
  staticcall_op : SystemOperation
  revert_op : SystemOperation
  invalid_op : SystemOperation
  selfdestruct_op : SystemOperation

unfoldable pub system_code : SystemOperation → ℕ
system_code log0_op = 0xa0
system_code log1_op = 0xa1
system_code log2_op = 0xa2
system_code log3_op = 0xa3
system_code log4_op = 0xa4
system_code create_op = 0xf0
system_code call_op = 0xf1
system_code callcode_op = 0xf2
system_code return_op = 0xf3
system_code delegatecall_op = 0xf4
system_code create2_op = 0xf5
system_code staticcall_op = 0xfa
system_code revert_op = 0xfd
system_code invalid_op = 0xfe
system_code selfdestruct_op = 0xff

-- Any instruction.
pub data Opcode : Type 0 where
  operation : Operation → Opcode
  stack : StackOperation → Opcode
  system : SystemOperation → Opcode

unfoldable pub code : Opcode → ℕ
unfolding operation_code stack_code system_code
code (operation o) = operation_code o
code (stack o) = stack_code o
code (system o) = system_code o

operations : List Operation
operations =
    stop_op ∷ add_op ∷ mul_op ∷ sub_op ∷ div_op ∷ sdiv_op ∷ mod_op ∷ smod_op ∷ addmod_op ∷ mulmod_op
    ∷ exp_op ∷ signextend_op ∷ lt_op ∷ gt_op ∷ slt_op ∷ sgt_op ∷ eq_op ∷ iszero_op ∷ and_op ∷ or_op
    ∷ xor_op ∷ not_op ∷ byte_op ∷ shl_op ∷ shr_op ∷ sar_op ∷ clz_op ∷ sha3_op ∷ address_op
    ∷ balance_op ∷ origin_op ∷ caller_op ∷ callvalue_op ∷ calldataload_op ∷ calldatasize_op
    ∷ calldatacopy_op ∷ codesize_op ∷ codecopy_op ∷ gasprice_op ∷ extcodesize_op ∷ extcodecopy_op
    ∷ returndatasize_op ∷ returndatacopy_op ∷ extcodehash_op ∷ blockhash_op ∷ coinbase_op
    ∷ timestamp_op ∷ number_op ∷ prevrandao_op ∷ gaslimit_op ∷ chainid_op ∷ selfbalance_op
    ∷ basefee_op ∷ blobhash_op ∷ blobbasefee_op ∷ pop_op ∷ mload_op ∷ mstore_op ∷ mstore8_op
    ∷ sload_op ∷ sstore_op ∷ jump_op ∷ jumpi_op ∷ pc_op ∷ msize_op ∷ gas_op ∷ jumpdest_op ∷ tload_op
    ∷ tstore_op ∷ mcopy_op ∷ []

stack_operations : List StackOperation
stack_operations =
    push0_op ∷ push1_op ∷ push2_op ∷ push3_op ∷ push4_op ∷ push5_op ∷ push6_op ∷ push7_op ∷ push8_op
    ∷ push9_op ∷ push10_op ∷ push11_op ∷ push12_op ∷ push13_op ∷ push14_op ∷ push15_op ∷ push16_op
    ∷ push17_op ∷ push18_op ∷ push19_op ∷ push20_op ∷ push21_op ∷ push22_op ∷ push23_op ∷ push24_op
    ∷ push25_op ∷ push26_op ∷ push27_op ∷ push28_op ∷ push29_op ∷ push30_op ∷ push31_op ∷ push32_op
    ∷ dup1_op ∷ dup2_op ∷ dup3_op ∷ dup4_op ∷ dup5_op ∷ dup6_op ∷ dup7_op ∷ dup8_op ∷ dup9_op
    ∷ dup10_op ∷ dup11_op ∷ dup12_op ∷ dup13_op ∷ dup14_op ∷ dup15_op ∷ dup16_op ∷ swap1_op
    ∷ swap2_op ∷ swap3_op ∷ swap4_op ∷ swap5_op ∷ swap6_op ∷ swap7_op ∷ swap8_op ∷ swap9_op
    ∷ swap10_op ∷ swap11_op ∷ swap12_op ∷ swap13_op ∷ swap14_op ∷ swap15_op ∷ swap16_op ∷ []

system_operations : List SystemOperation
system_operations =
    log0_op ∷ log1_op ∷ log2_op ∷ log3_op ∷ log4_op ∷ create_op ∷ call_op ∷ callcode_op ∷ return_op
    ∷ delegatecall_op ∷ create2_op ∷ staticcall_op ∷ revert_op ∷ invalid_op ∷ selfdestruct_op ∷ []

all_opcodes : List Opcode
unfolding operations stack_operations system_operations
all_opcodes =
    map operation operations ++ (map stack stack_operations ++ map system system_operations)

find_code : ℕ → List Opcode → Option Opcode
unfolding code
find_code n [] = none
find_code n (o ∷ os) = if nat_beq (code o) n then some o else find_code n os

-- The instruction of a byte, if it is named.
unfoldable pub opcode_at : ℕ → Option Opcode
unfolding find_code all_opcodes
opcode_at n = find_code n all_opcodes

operation_at : (o : Operation) → opcode_at (operation_code o) ≡ some (operation o)
unfolding opcode_at operation_code
operation_at stop_op = refl
operation_at add_op = refl
operation_at mul_op = refl
operation_at sub_op = refl
operation_at div_op = refl
operation_at sdiv_op = refl
operation_at mod_op = refl
operation_at smod_op = refl
operation_at addmod_op = refl
operation_at mulmod_op = refl
operation_at exp_op = refl
operation_at signextend_op = refl
operation_at lt_op = refl
operation_at gt_op = refl
operation_at slt_op = refl
operation_at sgt_op = refl
operation_at eq_op = refl
operation_at iszero_op = refl
operation_at and_op = refl
operation_at or_op = refl
operation_at xor_op = refl
operation_at not_op = refl
operation_at byte_op = refl
operation_at shl_op = refl
operation_at shr_op = refl
operation_at sar_op = refl
operation_at clz_op = refl
operation_at sha3_op = refl
operation_at address_op = refl
operation_at balance_op = refl
operation_at origin_op = refl
operation_at caller_op = refl
operation_at callvalue_op = refl
operation_at calldataload_op = refl
operation_at calldatasize_op = refl
operation_at calldatacopy_op = refl
operation_at codesize_op = refl
operation_at codecopy_op = refl
operation_at gasprice_op = refl
operation_at extcodesize_op = refl
operation_at extcodecopy_op = refl
operation_at returndatasize_op = refl
operation_at returndatacopy_op = refl
operation_at extcodehash_op = refl
operation_at blockhash_op = refl
operation_at coinbase_op = refl
operation_at timestamp_op = refl
operation_at number_op = refl
operation_at prevrandao_op = refl
operation_at gaslimit_op = refl
operation_at chainid_op = refl
operation_at selfbalance_op = refl
operation_at basefee_op = refl
operation_at blobhash_op = refl
operation_at blobbasefee_op = refl
operation_at pop_op = refl
operation_at mload_op = refl
operation_at mstore_op = refl
operation_at mstore8_op = refl
operation_at sload_op = refl
operation_at sstore_op = refl
operation_at jump_op = refl
operation_at jumpi_op = refl
operation_at pc_op = refl
operation_at msize_op = refl
operation_at gas_op = refl
operation_at jumpdest_op = refl
operation_at tload_op = refl
operation_at tstore_op = refl
operation_at mcopy_op = refl

stack_at : (o : StackOperation) → opcode_at (stack_code o) ≡ some (stack o)
unfolding opcode_at stack_code
stack_at push0_op = refl
stack_at push1_op = refl
stack_at push2_op = refl
stack_at push3_op = refl
stack_at push4_op = refl
stack_at push5_op = refl
stack_at push6_op = refl
stack_at push7_op = refl
stack_at push8_op = refl
stack_at push9_op = refl
stack_at push10_op = refl
stack_at push11_op = refl
stack_at push12_op = refl
stack_at push13_op = refl
stack_at push14_op = refl
stack_at push15_op = refl
stack_at push16_op = refl
stack_at push17_op = refl
stack_at push18_op = refl
stack_at push19_op = refl
stack_at push20_op = refl
stack_at push21_op = refl
stack_at push22_op = refl
stack_at push23_op = refl
stack_at push24_op = refl
stack_at push25_op = refl
stack_at push26_op = refl
stack_at push27_op = refl
stack_at push28_op = refl
stack_at push29_op = refl
stack_at push30_op = refl
stack_at push31_op = refl
stack_at push32_op = refl
stack_at dup1_op = refl
stack_at dup2_op = refl
stack_at dup3_op = refl
stack_at dup4_op = refl
stack_at dup5_op = refl
stack_at dup6_op = refl
stack_at dup7_op = refl
stack_at dup8_op = refl
stack_at dup9_op = refl
stack_at dup10_op = refl
stack_at dup11_op = refl
stack_at dup12_op = refl
stack_at dup13_op = refl
stack_at dup14_op = refl
stack_at dup15_op = refl
stack_at dup16_op = refl
stack_at swap1_op = refl
stack_at swap2_op = refl
stack_at swap3_op = refl
stack_at swap4_op = refl
stack_at swap5_op = refl
stack_at swap6_op = refl
stack_at swap7_op = refl
stack_at swap8_op = refl
stack_at swap9_op = refl
stack_at swap10_op = refl
stack_at swap11_op = refl
stack_at swap12_op = refl
stack_at swap13_op = refl
stack_at swap14_op = refl
stack_at swap15_op = refl
stack_at swap16_op = refl

system_at : (o : SystemOperation) → opcode_at (system_code o) ≡ some (system o)
unfolding opcode_at system_code
system_at log0_op = refl
system_at log1_op = refl
system_at log2_op = refl
system_at log3_op = refl
system_at log4_op = refl
system_at create_op = refl
system_at call_op = refl
system_at callcode_op = refl
system_at return_op = refl
system_at delegatecall_op = refl
system_at create2_op = refl
system_at staticcall_op = refl
system_at revert_op = refl
system_at invalid_op = refl
system_at selfdestruct_op = refl

-- Every instruction is found again by its byte.
pub opcode_at-code : (o : Opcode) → opcode_at (code o) ≡ some o
unfolding code
opcode_at-code (operation o) = operation_at o
opcode_at-code (stack o) = stack_at o
opcode_at-code (system o) = system_at o

-- No two instructions share a byte.
pub code_injective : (x y : Opcode) → code x ≡ code y → x ≡ y
code_injective x y h = some_injective (sym (opcode_at-code x) ∙ ap opcode_at h ∙ opcode_at-code y)
