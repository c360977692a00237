-- ===== src/Opcodes/Tests.antt =====
-- opcodes.py: two names of one byte.
use josuke.Prelude.{◌≡◌, refl}
use josuke.Opcodes.Table.{operation, add_op, code_injective}

code_injective_example : operation add_op ≡ operation add_op
code_injective_example = code_injective (operation add_op) (operation add_op) refl
