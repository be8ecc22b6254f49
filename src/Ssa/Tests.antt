-- ===== src/Ssa/Tests.antt =====
-- Runs of the names of the operations.
use impulse_jit.Ssa.Names.{opcode_from_string-opcode_to_string}
use impulse_jit.Ssa.{SsaOpcode, SsaOpcode, opcode_from_string, opcode_to_string}
use impulse_jit.Token.{codes}
use impulse_jit.Base.{◌↔◌, Bool, true, false, ◌≡◌, ◌≢◌, ap}

is_named : SsaOpcode → Bool
is_named SsaOpcode.unknown = false
is_named _ = true

assign_is_named : SsaOpcode.assign ≢ SsaOpcode.unknown
assign_is_named e = let t = ap is_named e in absurd cc

opcode_from_string-opcode_to_string_example :
    opcode_from_string (codes "assign") ≡ SsaOpcode.assign
    ↔ codes "assign" ≡ opcode_to_string SsaOpcode.assign
opcode_from_string-opcode_to_string_example =
    opcode_from_string-opcode_to_string (codes "assign") SsaOpcode.assign assign_is_named
