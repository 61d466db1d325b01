-- ===== src/Machine/Opcode.antt =====
-- include/bitcoin/bitcoin/machine/opcode.hpp: the operation codes, with the source's names. The
-- families push_size_0 to push_size_75 and reserved_186 to reserved_255 take their number as an
-- argument. `nop2` and `nop3` are other names of the two codes of the lock time checks.
use bitprim_core.Common.{ℕ, ◌-◌, ◌<◌, ◌≡◌, refl, true, List, [], ◌∷◌, leb, ◌==◌, ==_iff}
use bitprim_core.Common.{if◌then◌else◌, get_or, all_below, all_below_sound}

pub data Opcode : Type 0 where
  push_size : ℕ → Opcode
  push_one_size push_two_size push_four_size push_negative_1 reserved_80 push_positive_1 : Opcode
  push_positive_2 push_positive_3 push_positive_4 push_positive_5 push_positive_6 push_positive_7 :
      Opcode
  push_positive_8 push_positive_9 push_positive_10 push_positive_11 push_positive_12 : Opcode
  push_positive_13 push_positive_14 push_positive_15 push_positive_16 nop reserved_98 if_ notif :
      Opcode
  disabled_verif disabled_vernotif else_ endif verify return_ toaltstack fromaltstack drop2 dup2 :
      Opcode
  dup3 over2 rot2 swap2 ifdup depth drop dup nip over pick roll rot swap tuck disabled_cat : Opcode
  disabled_substr disabled_left disabled_right size disabled_invert disabled_and disabled_or :
      Opcode
  disabled_xor equal equalverify reserved_137 reserved_138 add1 sub1 disabled_mul2 disabled_div2 :
      Opcode
  negate abs not_ nonzero add sub disabled_mul disabled_div disabled_mod disabled_lshift : Opcode
  disabled_rshift booland boolor numequal numequalverify numnotequal lessthan greaterthan : Opcode
  lessthanorequal greaterthanorequal min max within ripemd160 sha1 sha256 hash160 hash256 : Opcode
  codeseparator checksig checksigverify checkmultisig checkmultisigverify nop1 : Opcode
  checklocktimeverify checksequenceverify nop4 nop5 nop6 nop7 nop8 nop9 nop10 : Opcode
  reserved : ℕ → Opcode

-- `static_cast<uint8_t>(code)`
unfoldable pub opcode_byte : Opcode → ℕ
opcode_byte (Opcode.push_size n) = n
opcode_byte Opcode.push_one_size = 76
opcode_byte Opcode.push_two_size = 77
opcode_byte Opcode.push_four_size = 78
opcode_byte Opcode.push_negative_1 = 79
opcode_byte Opcode.reserved_80 = 80
opcode_byte Opcode.push_positive_1 = 81
opcode_byte Opcode.push_positive_2 = 82
opcode_byte Opcode.push_positive_3 = 83
opcode_byte Opcode.push_positive_4 = 84
opcode_byte Opcode.push_positive_5 = 85
opcode_byte Opcode.push_positive_6 = 86
opcode_byte Opcode.push_positive_7 = 87
opcode_byte Opcode.push_positive_8 = 88
opcode_byte Opcode.push_positive_9 = 89
opcode_byte Opcode.push_positive_10 = 90
opcode_byte Opcode.push_positive_11 = 91
opcode_byte Opcode.push_positive_12 = 92
opcode_byte Opcode.push_positive_13 = 93
opcode_byte Opcode.push_positive_14 = 94
opcode_byte Opcode.push_positive_15 = 95
opcode_byte Opcode.push_positive_16 = 96
opcode_byte Opcode.nop = 97
opcode_byte Opcode.reserved_98 = 98
opcode_byte Opcode.if_ = 99
opcode_byte Opcode.notif = 100
opcode_byte Opcode.disabled_verif = 101
opcode_byte Opcode.disabled_vernotif = 102
opcode_byte Opcode.else_ = 103
opcode_byte Opcode.endif = 104
opcode_byte Opcode.verify = 105
opcode_byte Opcode.return_ = 106
opcode_byte Opcode.toaltstack = 107
opcode_byte Opcode.fromaltstack = 108
opcode_byte Opcode.drop2 = 109
opcode_byte Opcode.dup2 = 110
opcode_byte Opcode.dup3 = 111
opcode_byte Opcode.over2 = 112
opcode_byte Opcode.rot2 = 113
opcode_byte Opcode.swap2 = 114
opcode_byte Opcode.ifdup = 115
opcode_byte Opcode.depth = 116
opcode_byte Opcode.drop = 117
opcode_byte Opcode.dup = 118
opcode_byte Opcode.nip = 119
opcode_byte Opcode.over = 120
opcode_byte Opcode.pick = 121
opcode_byte Opcode.roll = 122
opcode_byte Opcode.rot = 123
opcode_byte Opcode.swap = 124
opcode_byte Opcode.tuck = 125
opcode_byte Opcode.disabled_cat = 126
opcode_byte Opcode.disabled_substr = 127
opcode_byte Opcode.disabled_left = 128
opcode_byte Opcode.disabled_right = 129
opcode_byte Opcode.size = 130
opcode_byte Opcode.disabled_invert = 131
opcode_byte Opcode.disabled_and = 132
opcode_byte Opcode.disabled_or = 133
opcode_byte Opcode.disabled_xor = 134
opcode_byte Opcode.equal = 135
opcode_byte Opcode.equalverify = 136
opcode_byte Opcode.reserved_137 = 137
opcode_byte Opcode.reserved_138 = 138
opcode_byte Opcode.add1 = 139
opcode_byte Opcode.sub1 = 140
opcode_byte Opcode.disabled_mul2 = 141
opcode_byte Opcode.disabled_div2 = 142
opcode_byte Opcode.negate = 143
opcode_byte Opcode.abs = 144
opcode_byte Opcode.not_ = 145
opcode_byte Opcode.nonzero = 146
opcode_byte Opcode.add = 147
opcode_byte Opcode.sub = 148
opcode_byte Opcode.disabled_mul = 149
opcode_byte Opcode.disabled_div = 150
opcode_byte Opcode.disabled_mod = 151
opcode_byte Opcode.disabled_lshift = 152
opcode_byte Opcode.disabled_rshift = 153
opcode_byte Opcode.booland = 154
opcode_byte Opcode.boolor = 155
opcode_byte Opcode.numequal = 156
opcode_byte Opcode.numequalverify = 157
opcode_byte Opcode.numnotequal = 158
opcode_byte Opcode.lessthan = 159
opcode_byte Opcode.greaterthan = 160
opcode_byte Opcode.lessthanorequal = 161
opcode_byte Opcode.greaterthanorequal = 162
opcode_byte Opcode.min = 163
opcode_byte Opcode.max = 164
opcode_byte Opcode.within = 165
opcode_byte Opcode.ripemd160 = 166
opcode_byte Opcode.sha1 = 167
opcode_byte Opcode.sha256 = 168
opcode_byte Opcode.hash160 = 169
opcode_byte Opcode.hash256 = 170
opcode_byte Opcode.codeseparator = 171
opcode_byte Opcode.checksig = 172
opcode_byte Opcode.checksigverify = 173
opcode_byte Opcode.checkmultisig = 174
opcode_byte Opcode.checkmultisigverify = 175
opcode_byte Opcode.nop1 = 176
opcode_byte Opcode.checklocktimeverify = 177
opcode_byte Opcode.checksequenceverify = 178
opcode_byte Opcode.nop4 = 179
opcode_byte Opcode.nop5 = 180
opcode_byte Opcode.nop6 = 181
opcode_byte Opcode.nop7 = 182
opcode_byte Opcode.nop8 = 183
opcode_byte Opcode.nop9 = 184
opcode_byte Opcode.nop10 = 185
opcode_byte (Opcode.reserved n) = n

-- The codes 76 to 185.
abbrev named_codes : List Opcode
named_codes =
    Opcode.push_one_size ∷ Opcode.push_two_size ∷ Opcode.push_four_size ∷ Opcode.push_negative_1
    ∷ Opcode.reserved_80 ∷ Opcode.push_positive_1 ∷ Opcode.push_positive_2 ∷ Opcode.push_positive_3
    ∷ Opcode.push_positive_4 ∷ Opcode.push_positive_5 ∷ Opcode.push_positive_6
    ∷ Opcode.push_positive_7 ∷ Opcode.push_positive_8 ∷ Opcode.push_positive_9
    ∷ Opcode.push_positive_10 ∷ Opcode.push_positive_11 ∷ Opcode.push_positive_12
    ∷ Opcode.push_positive_13 ∷ Opcode.push_positive_14 ∷ Opcode.push_positive_15
    ∷ Opcode.push_positive_16 ∷ Opcode.nop ∷ Opcode.reserved_98 ∷ Opcode.if_ ∷ Opcode.notif
    ∷ Opcode.disabled_verif ∷ Opcode.disabled_vernotif ∷ Opcode.else_ ∷ Opcode.endif ∷ Opcode.verify
    ∷ Opcode.return_ ∷ Opcode.toaltstack ∷ Opcode.fromaltstack ∷ Opcode.drop2 ∷ Opcode.dup2
    ∷ Opcode.dup3 ∷ Opcode.over2 ∷ Opcode.rot2 ∷ Opcode.swap2 ∷ Opcode.ifdup ∷ Opcode.depth
    ∷ Opcode.drop ∷ Opcode.dup ∷ Opcode.nip ∷ Opcode.over ∷ Opcode.pick ∷ Opcode.roll ∷ Opcode.rot
    ∷ Opcode.swap ∷ Opcode.tuck ∷ Opcode.disabled_cat ∷ Opcode.disabled_substr
    ∷ Opcode.disabled_left ∷ Opcode.disabled_right ∷ Opcode.size ∷ Opcode.disabled_invert
    ∷ Opcode.disabled_and ∷ Opcode.disabled_or ∷ Opcode.disabled_xor ∷ Opcode.equal
    ∷ Opcode.equalverify ∷ Opcode.reserved_137 ∷ Opcode.reserved_138 ∷ Opcode.add1 ∷ Opcode.sub1
    ∷ Opcode.disabled_mul2 ∷ Opcode.disabled_div2 ∷ Opcode.negate ∷ Opcode.abs ∷ Opcode.not_
    ∷ Opcode.nonzero ∷ Opcode.add ∷ Opcode.sub ∷ Opcode.disabled_mul ∷ Opcode.disabled_div
    ∷ Opcode.disabled_mod ∷ Opcode.disabled_lshift ∷ Opcode.disabled_rshift ∷ Opcode.booland
    ∷ Opcode.boolor ∷ Opcode.numequal ∷ Opcode.numequalverify ∷ Opcode.numnotequal ∷ Opcode.lessthan
    ∷ Opcode.greaterthan ∷ Opcode.lessthanorequal ∷ Opcode.greaterthanorequal ∷ Opcode.min
    ∷ Opcode.max ∷ Opcode.within ∷ Opcode.ripemd160 ∷ Opcode.sha1 ∷ Opcode.sha256 ∷ Opcode.hash160
    ∷ Opcode.hash256 ∷ Opcode.codeseparator ∷ Opcode.checksig ∷ Opcode.checksigverify
    ∷ Opcode.checkmultisig ∷ Opcode.checkmultisigverify ∷ Opcode.nop1 ∷ Opcode.checklocktimeverify
    ∷ Opcode.checksequenceverify ∷ Opcode.nop4 ∷ Opcode.nop5 ∷ Opcode.nop6 ∷ Opcode.nop7
    ∷ Opcode.nop8 ∷ Opcode.nop9 ∷ Opcode.nop10 ∷ []

-- `static_cast<opcode>(byte)`
unfoldable pub opcode_from_byte : ℕ → Opcode
opcode_from_byte b =
    if leb b 75
    then Opcode.push_size b
    else if leb b 185
    then get_or named_codes (b - 76) (Opcode.reserved b)
    else Opcode.reserved b

opcode_table : all_below 256 (λ b. opcode_byte (opcode_from_byte b) == b) ≡ true
unfolding all_below opcode_byte opcode_from_byte
opcode_table = refl

-- Every byte is the number of the code that it is read as.
pub opcode_byte-opcode_from_byte : (b : ℕ) → b < 256 → opcode_byte (opcode_from_byte b) ≡ b
opcode_byte-opcode_from_byte b h = (==_iff _ b).0 (all_below_sound 256 _ b opcode_table h)
