-- ===== src/Snark/Gadgets.antt =====
-- yacl/snark/gadgets.cc. A number of bits or rounds is not negative; a gadget that throws does so
-- before it changes the builder.
pub mod Bits
pub mod Logic
pub mod Mimc
use yacl_r.Base.{
  ℕ, zero, suc, ◌+◌, ◌^◌, Bool, true, false, ◌&&◌, List, [], ◌∷◌, Option, none, some, get_elem?,
  Result, ok, err, fault, enforce_not_met, ltb, ◌==◌, if◌then◌else◌,
}
use yacl_r.Base.Int.{ℤ, pos, negsuc, ◌*ℤ◌}
use yacl_r.Snark.Builder.{
  CircuitBuilder, M, ◌>>=◌, ◌>>◌, pure, alloc_private, add, sub, mul, mul_const, add_const,
  assert_boolean, assert_equal,
}

unfoldable pub boolean : M ℕ
boolean = do v ← alloc_private; assert_boolean v; pure v

pub bool_and : ℕ → ℕ → M ℕ
bool_and a b = mul a b

pub bool_or : ℕ → ℕ → M ℕ
bool_or a b = do ab ← mul a b; sum ← add a b; sub sum ab

unfoldable pub bool_not : ℕ → M ℕ
bool_not a = do negated ← mul_const a (negsuc 0); add_const negated (pos 1)

pub bool_xor : ℕ → ℕ → M ℕ
bool_xor a b = do ab ← mul a b; two_ab ← mul_const ab (pos 2); sum ← add a b; sub sum two_ab

-- The loop of `FromBits`, on the bits that are left.
unfoldable pub pack : List ℕ → ℤ → ℕ → M ℕ
pack [] power result = pure result
pack (bit ∷ r) power result = do
  scaled ← mul_const bit power
  sum ← add result scaled
  pack r (power *ℤ pos 2) sum

unfoldable pub from_bits : List ℕ → CircuitBuilder → Result (ℕ × CircuitBuilder)
unfolding pack
from_bits [] cb = err enforce_not_met
from_bits (bit ∷ r) cb = ok (pack r (pos 2) bit cb)

-- The loop of `ToBits` that makes the bits, of which `n` are left.
unfoldable pub booleans : ℕ → M (List ℕ)
unfolding boolean
booleans zero cb = ([], cb)
booleans (suc n) cb =
    let (bit, cb') = boolean cb in let (bits, cb'') = booleans n cb' in (bit ∷ bits, cb'')

unfoldable pub to_bits : ℕ → ℕ → CircuitBuilder → Result (List ℕ × CircuitBuilder)
unfolding from_bits booleans
to_bits var num_bits cb =
    if num_bits == 0
    then err enforce_not_met
    else let (bits, cb') = booleans num_bits cb in
      elim (from_bits bits cb') [
        | err e ↦ err e
        | ok (packed, cb'') ↦ ok (bits, (assert_equal packed var cb'').1)
      ]

unfoldable pub range_check : ℕ → ℕ → CircuitBuilder → Result (Unit {0} × CircuitBuilder)
unfolding to_bits
range_check var num_bits cb = elim (to_bits var num_bits cb) [
  | err e ↦ err e
  | ok (bits, cb') ↦ ok (tt, cb')
]

unfoldable pub less_than : ℕ → ℕ → ℕ → CircuitBuilder → Result (ℕ × CircuitBuilder)
unfolding to_bits bool_not
less_than a b num_bits cb =
    if ltb 0 num_bits && ltb num_bits 253
    then (let (a_plus_offset, cb1) = add_const a (pos (2 ^ num_bits)) cb in
        let (diff, cb2) = sub a_plus_offset b cb1 in
        elim (to_bits diff (num_bits + 1) cb2) [
          | err e ↦ err e
          | ok (bits, cb3) ↦ elim (get_elem? bits num_bits) [
            | none ↦ err fault
            | some high ↦ ok (bool_not high cb3)
          ]
        ])
    else err enforce_not_met

pub select : ℕ → ℕ → ℕ → M ℕ
select cond a b = do diff ← sub a b; selected ← mul cond diff; add selected b

-- A round of `MiMCHash`, after the round constant was added.
unfoldable pub mimc_round : ℕ → ℕ → M ℕ
mimc_round key state = do
  x2 ← mul state state
  x4 ← mul x2 x2
  x6 ← mul x4 x2
  x7 ← mul x6 state
  add x7 key

-- The loop of `MiMCHash` from round `r` on, of which `n` rounds are left.
unfoldable pub mimc_rounds : ℕ → ℕ → ℕ → ℕ → M ℕ
unfolding mimc_round
mimc_rounds key zero r state = pure state
mimc_rounds key (suc n) r state = do
  constant_added ← (if ltb 0 r then add_const state (pos r) else pure state)
  next ← mimc_round key constant_added
  mimc_rounds key n (r + 1) next

unfoldable pub mimc_hash : ℕ → ℕ → ℕ → CircuitBuilder → Result (ℕ × CircuitBuilder)
unfolding mimc_rounds
mimc_hash input key rounds cb =
    if ltb 0 rounds
    then (let (state, cb') = add input key cb in ok (mimc_rounds key rounds 0 state cb'))
    else err enforce_not_met
