-- ===== src/Pack.antt =====
-- smp_ig.C and histo.C, the client programs: a global index of the table is packed into one word, the
-- index in its PE's part above 16 bits of the PE, and taken apart where the request is sent. Words
-- have 64 bits and stay below the sign.
pub mod Digits
pub mod Index
pub mod Gather
pub mod Histo
pub mod Tests
use Prim.Native.Nat.{bit_and, bit_or}
use htram.Prelude.{ℕ, ◌*◌, ◌/◌, ◌%◌, ◌^◌}

-- `(lindx << 16) | (pe & 0xffff)`
unfoldable pub pack : ℕ → ℕ → ℕ
pack lindx pe = bit_or (lindx * 2 ^ 16) (bit_and pe 0xffff)

-- `lindx = indx / CkNumPes(); pe = indx % CkNumPes(); pckindx[i] = (lindx << 16) | (pe & 0xffff);`
unfoldable pub pack_index : ℕ → ℕ → ℕ
unfolding pack
pack_index num_pes indx = pack (indx / num_pes) (indx % num_pes)

-- `pckindx[i] >> 16`
unfoldable pub local_of : ℕ → ℕ
local_of word = word / 2 ^ 16

-- `pckindx[i] & 0xffff`
unfoldable pub pe_of : ℕ → ℕ
pe_of word = bit_and word 0xffff
