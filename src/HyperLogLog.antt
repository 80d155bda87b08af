-- ===== src/HyperLogLog.antt =====
-- The sampled HyperLogLog registers of the spread sketch: the first half of
-- internal/engine/impl/sketch/statistic/super_spread.go. The float64 operations are a parameter.
pub mod Zeros
pub mod Registers
mod Tests
use go2net_spectra.Base.{
  ℕ, zero, suc, ◌+◌, ◌-◌, ◌*◌, ◌/◌, ◌%◌, ◌^◌, min, ◌==◌, ltb, leb, if◌then◌else◌, Bool, Bytes, List,
  get_or, set, replicate,
}
use go2net_spectra.Murmur.{u32, murmur_hash3}
use go2net_spectra.CountMin.{draw}

-- What the code uses of float64. `to_int x` is the number of rounds of a loop that counts `int(x)`
-- down to zero.
pub record Floats : Type 1 where
  pub F : Type 0
  pub zero : F
  pub one : F
  pub point_five : F
  pub one_point_zero_eight : F
  pub minus_one : F
  pub of_uint32 : ℕ → F
  pub neg : F → F
  pub add : F → F → F
  pub div : F → F → F
  pub pow : F → F → F
  pub ceil : F → F
  pub to_int : F → ℕ
  pub eq : F → F → Bool
  pub lt : F → F → Bool
  pub ge : F → F → Bool

-- `GeneralHLL`, less `size`, which only the constructor reads.
pub record GeneralHll (F : Type 0) : Type 0 where
  pub m : ℕ
  pub base : F
  pub max_value : ℕ
  pub hll : List ℕ
  pub seeds : List ℕ
  pub pbits : F

abbrev pub hll_default_m : ℕ
hll_default_m = 128

abbrev pub hll_default_size : ℕ
hll_default_size = 5

-- The loop of `leadingZeros32`, for at most `fuel` rounds.
unfoldable pub count_zeros : ℕ → ℕ → ℕ
count_zeros zero x = 0
count_zeros (suc fuel) x =
    let rest = count_zeros fuel (u32 (x * 2)) in if x / 2 ^ 31 % 2 == 0 then suc rest else 0

-- A word that is not 0 has its first one within 32 bits.
unfoldable pub leading_zeros32 : ℕ → ℕ
leading_zeros32 x = if x == 0 then 32 else count_zeros 32 x

module _ (fl : Floats) where
  -- `NewGeneralHLL`, with its seeds drawn from the n-th on.
  unfoldable pub new_general_hll : (ℕ → ℕ) → ℕ → ℕ → ℕ → fl.F → GeneralHll fl.F
  new_general_hll rand n m size base = record {
    m = m;
    base = base;
    max_value = u32 (u32 (2 ^ size) + (2 ^ 32 - 1));
    hll = replicate m 0;
    seeds = draw rand n (m + 1);
    pbits = fl.one;
  }

  unfoldable pub geometric_hash : GeneralHll fl.F → Bytes → ℕ
  unfolding leading_zeros32
  geometric_hash g element =
      min (leading_zeros32 (murmur_hash3 element (get_or g.seeds 0 0)) + 1) g.max_value

  -- The register of an element.
  unfoldable pub register : GeneralHll fl.F → Bytes → ℕ
  register g element = murmur_hash3 element (get_or g.seeds 1 0) % g.m

  -- `g.pbits` after the two `atomicAddFloat64`.
  abbrev pub add_pbits : GeneralHll fl.F → ℕ → ℕ → fl.F
  add_pbits g old zeros =
      let lower =
        fl.add g.pbits (fl.div (fl.neg (fl.pow g.base (fl.of_uint32 old))) (fl.of_uint32 g.m)) in
      if ltb zeros g.max_value
      then fl.add lower (fl.div (fl.pow g.base (fl.of_uint32 zeros)) (fl.of_uint32 g.m))
      else lower

  -- `encode`: the probability, and the structure it leaves.
  unfoldable pub encode : GeneralHll fl.F → Bytes → fl.F × GeneralHll fl.F
  unfolding geometric_hash register
  encode g element =
      let zeros = geometric_hash g element in
      let idx = register g element in
      let old = get_or g.hll idx 0 in
      if leb zeros old
      then (fl.minus_one, g)
      else (g.pbits, record g { hll = set g.hll idx zeros; pbits = add_pbits g old zeros })
