-- ===== src/HyperLogLog/Tests.antt =====
-- Leading zeros of one word.
use go2net_spectra.Base.{◌*◌, ◌^◌, ◌≤◌, ◌<◌, ◌≡◌, refl, arith}
use go2net_spectra.HyperLogLog.{leading_zeros32, count_zeros}
use go2net_spectra.HyperLogLog.Zeros.{leading_zeros32_lem}

five_has_29 : leading_zeros32 5 ≡ 29
unfolding leading_zeros32 count_zeros
five_has_29 = refl

leading_zeros32_example :
    (2 ^ 31 ≤ 5 * 2 ^ leading_zeros32 5) × (5 * 2 ^ leading_zeros32 5 < 2 ^ 32)
leading_zeros32_example = leading_zeros32_lem 5 (omega arith) (omega arith)
