-- ===== src/Murmur/Tests.antt =====
-- Published test vectors of MurmurHash3_x86_32.

use go2net_spectra.Base.{◌≡◌, refl, [], ◌∷◌, text}
use go2net_spectra.Murmur.{murmur_hash3}

empty_seed_0 : murmur_hash3 [] 0 ≡ 0
unfolding murmur_hash3
empty_seed_0 = refl

empty_seed_1 : murmur_hash3 [] 1 ≡ 0x514e28b7
unfolding murmur_hash3
empty_seed_1 = refl

four_bytes : murmur_hash3 (0x21 ∷ 0x43 ∷ 0x65 ∷ 0x87 ∷ []) 0 ≡ 0xf55b516b
unfolding murmur_hash3
four_bytes = refl

three_bytes : murmur_hash3 (0x21 ∷ 0x43 ∷ 0x65 ∷ []) 0 ≡ 0x7e4a8634
unfolding murmur_hash3
three_bytes = refl

two_bytes : murmur_hash3 (0x21 ∷ 0x43 ∷ []) 0 ≡ 0xa0f7b07a
unfolding murmur_hash3
two_bytes = refl

one_byte : murmur_hash3 (0x21 ∷ []) 0 ≡ 0x72661cf4
unfolding murmur_hash3
one_byte = refl

hello_world : murmur_hash3 (text "Hello, world!") 0x9747b28c ≡ 0x24884cba
unfolding murmur_hash3
hello_world = refl
