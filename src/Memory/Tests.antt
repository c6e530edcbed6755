-- ===== src/Memory/Tests.antt =====
-- memory.c on a memory whose byte at each address is the address modulo 256.
use boba_os.Base.{◌%◌, ◌≡◌, refl, Ram}
use boba_os.Memory.{memcpy, memcmp, memset, below}

abbrev ramp : Ram
ramp a = a % 256

-- Four bytes moved down by two, over themselves.
memcpy_run : memcpy ramp 10 12 4 11 ≡ 13
unfolding memcpy
memcpy_run = refl

memcmp_run : memcmp ramp 1 2 3 ≡ below
unfolding memcmp
memcmp_run = refl

memset_run : memset ramp 3 7 2 4 ≡ 7
unfolding memset
memset_run = refl
