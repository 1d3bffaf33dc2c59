-- ===== src/Memory/Tests.antt =====
-- A copy by words, and a fill.
use bizcocho_os.Prelude.{◌≡◌, refl, inl, arith}
use bizcocho_os.Strings.{Bytes}
use bizcocho_os.Memory.{memset, set_bytes, memcpy, copied, memcpy-copied}

abbrev numbered : Bytes
numbered = λ a. a

memcpy-copied_example : memcpy 8 100 12 numbered 19 ≡ copied 8 100 12 numbered 19
memcpy-copied_example = memcpy-copied 8 100 12 numbered (inl (omega arith)) 19

filled : memset 8 511 3 numbered 10 ≡ 255
unfolding memset set_bytes
filled = refl
