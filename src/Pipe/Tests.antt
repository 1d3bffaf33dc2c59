-- ===== src/Pipe/Tests.antt =====
-- The theorems on pipes, at a pipe whose counters wrap and at a full one.
use bizcocho_os.Prelude.{◌≡◌, refl, true, false, [], ◌∷◌, arith}
use bizcocho_os.Pipe.{is_full, write_chars, read_chars}
use bizcocho_os.Pipe.Ring.{IsValid}
use bizcocho_os.Pipe.Transfer.{Wrote, Read, write_chars-Wrote, read_chars-Read}
use bizcocho_os.Samples.{wrapping, filled}

wrapping-IsValid : IsValid wrapping
wrapping-IsValid = omega arith

filled-IsValid : IsValid filled
filled-IsValid = omega arith

filled_full : is_full filled ≡ true
unfolding is_full
filled_full = refl

write_chars-Wrote_example :
    Wrote (b'h' ∷ b'i' ∷ []) wrapping (write_chars false (b'h' ∷ b'i' ∷ []) wrapping)
write_chars-Wrote_example = write_chars-Wrote (b'h' ∷ b'i' ∷ []) wrapping wrapping-IsValid

read_chars-Read_example : Read 3 wrapping (read_chars 3 wrapping)
read_chars-Read_example = read_chars-Read 3 wrapping wrapping-IsValid
