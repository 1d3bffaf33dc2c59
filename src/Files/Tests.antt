-- ===== src/Files/Tests.antt =====
-- The theorems on files at a process with a pipe open.
use bizcocho_os.Files.Printf.{expand, number, text}
use bizcocho_os.Files.Shared.{open_shared_mem}
use bizcocho_os.Text.{convert}
use bizcocho_os.Prelude.{ℕ, ◌^◌, ◌-◌, ◌≡◌, refl, false, some, none, List, [], ◌∷◌, arith}
use bizcocho_os.Pipe.{Pipe}
use bizcocho_os.Pipe.Ring.{IsValid}
use bizcocho_os.Kernel.{Kernel, find_pipe}
use bizcocho_os.Blocking.Laws.{IsListed}
use bizcocho_os.Files.{find_named, open_pipe, write_pipe, read_pipe}
use bizcocho_os.Files.Writing.{Effect, write_pipe-Effect}
use bizcocho_os.Files.Reading.{Took, read_pipe-Took}
use bizcocho_os.Files.Opening.{Conserves, HasRoom, open_pipe-Conserves}
use bizcocho_os.Samples.{three, wrapping}

abbrev named : Pipe
named = record wrapping { name = b'p' ∷ [] }

abbrev one_pipe : Kernel
one_pipe = record { schedule = three; pipes = named ∷ []; next_file_id = 8 }

only-named : (name : List ℕ) (p : Pipe) → find_named name one_pipe.pipes ≡ some p → p.file_id ≡ 7
unfolding find_named
only-named name p e = ground (arith, e)

one_pipe-HasRoom : HasRoom one_pipe.pipes
one_pipe-HasRoom = record {
  unique = λ id. ground arith;
  small = λ id. ground arith;
  in_range = λ name p e. omega (arith, only-named name p e);
}

three-IsListed : IsListed three
three-IsListed p code = ground arith

named-IsValid : IsValid named
named-IsValid = omega arith

named-found : find_pipe 7 one_pipe.pipes ≡ some named
unfolding find_pipe
named-found = refl

write_pipe-Effect_example :
    Effect 7 (b'a' ∷ b'b' ∷ []) named one_pipe (write_pipe false 7 (b'a' ∷ b'b' ∷ []) one_pipe)
write_pipe-Effect_example =
    write_pipe-Effect 7 (b'a' ∷ b'b' ∷ []) one_pipe named three-IsListed named-found named-IsValid

open_pipe-Conserves_example : Conserves one_pipe (open_pipe (b'p' ∷ []) b'W' one_pipe).1
open_pipe-Conserves_example = open_pipe-Conserves (b'p' ∷ []) b'W' one_pipe refl one_pipe-HasRoom

read_pipe-Took_example : Took 7 3 named one_pipe (read_pipe 7 3 one_pipe)
read_pipe-Took_example = read_pipe-Took 7 3 one_pipe named three-IsListed named-found named-IsValid

-- A number that is padded, and a negative one.
printed :
    expand none
      (b'%' ∷ b'3' ∷ b'd' ∷ b' ' ∷ b'%' ∷ b's' ∷ b'%' ∷ b'd' ∷ [])
      (number 7 ∷ text (b'o' ∷ b'k' ∷ []) ∷ number (2 ^ 32 - 5) ∷ [])
    ≡ some (b'0' ∷ b'0' ∷ b'7' ∷ b' ' ∷ b'o' ∷ b'k' ∷ b'-' ∷ b'5' ∷ [])
unfolding expand convert
printed = refl

cut_short : expand none (b'%' ∷ []) [] ≡ none
unfolding expand
cut_short = refl

shared_once : (open_shared_mem 300 4 (λ _. 200)).0 ≡ 200
unfolding open_shared_mem
shared_once = refl
