-- ===== src/Descriptors/Tests.antt =====
-- The theorems on descriptors at a process with a pipe open.
use bizcocho_os.Prelude.{◌≡◌, refl, true, some}
use bizcocho_os.Process.{Schedule}
use bizcocho_os.Descriptors.{free_fd, open_file, dup2_entries, revert_entries}
use bizcocho_os.Descriptors.Laws.{Opens, open_file-Opens}
use bizcocho_os.Samples.{three}

lowest : (open_file 9 b'W' three).0 ≡ some 5
unfolding open_file free_fd
lowest = refl

open_file-Opens_example : Opens 9 b'W' three (open_file 9 b'W' three)
open_file-Opens_example = open_file-Opens 9 b'W' three refl

-- `dup2` of the pipe to the standard output, and back
abbrev reverted : Schedule
reverted = revert_entries (dup2_entries true true 4 1 three).1
