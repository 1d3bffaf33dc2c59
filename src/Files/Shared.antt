-- ===== src/Files/Shared.antt =====
-- `initializeFiles` and `openSharedMem` of Kernel/c/ipc/files.c.
use bizcocho_os.Prelude.{ℕ, [], leb, ◌==◌, if◌then◌else◌, update}
use bizcocho_os.Kernel.{Kernel}

-- `initializeFiles`, where there is memory for the list.
unfoldable pub initialize_files : Kernel → Kernel
initialize_files k = record k { pipes = [] }

-- `openSharedMem` with what `memalloc` gives, 0 for `NULL`: the address, and `sharedMems`.
unfoldable pub open_shared_mem : ℕ → ℕ → (ℕ → ℕ) → ℕ × (ℕ → ℕ)
open_shared_mem given id mems =
    if leb 20 id
    then (0, mems)
    else (if mems id == 0 then (given, update mems id given) else (mems id, mems))
