-- ===== src/Life/Failing.antt =====
-- `startProcess` when memory runs out on the way.
use bizcocho_os.Prelude.{
  ℕ, ◌+◌, ◌≡◌, refl, Bool, not, true, false, ◌&&◌, ◌||◌, List, if◌then◌else◌, arith,
}
use bizcocho_os.Kernel.{Kernel}
use bizcocho_os.Kernel.Counts.{open_count, entries_of}
use bizcocho_os.Life.{Memory, count_fds, copied_fds, start_process, start_child_process}
use bizcocho_os.Life.Starting.{CanCopy, count_fds-open_count}

-- All that `startProcess` allocates for a process that is put on the death list or not.
abbrev pub has_memory : Memory → Bool → Bool
has_memory memory dies =
    memory.for_pcb
    && (memory.for_stack
        && (memory.for_replacements && (memory.for_node && (not dies || memory.for_death_list))))

-- What a start that fails leaves: the pid 0, and the counts of the pipes.
pub record Fails (memory : Memory) (k : Kernel) (r : ℕ × Kernel) : Type 0 where
  pub pid : r.0 ≡ 0
  pub counts :
      (id : ℕ)
      → open_count id r.1.pipes
        ≡ open_count id k.pipes
          + (if memory.for_pcb && memory.for_stack
              then entries_of id (k.schedule.process k.schedule.running).fds
              else 0)

copies_counted :
    (k : Kernel)
    → CanCopy (k.schedule.process k.schedule.running).fds k.pipes
    → (id : ℕ)
    → open_count id (count_fds (k.schedule.process k.schedule.running).fds k.pipes)
      ≡ open_count id k.pipes + entries_of id (k.schedule.process k.schedule.running).fds
copies_counted k c id =
    (count_fds-open_count (k.schedule.process k.schedule.running).fds k.pipes c id).0

abbrev memory_of : (pcb stack replacements node listed : Bool) → Memory
memory_of pcb stack replacements node listed = record {
  for_pcb = pcb;
  for_stack = stack;
  for_replacements = replacements;
  for_node = node;
  for_death_list = listed;
}

-- The failing allocation, one after the other.
memory_of-Fails :
    (pcb stack replacements node listed dies : Bool) (name : List ℕ) (k : Kernel)
    → has_memory (memory_of pcb stack replacements node listed) dies ≡ false
    → CanCopy (k.schedule.process k.schedule.running).fds k.pipes
    → Fails
        (memory_of pcb stack replacements node listed)
        k
        (start_child_process (memory_of pcb stack replacements node listed) name dies k)
unfolding start_child_process start_process copied_fds
memory_of-Fails false b c d e dies name k lacks can = record {
  pid = refl;
  counts = λ id. omega arith;
}
memory_of-Fails true false c d e dies name k lacks can = record {
  pid = refl;
  counts = λ id. omega arith;
}
memory_of-Fails true true false d e dies name k lacks can = record {
  pid = refl;
  counts = copies_counted k can;
}
memory_of-Fails true true true false e dies name k lacks can = record {
  pid = refl;
  counts = copies_counted k can;
}
memory_of-Fails true true true true e false name k lacks can = absurd (cc)
memory_of-Fails true true true true true true name k lacks can = absurd (cc)
memory_of-Fails true true true true false true name k lacks can = record {
  pid = refl;
  counts = copies_counted k can;
}

-- `startChildProcess` where one of its allocations fails and the pipes that the parent holds are there: it returns 0, and
-- from the third allocation on every pipe stays copies_counted for the copies of the parent's descriptors, which no
-- process has.
pub start_child_process-Fails :
    (memory : Memory) (name : List ℕ) (dies : Bool) (k : Kernel)
    → has_memory memory dies ≡ false
    → CanCopy (k.schedule.process k.schedule.running).fds k.pipes
    → Fails memory k (start_child_process memory name dies k)
start_child_process-Fails memory name dies k lacks can =
    memory_of-Fails memory.for_pcb memory.for_stack memory.for_replacements memory.for_node
      memory.for_death_list dies name k lacks can
