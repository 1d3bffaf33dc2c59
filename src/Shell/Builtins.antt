-- ===== src/Shell/Builtins.antt =====
-- The commands that the shell runs itself and that change a process (`kill` and `block` of
-- Userland/SampleCodeModule/c/bizcocho.c, `nice` and `color` of commands.c), with `satoi` of testing_utils.c, and
-- the programs `cat`, `wc` and `filter` of commands.c. The text of a message is left out. Input
-- is the list of the characters that the calls of `sys_read` give.
pub mod Pids
pub mod Filters
use bizcocho_os.Prelude.{
  ℕ, zero, suc, ◌+◌, ◌*◌, ◌-◌, ◌%◌, ◌^◌, Bool, not, true, false, ◌&&◌, ◌||◌, Option, none, some,
  List, [], ◌∷◌, ltb, leb, ◌==◌, if◌then◌else◌,
}
use bizcocho_os.Process.{Schedule}
use bizcocho_os.Text.{is_digit}
use bizcocho_os.Scheduler.{change_priority}
use bizcocho_os.Blocking.{block_process}
use bizcocho_os.Kernel.{Kernel, kill_process}

-- The loop of `satoi`, with `res` as the bits of an `int64_t`; `none` is the return of 0.
unfoldable pub satoi_from : ℕ → List ℕ → Option ℕ
satoi_from res [] = some res
satoi_from res (c ∷ cs) =
    let rest = satoi_from ((res * 10 + (c - 48)) % 2 ^ 64) cs in if is_digit c then rest else none

abbrev pub signed_res : Bool → Option ℕ → ℕ
signed_res negative none = 0
signed_res negative (some res) = if negative then (2 ^ 64 - res) % 2 ^ 64 else res

-- `satoi`
unfoldable pub satoi : List ℕ → ℕ
unfolding satoi_from
satoi [] = signed_res false (satoi_from 0 [])
satoi (c ∷ cs) =
    if c == b'-'
    then signed_res true (satoi_from 0 cs)
    else signed_res false (satoi_from 0 (c ∷ cs))

-- What a command says.
pub data Reply : Type 0 where
  wrong_argument_count : Reply
  not_the_shell : Reply
  not_init : Reply
  no_such_process : ℕ → Reply
  done : ℕ → Reply

-- What `kill` and `block` say once the system call is back.
abbrev pub reply_of : ℕ → Bool × Kernel → Reply × Kernel
reply_of pid (could, k) =
    (if could then done pid else (if pid == 1 then not_init else no_such_process pid), k)

-- `kill`, for the pid of the shell and the arguments.
unfoldable pub kill : ℕ → List (List ℕ) → Kernel → Reply × Kernel
kill bizcocho_pid (arg ∷ []) k =
    let pid = satoi arg % 2 ^ 32 in
    if pid == bizcocho_pid then (not_the_shell, k) else reply_of pid (kill_process pid k)
kill bizcocho_pid _ k = (wrong_argument_count, k)

-- `block`
unfoldable pub block : ℕ → List (List ℕ) → Kernel → Reply × Kernel
block bizcocho_pid (arg ∷ []) k =
    let pid = satoi arg % 2 ^ 32 in
    let (could, s) = block_process pid k.schedule in
    if pid == bizcocho_pid
    then (not_the_shell, k)
    else reply_of pid (could, record k { schedule = s })
block bizcocho_pid _ k = (wrong_argument_count, k)

-- `nice`; one message stands for both reasons.
unfoldable pub nice : List (List ℕ) → Schedule → Reply × Schedule
nice (arg ∷ (level ∷ [])) s =
    let pid = satoi arg % 2 ^ 32 in
    let (could, s') = change_priority pid (satoi level % 2 ^ 8) s in
    (if could then done pid else no_such_process pid, s')
nice _ s = (wrong_argument_count, s)

abbrev pub white : ℕ
white = 15

-- A `color_t` is an `int`: below `BLACK`, or above `WHITE`.
abbrev pub is_no_color : ℕ → Bool
is_no_color c = leb (2 ^ 31) c || ltb white c

-- `color`: the colours that it passes to the kernel, where it does.
unfoldable pub color : List (List ℕ) → Option (ℕ × ℕ)
color (background ∷ (character ∷ [])) =
    let b = satoi background % 2 ^ 32 in
    let c = satoi character % 2 ^ 32 in if is_no_color b || is_no_color c then none else some (b, c)
color _ = none

-- `cat`: what it prints; `none` where it still waits.
unfoldable pub cat : List ℕ → Option (List ℕ)
cat [] = none
cat (c ∷ cs) =
    let rest : Option (List ℕ) = elim (cat cs) [ none ↦ none | some ps ↦ some (c ∷ ps) ] in
    if c == 0 then some (c ∷ []) else rest

-- `wc`, with `lines` counted in 16 bits.
unfoldable pub wc : ℕ → List ℕ → Option ℕ
wc lines [] = none
wc lines (c ∷ cs) =
    let counted = if c == b'\n' then (lines + 1) % 2 ^ 16 else lines in
    let rest = wc counted cs in if c == 0 then some counted else rest

abbrev pub is_vowel : ℕ → Bool
is_vowel c =
    c == b'A'
    || c == b'E'
    || c == b'I'
    || c == b'O'
    || c == b'U'
    || c == b'a'
    || c == b'e'
    || c == b'i'
    || c == b'o'
    || c == b'u'

-- `filter`
unfoldable pub filter : List ℕ → Option (List ℕ)
filter [] = none
filter (c ∷ cs) =
    let rest : Option (List ℕ) = elim (filter cs) [
      | none ↦ none
      | some ps ↦ some (if not (is_vowel c) then c ∷ ps else ps)
    ] in
    if c == 0 then some (if not (is_vowel c) then c ∷ [] else []) else rest
