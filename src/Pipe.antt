-- ===== src/Pipe.antt =====
-- The pipes of Kernel/include/files.h, and the transfer of characters in `write` and `read` of
-- Kernel/c/ipc/files.c. A call runs until the process blocks; what is left then is part of the
-- result, and the call goes on from it when the process is woken.
pub mod Ring
pub mod Transfer
mod Tests
use bizcocho_os.Prelude.{
  ℕ, zero, suc, ◌+◌, ◌-◌, ◌%◌, ◌^◌, Bool, true, false, ◌&&◌, not, List, [], ◌∷◌, ltb, ◌==◌,
  if◌then◌else◌, update,
}

abbrev pub max_pipe_buffer_size : ℕ
max_pipe_buffer_size = 1024

-- `size_t` arithmetic.
abbrev pub size_mod : ℕ
size_mod = 2 ^ 64

-- `pipeFile_t`; the id is the bit pattern of its `int16_t`, the buffer a function of the index.
pub record Pipe : Type 0 where
  pub file_id : ℕ
  pub name : List ℕ
  pub buffer : ℕ → ℕ
  pub reading_index : ℕ
  pub writing_index : ℕ
  pub write_open_count : ℕ
  pub current_open_count : ℕ

-- The test of `write` for a full pipe; the subtraction wraps.
unfoldable pub is_full : Pipe → Bool
is_full p =
    (p.reading_index + size_mod - 1) % size_mod % max_pipe_buffer_size
    == p.writing_index % max_pipe_buffer_size

-- The test of `read` for an empty pipe.
unfoldable pub is_empty : Pipe → Bool
is_empty p = p.reading_index % max_pipe_buffer_size == p.writing_index % max_pipe_buffer_size

-- `pipe->buffer[pipe->writingIndex++ % MAX_PIPE_BUFFER_SIZE] = c`
unfoldable pub put_char : ℕ → Pipe → Pipe
put_char c p = record p {
  buffer = update p.buffer (p.writing_index % max_pipe_buffer_size) c;
  writing_index = (p.writing_index + 1) % size_mod;
}

-- `pipe->readingIndex++`, once the character is read.
unfoldable pub drop_char : Pipe → Pipe
drop_char p = record p { reading_index = (p.reading_index + 1) % size_mod }

abbrev pub first_char : Pipe → ℕ
first_char p = p.buffer (p.reading_index % max_pipe_buffer_size)

-- The `while` of `write` over the characters of `s`, up to the call of `blockProcessWithReason`: the
-- characters that are left, none where the loop has ended. `woken` says that the loop goes on behind
-- that call: the character is then written whether the pipe is full or not.
unfoldable pub write_chars : Bool → List ℕ → Pipe → List ℕ × Pipe
write_chars woken [] p = ([], p)
write_chars woken (c ∷ cs) p =
    let further = write_chars false cs (put_char c p) in
    if not woken && is_full p then (c ∷ cs, p) else further

-- How the `while` of `read` stops: all the characters asked for are there, no process can write any
-- more and a 0 was put behind them, or the process blocks with so many still to read.
pub data Stop : Type 0 where
  complete : Stop
  ended : Stop
  blocked : ℕ → Stop

abbrev pub add_read : ℕ → List ℕ × Stop × Pipe → List ℕ × Stop × Pipe
add_read c r = (c ∷ r.0, r.1, r.2)

-- The `while` of `read` for `n` more characters.
unfoldable pub read_chars : ℕ → Pipe → List ℕ × Stop × Pipe
read_chars zero p = ([], complete, p)
read_chars (suc n) p =
    let further = add_read (first_char p) (read_chars n (drop_char p)) in
    if is_empty p
    then (if ltb 0 p.write_open_count then ([], blocked (suc n), p) else (0 ∷ [], ended, p))
    else further

-- `charactersLeftToRead` of `getPipeInfo`, a `uint16_t`.
unfoldable pub characters_left : Pipe → ℕ
characters_left p =
    let w = p.writing_index % max_pipe_buffer_size in
    let r = p.reading_index % max_pipe_buffer_size in
    (if ltb w r then max_pipe_buffer_size - w else w - r) % 2 ^ 16
