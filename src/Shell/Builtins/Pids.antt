-- ===== src/Shell/Builtins/Pids.antt =====
-- The pids that `kill` and `block` read, as `convert` writes them.
use bizcocho_os.Prelude.{
  ℕ, ◌+◌, ◌*◌, ◌-◌, ◌%◌, ◌^◌, ◌<◌, ◌≤◌, ◌≡◌, refl, false, Option, none, some, List, [], ◌∷◌, ◌==◌,
  if◌then◌else◌, Bool-cases, inl, inr, arith,
}
use mathlib.Core.Path.{subst}
use mathlib.Core.Option.{none-ne-some}
use bizcocho_os.Text.{is_digit, read_digits, convert}
use bizcocho_os.Text.Reading.{read_digits-convert}
use bizcocho_os.Blocking.{block_process}
use bizcocho_os.Kernel.{Kernel, kill_process}
use bizcocho_os.Shell.Builtins.{satoi_from, satoi, signed_res, not_the_shell, reply_of, kill, block}

-- Both readers agree in the low 32 bits, where `strToNum` finds digits only.
abbrev Agrees : Option ℕ → Option ℕ → Type 0
Agrees none o = Unit {0}
Agrees (some a) none = ⊥
Agrees (some a) (some b) = b % 2 ^ 32 ≡ a

satoi_from-Agrees :
    (a b : ℕ) (cs : List ℕ) → b % 2 ^ 32 ≡ a → Agrees (read_digits a cs) (satoi_from b cs)
unfolding read_digits satoi_from
satoi_from-Agrees a b [] e = e
satoi_from-Agrees a b (c ∷ cs) e = elim (Bool-cases (is_digit c)) [
  | inl digit ↦ rw digit (
      satoi_from-Agrees ((a * 10 + (c - 48)) % 2 ^ 32) ((b * 10 + (c - 48)) % 2 ^ 64) cs
        (omega (arith, e)))
  | inr other ↦ rw other tt
]

low_bits : (a : ℕ) (o : Option ℕ) → Agrees (some a) o → signed_res false o % 2 ^ 32 ≡ a
low_bits a none h = absurd h
low_bits a (some b) h = h

satoi-Agrees : (a : ℕ) (cs : List ℕ) → read_digits 0 cs ≡ some a → satoi cs % 2 ^ 32 ≡ a
unfolding satoi read_digits
satoi-Agrees a [] e =
    low_bits a (satoi_from 0 [])
      (subst (λ o. Agrees o (satoi_from 0 [])) e (satoi_from-Agrees 0 0 [] refl))
satoi-Agrees a (c ∷ cs) e =
    let all = c ∷ cs in
    let low =
      low_bits a (satoi_from 0 all)
        (subst (λ o. Agrees o (satoi_from 0 all)) e (satoi_from-Agrees 0 0 all refl)) in
    elim (Bool-cases (c == b'-')) [
      | inl sign ↦
          let no_digit : is_digit c ≡ false = ground (arith, sign) in
          absurd (none-ne-some _ (rw no_digit at e))
      | inr letter ↦ rw letter low
    ]

-- A pid that `convert` writes, as `ps` shows it, in a number of digits for which its buffer has place, is the one that `kill` and `block` pass to the system call, unless it
-- is the shell's own, where nothing is done.
pub kill-convert :
    (bizcocho_pid pid min_digit_count : ℕ) (k : Kernel)
    → pid < 2 ^ 32
    → min_digit_count ≤ 49
    → let argv = convert pid 10 min_digit_count ∷ [] in
      (kill bizcocho_pid argv k
        ≡ (if pid == bizcocho_pid then (not_the_shell, k) else reply_of pid (kill_process pid k)))
      × (block bizcocho_pid argv k ≡ (
          if pid == bizcocho_pid
          then (not_the_shell, k)
          else reply_of pid (
            (block_process pid k.schedule).0,
            record k { schedule = (block_process pid k.schedule).1 },
          )))
unfolding kill block
kill-convert shell pid min k small _ =
    let same = satoi-Agrees pid (convert pid 10 min) (read_digits-convert pid min small) in
    (rw same refl, rw same refl)
