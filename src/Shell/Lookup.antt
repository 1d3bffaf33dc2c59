-- ===== src/Shell/Lookup.antt =====
-- The command that a line names.
use bizcocho_os.Prelude.{
  ℕ, zero, suc, ◌+◌, ◌%◌, ◌^◌, ◌≤◌, ◌≡◌, refl, ap, sym, ◌∙◌, Bool, not, true, false, ◌&&◌, Option,
  some, List, [], ◌∷◌, ◌++◌, ◌==◌, get_elem?, length, All, Bool-cases, inl, inr, arith,
}
use mathlib.Core.Path.{subst}
use mathlib.Core.Option.{some-injective}
use bizcocho_os.Strings.{
  Bytes, Match, found, too_short, differs, skip_spaces, match_from, str_prefix,
}
use bizcocho_os.Shell.{
  max_arg_count, CommandInfo, commands, parser, find_command, look_for_command_in_string,
  give_arguments,
}
use bizcocho_os.Shell.Words.{IsText, Short, IsRows, words, first, Tokenises, parser-Tokenises}

-- Whether the first text is a beginning of the second.
is_prefix : List ℕ → List ℕ → Bool
is_prefix [] cs = true
is_prefix (p ∷ ps) [] = false
is_prefix (p ∷ ps) (c ∷ cs) = p == c && is_prefix ps cs

-- No name of the table begins another one that stands behind or in front of it.
clash_free : List ℕ → List CommandInfo → Bool
clash_free name [] = true
clash_free name (c ∷ cs) =
    not (is_prefix c.name name) && not (is_prefix name c.name) && clash_free name cs

-- A name that is not empty and begins with no blank.
begins_well : List ℕ → Bool
begins_well [] = false
begins_well (c ∷ cs) = not (c == b' ')

is_distinct : List CommandInfo → Bool
is_distinct [] = true
is_distinct (c ∷ cs) = begins_well c.name && clash_free c.name cs && is_distinct cs

commands-is_distinct : is_distinct commands ≡ true
unfolding is_distinct clash_free is_prefix begins_well commands
commands-is_distinct = refl

-- So many blanks in front of a text.
abbrev pub blanks : ℕ → List ℕ → List ℕ
blanks zero cs = cs
blanks (suc n) cs = b' ' ∷ blanks n cs

skip_spaces-blanks :
    (n : ℕ) (name cs : List ℕ)
    → begins_well name ≡ true
    → skip_spaces (blanks n (name ++ cs)) ≡ name ++ cs
unfolding skip_spaces begins_well
skip_spaces-blanks zero [] cs e = absurd (cc)
skip_spaces-blanks zero (c ∷ name) cs e =
    let letter : (c == b' ') ≡ false = ground (arith, e) in rw letter refl
skip_spaces-blanks (suc n) name cs e = skip_spaces-blanks n name cs e

is_found : Match → Bool
is_found (found rest) = true
is_found too_short = false
is_found differs = false

match_from-other :
    (ps name cs : List ℕ)
    → is_prefix ps name ≡ false
    → is_prefix name ps ≡ false
    → is_found (match_from ps (name ++ cs)) ≡ false
unfolding match_from is_prefix is_found
match_from-other [] name cs a b = absurd (cc)
match_from-other (p ∷ ps) [] cs a b = absurd (cc)
match_from-other (p ∷ ps) (c ∷ name) cs a b = elim (Bool-cases (p == c)) [
  | inl same ↦
      let back : (c == p) ≡ true = ground (arith, same) in
      rw same (match_from-other ps name cs (rw same at a) (rw back at b))
  | inr other ↦ rw other refl
]

match_from-own : (name cs : List ℕ) → match_from name (name ++ cs) ≡ found cs
unfolding match_from
match_from-own [] cs = refl
match_from-own (c ∷ name) cs =
    let self : (c == c) ≡ true = ground arith in rw self (match_from-own name cs)

find_command-miss :
    (i : ℕ) (c : CommandInfo) (cs : List CommandInfo) (string : List ℕ)
    → is_found (str_prefix c.name string) ≡ false
    → find_command i (c ∷ cs) string ≡ find_command (i + 1) cs string
unfolding find_command is_found
find_command-miss i c cs string e =
    elim (str_prefix c.name string)
        as (λ m.
          is_found m ≡ false
          → ◌≡◌ {A = Option (ℕ × List ℕ)}
              (elim m [
                | found args ↦ some (i, args)
                | too_short ↦ find_command (i + 1) cs string
                | differs ↦ find_command (i + 1) cs string
              ])
              (find_command (i + 1) cs string)) [
                | found args ↦ λ b. absurd (cc)
                | too_short ↦ λ b. refl
                | differs ↦ λ b. refl
              ]
      e

find_command-hit :
    (i : ℕ) (c : CommandInfo) (cs : List CommandInfo) (string args : List ℕ)
    → str_prefix c.name string ≡ found args
    → find_command i (c ∷ cs) string ≡ some (i, args)
unfolding find_command
find_command-hit i c cs string args e = rw (e, find_command) refl

clash_free-apart :
    (name : List ℕ) (cs : List CommandInfo) (i : ℕ) (c : CommandInfo)
    → clash_free name cs ≡ true
    → get_elem? cs i ≡ some c
    → (is_prefix c.name name ≡ false) × (is_prefix name c.name ≡ false)
unfolding clash_free
clash_free-apart name [] i c e h = absurd (cc)
clash_free-apart name (d ∷ cs) zero c e h =
    let behind : is_prefix d.name name ≡ false = ground (arith, e) in
    let ahead : is_prefix name d.name ≡ false = ground (arith, e) in
    subst (λ (x : CommandInfo). (is_prefix x.name name ≡ false) × (is_prefix name x.name ≡ false))
      (some-injective d c h) (behind, ahead)
clash_free-apart name (d ∷ cs) (suc i) c e h = clash_free-apart name cs i c (ground (arith, e)) h

is_distinct-begins_well :
    (table : List CommandInfo) (i : ℕ) (c : CommandInfo)
    → is_distinct table ≡ true
    → get_elem? table i ≡ some c
    → begins_well c.name ≡ true
unfolding is_distinct
is_distinct-begins_well [] i c e h = absurd (cc)
is_distinct-begins_well (d ∷ table) zero c e h =
    subst (λ (x : CommandInfo). begins_well x.name ≡ true) (some-injective d c h)
      (ground (arith, e))
is_distinct-begins_well (d ∷ table) (suc i) c e h =
    is_distinct-begins_well table i c (ground (arith, e)) h

str_prefix-own :
    (k : ℕ) (name args : List ℕ)
    → begins_well name ≡ true
    → str_prefix name (blanks k (name ++ args)) ≡ found args
unfolding str_prefix
str_prefix-own k name args e = rw (skip_spaces-blanks k name args e) (match_from-own name args)

str_prefix-other :
    (k : ℕ) (ps name args : List ℕ)
    → begins_well name ≡ true
    → (is_prefix ps name ≡ false) × (is_prefix name ps ≡ false)
    → is_found (str_prefix ps (blanks k (name ++ args))) ≡ false
unfolding str_prefix
str_prefix-other k ps name args e apart =
    rw (skip_spaces-blanks k name args e) (match_from-other ps name args apart.0 apart.1)

find_command_lem :
    (n i k : ℕ) (table : List CommandInfo) (c : CommandInfo) (args : List ℕ)
    → is_distinct table ≡ true
    → get_elem? table i ≡ some c
    → find_command n table (blanks k (c.name ++ args)) ≡ some (n + i, args)
unfolding is_distinct
find_command_lem n i k [] c args e h = absurd (cc)
find_command_lem n zero k (d ∷ table) c args e h =
    let begins : begins_well d.name ≡ true = ground (arith, e) in
    subst
      (λ (x : CommandInfo).
        find_command n (d ∷ table) (blanks k (x.name ++ args)) ≡ some (n + 0, args))
      (some-injective d c h)
      (find_command-hit n d table _ args (str_prefix-own k d.name args begins)
        ∙ ap (λ (m : ℕ). some (m, args)) (omega arith))
find_command_lem n (suc i) k (d ∷ table) c args e h =
    let rest : is_distinct table ≡ true = ground (arith, e) in
    let apart : clash_free d.name table ≡ true = ground (arith, e) in
    let pair = clash_free-apart d.name table i c apart h in
    let begins = is_distinct-begins_well table i c rest h in
    find_command-miss n d table _ (str_prefix-other k d.name c.name args begins (pair.1, pair.0))
    ∙ find_command_lem (n + 1) i k table c args rest h
    ∙ ap (λ (m : ℕ). some (m, args)) (omega arith)

-- What the lookup promises: the command's index, the number of its arguments, and their rows.
pub record Finds (i : ℕ) (args : List (List ℕ)) (r : Option (ℕ × ℕ) × Bytes) : Type 0 where
  pub command : r.0 ≡ some (i, length args)
  pub rows : IsRows r.1 0 args

length-first {ℓ} : {A : Type ℓ} (n : ℕ) (xs : List A) → length (first n xs) ≤ n
length-first zero xs = omega arith
length-first (suc n) [] = omega arith
length-first (suc n) (x ∷ xs) = omega (arith, length-first n xs)

give_arguments-Finds :
    (i : ℕ) (args : List ℕ) (tokens : Bytes) (ws : List (List ℕ))
    → length ws ≤ max_arg_count
    → Tokenises ws (parser b' ' max_arg_count args tokens)
    → Finds i ws (give_arguments tokens (some (i, args)))
unfolding give_arguments
give_arguments-Finds i args tokens ws few t =
    let small : length ws % 2 ^ 8 ≡ length ws = omega (arith, few) in
    record { command = rw t.count (ap (λ (m : ℕ). some (i, m)) small); rows = t.rows }

-- `lookForCommandInString` for a line of any number of blanks, the name of a command of the table, and a text with
-- no 0 of which the first eight words are shorter than 30 characters: it returns the index of that command, the number
-- of the words, at most eight, and the rows hold these words.
pub look_for_command_in_string-Finds :
    (i k : ℕ) (c : CommandInfo) (args : List ℕ) (tokens : Bytes)
    → get_elem? commands i ≡ some c
    → IsText args
    → All Short (first max_arg_count (words b' ' args))
    → Finds i
        (first max_arg_count (words b' ' args))
        (look_for_command_in_string (blanks k (c.name ++ args)) tokens)
unfolding look_for_command_in_string
look_for_command_in_string-Finds i k c args tokens there text short =
    let same : 0 + i ≡ i = omega arith in
    let hit =
      find_command_lem 0 i k commands c args commands-is_distinct there
      ∙ ap (λ (m : ℕ). some (m, args)) same in
    let ws = first max_arg_count (words b' ' args) in
    subst (λ (o : Option (ℕ × List ℕ)). Finds i ws (give_arguments tokens o)) (sym hit)
      (give_arguments-Finds i args tokens ws (length-first max_arg_count (words b' ' args))
        (parser-Tokenises b' ' max_arg_count args tokens (omega arith) text short))
