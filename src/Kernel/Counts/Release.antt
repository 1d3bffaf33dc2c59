-- ===== src/Kernel/Counts/Release.antt =====
-- The list of pipes when one of the open ends of a pipe is given back, in `closeForKilling` of Kernel/c/ipc/files.c.
use bizcocho_os.Prelude.{
  ℕ, ◌+◌, ◌-◌, ◌%◌, ◌≤◌, ◌<◌, ◌≡◌, refl, ◌∙◌, Bool, false, ◌&&◌, Option, none, some, List, [], ◌∷◌,
  arith, ◌==◌, if◌then◌else◌, Bool-cases, inl, inr,
}
use bizcocho_os.Process.{Fd}
use bizcocho_os.Pipe.{Pipe, size_mod}
use bizcocho_os.Kernel.{one_less, counted, release_pipe, holds_pipe}

-- How many pipes of the list have the id.
abbrev pub pipes_with : ℕ → List Pipe → ℕ
pipes_with id [] = 0
pipes_with id (p ∷ ps) = (if p.file_id == id then 1 else 0) + pipes_with id ps

-- How many processes have the pipe open, 0 if there is none.
abbrev pub open_count : ℕ → List Pipe → ℕ
open_count id [] = 0
open_count id (p ∷ ps) = if p.file_id == id then p.current_open_count else open_count id ps

-- How many have it open for writing.
abbrev pub write_count : ℕ → List Pipe → ℕ
write_count id [] = 0
write_count id (p ∷ ps) = if p.file_id == id then p.write_open_count else write_count id ps

-- Ids are unique, and a pipe that is on the list is open, less than 2^64 times.
pub record IsCounted (ps : List Pipe) : Type 0 where
  pub unique : (id : ℕ) → pipes_with id ps ≤ 1
  pub small : (id : ℕ) → open_count id ps < size_mod

-- How many of the entries hold the pipe.
abbrev pub entries_of : ℕ → List Fd → ℕ
entries_of id [] = 0
entries_of id (f ∷ fs) = (if holds_pipe f && f.file_id == id then 1 else 0) + entries_of id fs

-- How many of the entries hold the pipe for writing.
abbrev pub writers_of : ℕ → List Fd → ℕ
writers_of id [] = 0
writers_of id (f ∷ fs) =
    (if holds_pipe f && f.file_id == id && f.mode == b'W' then 1 else 0) + writers_of id fs

absent_count : (id : ℕ) (ps : List Pipe) → pipes_with id ps ≡ 0 → open_count id ps ≡ 0
absent_count id [] h = refl
absent_count id (p ∷ ps) h = ground (arith, absent_count id ps)

-- The pipes that a release leaves.
abbrev pub left_by : List Pipe → Option (List Pipe × Bool) → List Pipe
left_by ps none = ps
left_by ps (some (qs, w)) = qs

abbrev keep_pipe : Pipe → Option (List Pipe × Bool) → Option (List Pipe × Bool)
keep_pipe p r = elim r [ none ↦ none | some (qs, w) ↦ some (p ∷ qs, w) ]

left_by-keep_pipe :
    (p : Pipe) (ps : List Pipe) (r : Option (List Pipe × Bool))
    → left_by (p ∷ ps) (keep_pipe p r) ≡ p ∷ left_by ps r
left_by-keep_pipe p ps none = refl
left_by-keep_pipe p ps (some (qs, w)) = refl

-- The list that a release leaves where the first pipe has the id.
abbrev lowered : ℕ → Pipe → List Pipe → List Pipe
lowered mode p ps =
    if (counted one_less mode p).current_open_count == 0 then ps else counted one_less mode p ∷ ps

lowered_with :
    (mode other : ℕ) (p : Pipe) (ps : List Pipe)
    → pipes_with other (lowered mode p ps) ≤ pipes_with other (p ∷ ps)
lowered_with mode other p ps =
    elim (Bool-cases ((counted one_less mode p).current_open_count == 0)) [
      | inl gone ↦ rw gone (omega arith)
      | inr still ↦ rw still (omega arith)
    ]

lowered_count :
    (mode other : ℕ) (p : Pipe) (ps : List Pipe)
    → pipes_with p.file_id ps ≡ 0
    → 0 < p.current_open_count
    → p.current_open_count < size_mod
    → open_count other (lowered mode p ps)
      ≡ (if other == p.file_id then p.current_open_count - 1 else open_count other ps)
lowered_count mode other p ps alone pos small =
    let none_left = absent_count p.file_id ps alone in
    elim (Bool-cases ((counted one_less mode p).current_open_count == 0)) [
      | inl gone ↦ rw gone (elim (Bool-cases (other == p.file_id)) [
        | inl same ↦
            let at : other ≡ p.file_id = ground arith in rw (same, at, none_left) (ground arith)
        | inr differs ↦ rw differs
      ])
      | inr still ↦ rw still (ground arith)
    ]

pub release_with :
    (id mode other : ℕ) (ps : List Pipe)
    → pipes_with other (left_by ps (release_pipe id mode ps)) ≤ pipes_with other ps
unfolding release_pipe
release_with id mode other [] = omega arith
release_with id mode other (p ∷ ps) = elim (Bool-cases (p.file_id == id)) [
  | inl hit ↦ rw hit (lowered_with mode other p ps)
  | inr miss ↦
      rw (miss, left_by-keep_pipe p ps (release_pipe id mode ps))
        (omega (arith, release_with id mode other ps))
]

pub release_count :
    (id mode other : ℕ) (ps : List Pipe)
    → ((k : ℕ) → pipes_with k ps ≤ 1)
    → 0 < open_count id ps
    → open_count id ps < size_mod
    → open_count other (left_by ps (release_pipe id mode ps))
      ≡ (if other == id then open_count other ps - 1 else open_count other ps)
unfolding release_pipe
release_count id mode other [] u pos small = absurd (omega arith)
release_count id mode other (p ∷ ps) u pos small = elim (Bool-cases (p.file_id == id)) [
  | inl hit ↦
      let at : p.file_id ≡ id = ground arith in
      rw hit (
        lowered_count mode other p ps (ground (arith, u p.file_id)) (ground arith) (ground arith)
        ∙ ground arith)
  | inr miss ↦
      let ih =
        release_count id mode other ps (λ k. omega (arith, u k)) (ground arith) (ground arith) in
      rw (miss, left_by-keep_pipe p ps (release_pipe id mode ps)) (ground (arith, ih))
]

lowered_gone :
    (mode other : ℕ) (p : Pipe) (ps : List Pipe)
    → pipes_with p.file_id ps ≡ 0
    → 0 < p.current_open_count
    → p.current_open_count < size_mod
    → pipes_with other (lowered mode p ps)
      ≡ (if other == p.file_id && p.current_open_count == 1 then 0 else pipes_with other (p ∷ ps))
lowered_gone mode other p ps alone pos small = elim (Bool-cases (other == p.file_id)) [
  | inl same ↦ let at : other ≡ p.file_id = ground arith in rw (at) (ground (arith, alone))
  | inr differs ↦ ground arith
]

-- A release removes the pipe where it was open once, and no other.
pub release_gone :
    (id mode other : ℕ) (ps : List Pipe)
    → ((k : ℕ) → pipes_with k ps ≤ 1)
    → 0 < open_count id ps
    → open_count id ps < size_mod
    → pipes_with other (left_by ps (release_pipe id mode ps))
      ≡ (if other == id && open_count id ps == 1 then 0 else pipes_with other ps)
unfolding release_pipe
release_gone id mode other [] u pos small = absurd (omega arith)
release_gone id mode other (p ∷ ps) u pos small = elim (Bool-cases (p.file_id == id)) [
  | inl hit ↦
      let at : p.file_id ≡ id = ground arith in
      rw hit (
        lowered_gone mode other p ps (ground (arith, u p.file_id)) (ground arith) (ground arith)
        ∙ ground arith)
  | inr miss ↦
      let ih =
        release_gone id mode other ps (λ k. omega (arith, u k)) (ground arith) (ground arith) in
      rw (miss, left_by-keep_pipe p ps (release_pipe id mode ps)) (ground (arith, ih))
]

lowered_writers :
    (mode other : ℕ) (p : Pipe) (ps : List Pipe)
    → pipes_with p.file_id ps ≡ 0
    → 0 < pipes_with other (lowered mode p ps)
    → (write_count other (lowered mode p ps)
          + (if other == p.file_id && mode == b'W' then 1 else 0))
        % size_mod
      ≡ write_count other (p ∷ ps) % size_mod
lowered_writers mode other p ps alone left =
    elim (Bool-cases ((counted one_less mode p).current_open_count == 0)) [
      | inl gone ↦
          let left' : 0 < pipes_with other ps = rw gone at left in
          elim (Bool-cases (other == p.file_id)) [
            | inl same ↦
                let at : other ≡ p.file_id = ground arith in
                absurd (omega (arith, rw at at left', alone))
            | inr differs ↦
                let sides : (p.file_id == other) ≡ false = ground (arith, differs) in
                rw (gone, differs, sides) (omega arith)
          ]
      | inr still ↦ rw still (ground arith)
    ]

-- A release takes one writer off the pipe, if it is for writing and the pipe stays.
pub release_writers :
    (id mode other : ℕ) (ps : List Pipe)
    → ((k : ℕ) → pipes_with k ps ≤ 1)
    → 0 < open_count id ps
    → 0 < pipes_with other (left_by ps (release_pipe id mode ps))
    → (write_count other (left_by ps (release_pipe id mode ps))
          + (if other == id && mode == b'W' then 1 else 0))
        % size_mod
      ≡ write_count other ps % size_mod
unfolding release_pipe
release_writers id mode other [] u pos left = absurd (omega arith)
release_writers id mode other (p ∷ ps) u pos left = elim (Bool-cases (p.file_id == id)) [
  | inl hit ↦
      let at : p.file_id ≡ id = ground arith in
      let left' : 0 < pipes_with other (lowered mode p ps) = rw hit at left in
      rw (hit, ← at) (lowered_writers mode other p ps (ground (arith, u p.file_id)) left')
  | inr miss ↦
      let left' : 0 < pipes_with other (p ∷ left_by ps (release_pipe id mode ps)) =
        rw (miss, left_by-keep_pipe p ps (release_pipe id mode ps)) at left in
      rw (miss, left_by-keep_pipe p ps (release_pipe id mode ps))
        (elim (Bool-cases (p.file_id == other)) [
          | inl same ↦
              let apart : (other == id) ≡ false = ground (arith, miss, same) in
              rw (same, apart) (omega arith)
          | inr differs ↦
              let ih =
                release_writers id mode other ps (λ k. omega (arith, u k)) (ground arith)
                  (ground (arith, differs, left')) in
              rw differs ih
        ])
]
