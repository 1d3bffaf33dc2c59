-- ===== src/Pipe/Transfer.antt =====
-- `write` and `read` move characters through a pipe in order.
use bizcocho_os.Prelude.{
  ℕ, zero, suc, ◌+◌, ◌<◌, ◌≡◌, ◌⊎◌, refl, sym, ap, ◌∙◌, true, false, inl, inr, List, [], ◌∷◌, ◌++◌,
  arith, ltb, length, Bool-cases,
}
use mathlib.Core.List.{append-nil, append_assoc}
use bizcocho_os.Pipe.{
  Pipe, is_full, is_empty, put_char, drop_char, first_char, write_chars, Stop, complete, ended,
  blocked, add_read, read_chars,
}
use bizcocho_os.Pipe.Ring.{
  size, window, contents, IsValid, is_full_lem, is_empty_lem, put_char_lem, drop_char_lem,
}

-- What a part of `write` does with the characters `cs`.
pub record Wrote (cs : List ℕ) (p : Pipe) (r : List ℕ × Pipe) : Type 0 where
  pub done : List ℕ
  pub split : cs ≡ done ++ r.0
  pub queued : contents r.1 ≡ contents p ++ done
  pub valid : IsValid r.1
  pub stops : (r.0 ≡ []) ⊎ (is_full r.1 ≡ true)

Wrote-cons :
    (c : ℕ) (cs : List ℕ) (p : Pipe) (r : List ℕ × Pipe)
    → contents (put_char c p) ≡ contents p ++ (c ∷ [])
    → Wrote cs (put_char c p) r
    → Wrote (c ∷ cs) p r
Wrote-cons c cs p r e w = record {
  done = c ∷ w.done;
  split = ap (λ (l : List ℕ). c ∷ l) w.split;
  queued =
      w.queued ∙ ap (λ (l : List ℕ). l ++ w.done) e ∙ append_assoc (contents p) (c ∷ []) w.done;
  valid = w.valid;
  stops = w.stops;
}

-- Until it blocks, `write` appends the characters of the string to the pipe in order; it blocks only
-- on a full pipe, and else it has written all.
pub write_chars-Wrote : (cs : List ℕ) (p : Pipe) → IsValid p → Wrote cs p (write_chars false cs p)
unfolding write_chars
write_chars-Wrote [] p v = record {
  done = [];
  split = refl;
  queued = sym (append-nil (contents p));
  valid = v;
  stops = inl refl;
}
write_chars-Wrote (c ∷ cs) p v = elim (Bool-cases (is_full p)) [
  | inl full ↦ rw full (record {
    done = [];
    split = refl;
    queued = sym (append-nil (contents p));
    valid = v;
    stops = inr full;
  })
  | inr room ↦
      let put = put_char_lem c p v (ground (arith, is_full_lem p v, v.fits)) in
      rw room (
        Wrote-cons c cs p (write_chars false cs (put_char c p)) put.1
          (write_chars-Wrote cs (put_char c p) put.0))
]

-- How a part of `read` for `n` characters ended: what it returned, and what it left.
abbrev pub Ends : ℕ → List ℕ → Stop → Pipe → Type 0
Ends n got complete p = length got ≡ n
Ends n got ended p = (p.write_open_count ≡ 0) × (contents p ≡ [])
Ends n got (blocked k) p =
    (0 < p.write_open_count) × (contents p ≡ []) × (length got + k ≡ n) × (0 < k)

-- The 0 that `read` puts behind what it read where no process can write any more.
abbrev pub mark : Stop → List ℕ
mark ended = 0 ∷ []
mark _ = []

pub record Read (n : ℕ) (p : Pipe) (r : List ℕ × Stop × Pipe) : Type 0 where
  pub taken : List ℕ
  pub returned : r.0 ≡ taken ++ mark r.1
  pub queued : contents p ≡ taken ++ contents r.2
  pub valid : IsValid r.2
  pub ends : Ends n taken r.1 r.2

Ends-suc :
    (n c : ℕ) (got : List ℕ) (s : Stop) (p : Pipe) → Ends n got s p → Ends (suc n) (c ∷ got) s p
Ends-suc n c got complete p e = omega arith
Ends-suc n c got ended p e = e
Ends-suc n c got (blocked k) p e = (e.0, e.1, omega arith, e.3)

Read-suc :
    (n : ℕ) (p : Pipe) (r : List ℕ × Stop × Pipe)
    → contents p ≡ first_char p ∷ contents (drop_char p)
    → Read n (drop_char p) r
    → Read (suc n) p (add_read (first_char p) r)
Read-suc n p r e d = record {
  taken = first_char p ∷ d.taken;
  returned = ap (λ (l : List ℕ). first_char p ∷ l) d.returned;
  queued = e ∙ ap (λ (l : List ℕ). first_char p ∷ l) d.queued;
  valid = d.valid;
  ends = Ends-suc n (first_char p) d.taken r.1 r.2 d.ends;
}

-- `read` of `n` characters takes them off the front of the pipe in order. It stops short only on an
-- empty pipe: with a 0 behind what it read if no process has the pipe open for writing, and else
-- blocked for the rest.
pub read_chars-Read : (n : ℕ) (p : Pipe) → IsValid p → Read n p (read_chars n p)
unfolding read_chars
read_chars-Read zero p v = record {
  taken = [];
  returned = refl;
  queued = refl;
  valid = v;
  ends = refl;
}
read_chars-Read (suc n) p v = elim (Bool-cases (is_empty p)) [
  | inr some_wait ↦
      let d = drop_char_lem p v (ground (arith, is_empty_lem p v)) in
      rw some_wait
        (Read-suc n p (read_chars n (drop_char p)) d.1 (read_chars-Read n (drop_char p) d.0))
  | inl empty ↦
      let none_wait : size p ≡ 0 = ground (arith, is_empty_lem p v) in
      let nothing : contents p ≡ [] = ap (window p.buffer p.reading_index) none_wait in
      elim (Bool-cases (ltb 0 p.write_open_count)) [
        | inl writers ↦
            rw (empty, writers)
              (record {
                taken = [];
                returned = refl;
                queued = refl;
                valid = v;
                ends = (ground arith, nothing, omega arith, omega arith);
              })
        | inr closed ↦
            rw (empty, closed)
              (record {
                taken = [];
                returned = refl;
                queued = refl;
                valid = v;
                ends = (ground arith, nothing);
              })
      ]
]
