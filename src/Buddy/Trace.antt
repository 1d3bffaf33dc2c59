-- ===== src/Buddy/Trace.antt =====
-- The allocator together with the blocks that its callers hold, after any sequence of calls.
use native.Mathlib.Nat.{pow-le-pow_right}
use mathlib.Core.Bool.{◌||◌}
use bizcocho_os.Prelude.{
  ℕ, zero, suc, ◌+◌, ◌-◌, ◌%◌, ◌^◌, ◌≤◌, ◌<◌, ◌≡◌, ◌≢◌, refl, sym, ap, ◌∙◌, false, inl, inr, Option,
  none, some, List, [], ◌∷◌, ◌++◌, arith, ltb, leb, ◌==◌, All, Bool-cases,
}
use bizcocho_os.Buddy.{
  Buddy, max_divisions, min_size, updating_lists, division_for, hand_out, memalloc, restore_to_list,
  memfree,
}
use bizcocho_os.Buddy.Log.{log_base2_lem}
use bizcocho_os.Buddy.Cover.{in_range, in_range-le}
use bizcocho_os.Buddy.Pair.{IsAligned, pow_pos}
use bizcocho_os.Buddy.Lists.{IsValid, in_arena, covers, Added, Taken}
use bizcocho_os.Buddy.Take.{Outcome, updating_lists-Outcome}
use bizcocho_os.Buddy.Restore.{restore_to_list-Added}

-- A block that was handed out: where it starts, and its division.
pub record Held : Type 0 where
  pub addr : ℕ
  pub division : ℕ

abbrev pub held : ℕ → ℕ → Held
held p d = record { addr = p; division = d }

-- The allocator and the blocks that were handed out and not yet given back.
pub record World : Type 0 where
  pub buddy : Buddy
  pub live : List Held

abbrev pub world : Buddy → List Held → World
world b l = record { buddy = b; live = l }

-- A call of `memalloc` that returns a pointer, and a call of `memfree` with such a pointer.
pub data Step : World → World → Type 0 where
  alloc :
      (nbytes p : ℕ) (b b' : Buddy) (live : List Held)
      → memalloc nbytes b ≡ (some p, b')
      → Step (world b live) (world b' (held (p - 1) (division_for nbytes) ∷ live))
  give_back :
      (b : Buddy) (before : List Held) (k : Held) (after : List Held)
      → Step (world b (before ++ k ∷ after)) (world (memfree (k.addr + 1) b) (before ++ after))

pub data Reach (s : World) : World → Type 0 where
  here : Reach s s
  next : {t u : World} → Reach s t → Step t u → Reach s u

abbrev pub in_held : Held → ℕ → ℕ
in_held k x = in_range k.addr (2 ^ k.division) x

abbrev pub cover_live : List Held → ℕ → ℕ
cover_live [] x = 0
cover_live (k ∷ ks) x = in_held k x + cover_live ks x

abbrev pub live_bytes : List Held → ℕ
live_bytes [] = 0
live_bytes (k ∷ ks) = 2 ^ k.division + live_bytes ks

-- What a block in a caller's hands satisfies; the byte in front tells `memfree` its division.
pub record IsHeld (b : Buddy) (k : Held) : Type 0 where
  pub aligned : IsAligned b.start k.division k.addr
  pub fits : k.division ≤ b.largest
  pub two_bytes : 1 < 2 ^ k.division
  pub tagged : b.division_at k.addr ≡ k.division

pub record IsSound (w : World) : Type 0 where
  pub above_null : 0 < w.buddy.start
  pub valid : IsValid w.buddy
  pub size : w.buddy.mem_size ≡ 2 ^ w.buddy.largest
  pub held : All (IsHeld w.buddy) w.live
  pub once : (x : ℕ) → covers w.buddy x + cover_live w.live x ≡ in_arena w.buddy x
  pub used : w.buddy.mem_used ≡ live_bytes w.live % 2 ^ 64

-- Blocks keep their place and their tag when the allocator changes elsewhere.
IsHeld-keep :
    (b b' : Buddy) (ks : List Held)
    → b'.start ≡ b.start
    → b'.largest ≡ b.largest
    → ((x : ℕ) → 0 < cover_live ks x → b'.division_at x ≡ b.division_at x)
    → All (IsHeld b) ks
    → All (IsHeld b') ks
IsHeld-keep b b' [] hs hl same all = tt
IsHeld-keep b b' (k ∷ ks) hs hl same all = (
  record {
    aligned = rw hs all.0.aligned;
    fits = omega (arith, all.0.fits);
    two_bytes = all.0.two_bytes;
    tagged = same k.addr (ground (arith, pow_pos k.division)) ∙ all.0.tagged;
  },
  IsHeld-keep b b' ks hs hl (λ x pos. same x (omega arith)) all.1,
)

-- For a request of at most 2^26 bytes, the division's blocks hold the bytes and the byte in front.
pub division_for_bounds :
    (nbytes : ℕ)
    → nbytes ≤ 2 ^ 26
    → (nbytes + 1 ≤ 2 ^ division_for nbytes) × (min_size ≤ 2 ^ division_for nbytes)
unfolding division_for
division_for_bounds nbytes h = elim (Bool-cases (ltb ((nbytes + 1) % 2 ^ 32) min_size)) [
  | inl less ↦ rw less (
      let c = (log_base2_lem min_size (omega arith) (omega arith)).0 in
      (ground (arith, c.enough), c.enough))
  | inr more ↦ rw more (
      let c = (log_base2_lem ((nbytes + 1) % 2 ^ 32) (ground arith) (omega arith)).0 in
      (omega (arith, c.enough), ground (arith, c.enough)))
]

Taken-IsSound :
    (b c : Buddy) (live : List Held) (d p : ℕ)
    → min_size ≤ 2 ^ d
    → d ≤ b.largest
    → IsSound (world b live)
    → Taken d p b c
    → IsSound (world (record c { mem_used = (c.mem_used + 2 ^ d) % 2 ^ 64 }) (held p d ∷ live))
Taken-IsSound b c live d p big hd s t =
    let k = t.keeps in
    let arena : (x : ℕ) → in_arena c x ≡ in_arena b x = λ x. rw (k.start, k.largest) in
    record {
      above_null = omega (arith, k.start, s.above_null);
      valid = record { few = t.valid.few; listed = t.valid.listed; inside = t.valid.inside };
      size = k.mem_size ∙ s.size ∙ ap (λ (n : ℕ). 2 ^ n) (sym k.largest);
      held = (
        record {
          aligned = rw k.start t.aligned;
          fits = omega (arith, k.largest);
          two_bytes = omega arith;
          tagged = t.tagged;
        },
        IsHeld-keep b (record c { mem_used = (c.mem_used + 2 ^ d) % 2 ^ 64 }) live k.start k.largest
            (λ x pos. t.kept x (omega (arith, s.once x, in_range-le b.start (2 ^ b.largest) x)))
            s.held,
      );
      once = λ x. omega (arith, t.covered x, s.once x, arena x);
      used = omega (arith, k.mem_used, s.used);
    }

hand_out-IsSound :
    (b : Buddy) (live : List Held) (d : ℕ) (r : Option ℕ × Buddy) (p : ℕ) (b' : Buddy)
    → min_size ≤ 2 ^ d
    → d ≤ b.largest
    → IsSound (world b live)
    → Outcome d b r
    → hand_out d r ≡ (some p, b')
    → IsSound (world b' (held (p - 1) d ∷ live))
unfolding hand_out
hand_out-IsSound b live d (none, c) p b' big hd s o e = absurd (ground arith)
hand_out-IsSound b live d (some a, c) p b' big hd s o e =
    let at : p - 1 ≡ a = ground arith in
    rw (at, ← ap (λ t. t.1) e) (Taken-IsSound b c live d a big hd s o)

-- A division above the largest has no block.
pub above_largest : (fuel d : ℕ) (b : Buddy) → b.largest < d → updating_lists fuel d b ≡ (none, b)
unfolding updating_lists
above_largest zero d b h = refl
above_largest (suc fuel) d b h = ground arith

pub pow_le : (n m : ℕ) → n ≤ m → 2 ^ n ≤ 2 ^ m
pow_le n m h = pow-le-pow_right {n = 2} (omega arith) h

hand_out-above :
    (d p : ℕ) (b b' : Buddy)
    → b.largest < d
    → hand_out d (updating_lists (max_divisions + 1) d b) ≢ (some p, b')
unfolding hand_out
hand_out-above d p b b' h = rw (above_largest (max_divisions + 1) d b h) (λ e. ground arith)

pub mem_size-le : (b : Buddy) (live : List Held) → IsSound (world b live) → b.mem_size ≤ 2 ^ 26
mem_size-le b live s = omega (arith, s.size, pow_le b.largest 26 (omega (arith, s.valid.few)))

pub alloc-IsSound :
    (nbytes p : ℕ) (b b' : Buddy) (live : List Held)
    → memalloc nbytes b ≡ (some p, b')
    → IsSound (world b live)
    → IsSound (world b' (held (p - 1) (division_for nbytes) ∷ live))
unfolding memalloc
alloc-IsSound nbytes p b b' live e s = elim (Bool-cases (ltb b.mem_size nbytes || nbytes == 0)) [
  | inl refused ↦ absurd (ground arith)
  | inr more ↦
      let d = division_for nbytes in
      let bounds = division_for_bounds nbytes (ground (arith, mem_size-le b live s)) in
      let e' : hand_out d (updating_lists (max_divisions + 1) d b) ≡ (some p, b') = rw more at e in
      elim (Bool-cases (ltb b.largest d)) [
        | inl above ↦ absurd (hand_out-above d p b b' (ground arith) e')
        | inr below ↦
            hand_out-IsSound b live d (updating_lists (max_divisions + 1) d b) p b' bounds.1
              (ground arith) s
              (updating_lists-Outcome (max_divisions + 1) d b s.valid (omega (arith, s.valid.few)))
              e'
      ]
]

cover_live-append :
    (ks ls : List Held) (x : ℕ) → cover_live (ks ++ ls) x ≡ cover_live ks x + cover_live ls x
cover_live-append [] ls x = omega arith
cover_live-append (k ∷ ks) ls x = omega (arith, cover_live-append ks ls x)

live_bytes-append : (ks ls : List Held) → live_bytes (ks ++ ls) ≡ live_bytes ks + live_bytes ls
live_bytes-append [] ls = omega arith
live_bytes-append (k ∷ ks) ls = omega (arith, live_bytes-append ks ls)

All-append : (P : Held → Type 0) (ks ls : List Held) → All P ks → All P ls → All P (ks ++ ls)
All-append P [] ls hk hl = hl
All-append P (k ∷ ks) ls hk hl = (hk.0, All-append P ks ls hk.1 hl)

All-parts : (P : Held → Type 0) (ks ls : List Held) → All P (ks ++ ls) → All P ks × All P ls
All-parts P [] ls h = (tt, h)
All-parts P (k ∷ ks) ls h = let (l, r) = All-parts P ks ls h.1 in ((h.0, l), r)

-- `memfree` of a block in a caller's hands passes the guards.
memfree-held :
    (b : Buddy) (live : List Held) (k : Held)
    → IsSound (world b live)
    → IsHeld b k
    → ((x : ℕ) → in_held k x ≤ in_arena b x)
    → let c = restore_to_list (max_divisions + 1) k.division k.addr b in
      memfree (k.addr + 1) b
      ≡ record c { mem_used = (c.mem_used + 2 ^ 64 - 2 ^ k.division) % 2 ^ 64 }
unfolding memfree
memfree-held b live k s h room =
    let at : k.addr + 1 - 1 ≡ k.addr = omega arith in
    let guard : (k.addr + 1 == 0
          || ltb (k.addr + 1) b.start
          || leb (b.start + b.mem_size) (k.addr + 1)
          || ltb b.largest k.division)
        ≡ false =
      ground (arith, room k.addr, room (k.addr + 1), h.two_bytes, s.size, h.fits) in
    rw (at, h.tagged, guard)

cover_live-middle :
    (before : List Held) (k : Held) (after : List Held) (x : ℕ)
    → cover_live (before ++ k ∷ after) x ≡ in_held k x + cover_live (before ++ after) x
cover_live-middle before k after x =
    omega (arith, cover_live-append before (k ∷ after) x, cover_live-append before after x)

Added-IsSound :
    (b c : Buddy) (before : List Held) (k : Held) (after : List Held)
    → IsSound (world b (before ++ k ∷ after))
    → Added k.division k.addr b c
    → IsSound (
        world
          (record c { mem_used = (c.mem_used + 2 ^ 64 - 2 ^ k.division) % 2 ^ 64 })
          (before ++ after))
Added-IsSound b c before k after s a =
    let n = a.keeps in
    let parts = All-parts (IsHeld b) before (k ∷ after) s.held in
    let arena : (x : ℕ) → in_arena c x ≡ in_arena b x = λ x. rw (n.start, n.largest) in
    let small : 2 ^ k.division ≤ 2 ^ 26 =
      pow_le k.division 26 (omega (arith, parts.1.0.fits, s.valid.few)) in
    record {
      above_null = omega (arith, n.start, s.above_null);
      valid = record { few = a.valid.few; listed = a.valid.listed; inside = a.valid.inside };
      size = n.mem_size ∙ s.size ∙ ap (λ (m : ℕ). 2 ^ m) (sym n.largest);
      held =
          IsHeld-keep b (record c { mem_used = (c.mem_used + 2 ^ 64 - 2 ^ k.division) % 2 ^ 64 })
            (before ++ after) n.start n.largest
            (λ x pos.
              let total = s.once x in
              let le = in_range-le b.start (2 ^ b.largest) x in
              let mid = cover_live-middle before k after x in
              a.kept x (omega (arith, total, le, mid)) (omega (arith, total, le, mid)))
            (All-append (IsHeld b) before after parts.0 parts.1.1);
      once = λ x. omega (arith, a.covered x, s.once x, arena x, cover_live-middle before k after x);
      used = omega (
        arith,
        n.mem_used,
        s.used,
        small,
        live_bytes-append before (k ∷ after),
        live_bytes-append before after,
      );
    }

pub memfree-IsSound :
    (b : Buddy) (before : List Held) (k : Held) (after : List Held)
    → IsSound (world b (before ++ k ∷ after))
    → IsSound (world (memfree (k.addr + 1) b) (before ++ after))
memfree-IsSound b before k after s =
    let h = (All-parts (IsHeld b) before (k ∷ after) s.held).1.0 in
    let room : (x : ℕ) → in_held k x + covers b x ≤ in_arena b x =
      λ x. omega (arith, s.once x, cover_live-middle before k after x) in
    rw (memfree-held b (before ++ k ∷ after) k s h (λ x. omega (arith, room x))) (
      Added-IsSound b (restore_to_list (max_divisions + 1) k.division k.addr b) before k after s (
        restore_to_list-Added (max_divisions + 1) k.division k.addr b s.valid
          (omega (arith, s.valid.few)) h.fits h.aligned room))

pub Step-IsSound : {s t : World} → Step s t → IsSound s → IsSound t
Step-IsSound (alloc nbytes p b b' live e) s = alloc-IsSound nbytes p b b' live e s
Step-IsSound (give_back b before k after) s = memfree-IsSound b before k after s

pub Reach-IsSound : {s t : World} → IsSound s → Reach s t → IsSound t
Reach-IsSound v here = v
Reach-IsSound v (next r st) = Step-IsSound st (Reach-IsSound v r)
