-- ===== src/Calls/Frames.antt =====
-- The frames of a memory stack (src/vm/vm.c) as a list, the last call first.
use mathlib.Core.Path.{subst}
use gwion.Prelude.{ℕ, ◌+◌, ◌-◌, ◌≤◌, ◌≡◌, ◌≢◌, refl, ◌∙◌, List, [], ◌∷◌, arith, ne→==, ==-refl}
use gwion.Calls.{Frame, sizeof_frame, write_frame}

abbrev pub Frames : (ℕ → Frame) → (bottom : ℕ) → List Frame → (mem : ℕ) → Type 0
Frames h bottom [] mem = mem ≡ bottom
Frames h bottom (x ∷ fs) mem =
    (bottom + x.push ≤ mem)
    × (sizeof_frame ≤ x.push)
    × (h (mem - sizeof_frame) ≡ x)
    × Frames h bottom fs (mem - x.push)

-- What the frames take of the memory stack.
abbrev pub used : List Frame → ℕ
used [] = 0
used (x ∷ fs) = x.push + used fs

pub Frames-used :
    (h : ℕ → Frame) (bottom : ℕ) (fs : List Frame) (mem : ℕ)
    → Frames h bottom fs mem
    → mem ≡ bottom + used fs
Frames-used h bottom [] mem st = omega (arith, st)
Frames-used h bottom (x ∷ fs) mem (room, least, top, st) =
    omega (arith, room, Frames-used h bottom fs (mem - x.push) st)

write_frame-same : (h : ℕ → Frame) (p : ℕ) (t : Frame) → write_frame h p t p ≡ t
unfolding write_frame
write_frame-same h p t = rw (==-refl p) refl

write_frame-other : (h : ℕ → Frame) (p a : ℕ) (t : Frame) → a ≢ p → write_frame h p t a ≡ h a
unfolding write_frame
write_frame-other h p a t ne = rw (ne→== a p ne) refl

-- Frames do not depend on what stands above them.
Frames-below :
    (h g : ℕ → Frame) (bottom : ℕ) (fs : List Frame) (mem : ℕ)
    → ((a : ℕ) → a + sizeof_frame ≤ mem → g a ≡ h a)
    → Frames h bottom fs mem
    → Frames g bottom fs mem
Frames-below h g bottom [] mem same st = st
Frames-below h g bottom (x ∷ fs) mem same (room, least, top, st) = (
  room,
  least,
  same (mem - sizeof_frame) (omega (arith, room, least)) ∙ top,
  Frames-below h g bottom fs (mem - x.push) (λ a low. same a (omega (arith, low))) st,
)

pub Frames-push :
    (h : ℕ → Frame) (bottom : ℕ) (fs : List Frame) (mem : ℕ) (x : Frame)
    → sizeof_frame ≤ x.push
    → Frames h bottom fs mem
    → Frames (write_frame h (mem + x.push - sizeof_frame) x) bottom (x ∷ fs) (mem + x.push)
Frames-push h bottom fs mem x least st =
    let g = write_frame h (mem + x.push - sizeof_frame) x in
    let back : mem ≡ mem + x.push - x.push = omega arith in
    (
      omega (arith, Frames-used h bottom fs mem st),
      least,
      write_frame-same h (mem + x.push - sizeof_frame) x,
      subst (λ m. Frames g bottom fs m) back
          (Frames-below h g bottom fs mem
            (λ a low.
              write_frame-other h (mem + x.push - sizeof_frame) a x
                (λ e. omega (arith, least, low, e)))
            st),
    )
