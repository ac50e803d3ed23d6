-- ===== src/Escape/Decode.antt =====
-- `escape_str` of src/emit/escape.c on a literal made of well-formed pieces, in the buffer from which it
-- is still being read.
use mathlib.Core.List.{map, append_assoc}
use native.Mathlib.Nat.{add-zero}
use Prim.Native.Nat.add
use gwion.Prelude.{
  ℕ, zero, suc, ◌+◌, ◌<◌, ◌≤◌, ◌≡◌, refl, List, [], ◌∷◌, ◌++◌, arith, set, length, drop, take, ap,
  ◌∙◌, length-append, drop-drop, length-set,
}
use gwion.Escape.{round, next, done, escape_loop, escape_str}
use gwion.Escape.Buffer.{here, drop-set, take-set, length-drop-pos}
use gwion.Escape.Pieces.{
  Piece, plain, nul, octal, hex, simple, written, IsPiece, Follows, meaning, round-piece,
}

abbrev pub text : List Piece → List ℕ
text [] = []
text (p ∷ ps) = written p ++ text ps

-- The byte that follows, the terminator at the end.
abbrev pub first : List Piece → ℕ
first [] = 0
first (plain c ∷ ps) = c
first (_ ∷ ps) = 92

abbrev pub WellFormed : List Piece → Type 0
WellFormed [] = Unit
WellFormed (p ∷ ps) = IsPiece p × Follows p (first ps) × WellFormed ps

pub text-first :
    (ps : List Piece) (tail : List ℕ) → (rest : List ℕ) × (text ps ++ 0 ∷ tail ≡ first ps ∷ rest)
text-first [] tail = (tail, refl)
text-first (plain c ∷ ps) tail = (_, refl)
text-first (nul ∷ ps) tail = (_, refl)
text-first (octal c c2 c3 ∷ ps) tail = (_, refl)
text-first (hex mark c1 c3 ∷ ps) tail = (_, refl)
text-first (simple c ∷ ps) tail = (_, refl)

drop-append {ℓ} : {A : Type ℓ} (xs ys : List A) → drop (length xs) (xs ++ ys) ≡ ys
drop-append [] ys = refl
drop-append (x ∷ xs) ys = drop-append xs ys

pub written-pos : (p : Piece) → 0 < length (written p)
written-pos (plain c) = omega arith
written-pos nul = omega arith
written-pos (octal c c2 c3) = omega arith
written-pos (hex mark c1 c3) = omega arith
written-pos (simple c) = omega arith

abbrev Decoded : ℕ → List ℕ → (rd wr : ℕ) → List Piece → Type 0
Decoded fuel buf rd wr ps =
    (buf' : List ℕ) × (escape_loop fuel buf rd wr ≡ done buf')
    × (take (suc (length ps + wr)) buf' ≡ take wr buf ++ (map meaning ps ++ 0 ∷ []))
    × (length buf' ≡ length buf)

stop-Decoded :
    (fuel : ℕ) (buf : List ℕ) (rd wr : ℕ) (tail : List ℕ)
    → drop rd buf ≡ 0 ∷ tail
    → wr ≤ rd
    → Decoded (suc fuel) buf rd wr []
unfolding escape_loop round
stop-Decoded fuel buf rd wr tail e behind =
    let inside = length-drop-pos buf tail 0 rd e in
    (
      set buf wr 0,
      ground (arith, here buf _ rd e),
      rw add.zero (take-set buf wr 0 (omega arith)),
      length-set buf wr 0,
    )

pub rest-of :
    (buf ws rest : List ℕ) (rd wr v : ℕ)
    → drop rd buf ≡ ws ++ rest
    → wr ≤ rd
    → 0 < length ws
    → drop (rd + length ws) (set buf wr v) ≡ rest
rest-of buf ws rest rd wr v e behind some_ws =
    drop-set buf wr (rd + length ws) v (omega arith)
    ∙ drop-drop buf rd (length ws)
    ∙ ap (drop (length ws)) e
    ∙ drop-append ws rest

pub inside_of :
    (p : Piece) (buf : List ℕ) (rd : ℕ) (rest : List ℕ)
    → drop rd buf ≡ (written p ++ rest)
    → rd < length buf
inside_of (plain c) buf rd rest e = length-drop-pos buf _ _ rd e
inside_of nul buf rd rest e = length-drop-pos buf _ _ rd e
inside_of (octal c c2 c3) buf rd rest e = length-drop-pos buf _ _ rd e
inside_of (hex mark c1 c3) buf rd rest e = length-drop-pos buf _ _ rd e
inside_of (simple c) buf rd rest e = length-drop-pos buf _ _ rd e

pub escape_loop-next :
    (fuel : ℕ) (buf buf' : List ℕ) (rd wr rd' wr' : ℕ)
    → round buf rd wr ≡ next buf' rd' wr'
    → escape_loop (suc fuel) buf rd wr ≡ escape_loop fuel buf' rd' wr'
unfolding escape_loop
escape_loop-next fuel buf buf' rd wr rd' wr' e = rw (e, escape_loop)

-- One decoded byte joins what was decoded before it.
take-next :
    (buf buf' : List ℕ) (wr v n : ℕ) (vs : List ℕ)
    → wr < length buf
    → take (suc (n + (wr + 1))) buf' ≡ take (wr + 1) (set buf wr v) ++ vs
    → take (suc (suc n + wr)) buf' ≡ take wr buf ++ (v ∷ vs)
take-next buf buf' wr v n vs inside e =
    let index : suc (suc n + wr) ≡ suc (n + (wr + 1)) = omega arith in
    let index' : wr + 1 ≡ suc wr = omega arith in
    ap (λ k. take k buf') index
    ∙ e
    ∙ ap (λ k. take k (set buf wr v) ++ vs) index'
    ∙ ap (λ ys. ys ++ vs) (take-set buf wr v inside)
    ∙ append_assoc (take wr buf) (v ∷ []) vs

escape_loop-Decoded :
    (ps : List Piece) (fuel : ℕ) (buf : List ℕ) (rd wr : ℕ) (tail : List ℕ)
    → drop rd buf ≡ text ps ++ 0 ∷ tail
    → WellFormed ps
    → wr ≤ rd
    → length ps < fuel
    → Decoded fuel buf rd wr ps
escape_loop-Decoded [] zero buf rd wr tail e ok behind enough = elim enough [ ]
escape_loop-Decoded (p ∷ ps) zero buf rd wr tail e ok behind enough = elim enough [ ]
escape_loop-Decoded [] (suc fuel) buf rd wr tail e ok behind enough =
    stop-Decoded fuel buf rd wr tail e behind
escape_loop-Decoded (p ∷ ps) (suc fuel) buf rd wr tail e ok behind enough =
    let (rest, begins) = text-first ps tail in
    let e' = e ∙ append_assoc (written p) (text ps) (0 ∷ tail) in
    let inside = inside_of p buf rd _ e' in
    let once =
      round-piece p ok.0 buf rd wr (first ps) rest (e' ∙ ap (λ ys. written p ++ ys) begins) ok.1 in
    let (buf', runs, decoded, same) =
      escape_loop-Decoded ps fuel (set buf wr (meaning p)) (rd + length (written p)) (wr + 1) tail
        (rest-of buf (written p) (text ps ++ 0 ∷ tail) rd wr (meaning p) e' behind (written-pos p))
        ok.2 (omega (arith, written-pos p)) (omega arith) in
    (
      buf',
      escape_loop-next fuel buf _ rd wr _ _ once ∙ runs,
      take-next buf buf' wr (meaning p) (length ps) _ (omega (arith, inside)) decoded,
      same ∙ length-set buf wr (meaning p),
    )

pub length-text : (ps : List Piece) → length ps ≤ length (text ps)
length-text [] = omega arith
length-text (p ∷ ps) =
    omega (arith, written-pos p, length-append (written p) (text ps), length-text ps)

-- A literal of well-formed pieces is decoded in its own buffer, without a read outside it and without
-- an error: the buffer keeps its length and begins with the bytes that the pieces mean and a terminator.
pub escape_str-pieces :
    (ps : List Piece)
    → WellFormed ps
    → (buf : List ℕ) × (escape_str (text ps ++ 0 ∷ []) ≡ done buf)
      × (take (suc (length ps)) buf ≡ map meaning ps ++ 0 ∷ [])
      × (length buf ≡ length (text ps) + 1)
unfolding escape_str
escape_str-pieces ps ok =
    let start = text ps ++ 0 ∷ [] in
    let long = length-append (text ps) (0 ∷ []) in
    let (buf, runs, decoded, same) =
      escape_loop-Decoded ps (length start + 1) start 0 0 [] refl ok (omega arith)
        (omega (arith, long, length-text ps)) in
    (buf, runs, rw add-zero at decoded, omega (arith, same, long))
