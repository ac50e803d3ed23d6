-- ===== src/Memoize.antt =====
-- src/emit/memoize.c: the remembered calls of a memoized function. A remembered call stands at an address
-- and holds the words of the arguments and of the result; the addresses are in a vector, which is a
-- ring once it holds `limit` calls.
pub mod Ring
mod Tests
use gwion.Prelude.{ℕ, ◌+◌, ◌%◌, ◌^◌, Bool, List, Option, none, some, ◌==◌, leb, ltb, if◌then◌else◌}
use gwion.Vector.{VectorOps}

pub record Memoize (V : Type 0) : Type 0 where
  pub v : V
  pub arg_sz : ℕ
  pub ret_sz : ℕ
  pub limit : ℕ
  pub curr : ℕ

pub record Data : Type 0 where
  pub args : List ℕ
  pub ret : List ℕ

abbrev pub Entries : Type 0
Entries = ℕ → Data

module _ {V : Type 0} ⦃vo : VectorOps V⦄ where
  pub memoize_ini : (arg_sz ret_sz limit : ℕ) → Memoize V
  memoize_ini arg_sz ret_sz limit = record {
    v = vo.init;
    arg_sz = arg_sz;
    ret_sz = ret_sz;
    limit = limit;
    curr = 0;
  }

  -- The address to write to, `fresh` if the vector still grows; none divides by a limit of zero.
  unfoldable pub get_data : (fresh : ℕ) → Memoize V → Option (ℕ × Memoize V)
  get_data fresh m =
      if leb m.limit (vo.size m.v)
      then (if m.limit == 0
          then none
          else some (vo.at m.v (m.curr % m.limit), record m { curr = (m.curr + 1) % 2 ^ 64 }))
      else some (fresh, record m { v = vo.add m.v fresh })

  unfoldable pub memoize_store :
      (fresh : ℕ) → Memoize V → Entries → (args ret : List ℕ) → Option (Memoize V × Entries)
  memoize_store fresh m entries args ret = elim (get_data fresh m) [
    | none ↦ none
    | some (slot, m1) ↦
        some (m1, λ a. if a == slot then record { args = args; ret = ret } else entries a)
  ]

  -- The arguments of the remembered call at an index, which are compared next; none makes the call.
  unfoldable pub memoize_ini_at : Memoize V → Entries → (idx : ℕ) → Option (List ℕ)
  memoize_ini_at m entries idx =
      if ltb idx (vo.size m.v) then some (entries (vo.at m.v idx)).args else none
