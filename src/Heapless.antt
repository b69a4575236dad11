-- ===== src/Heapless.antt =====
-- `heapless::Vec`, a crate that the tables of src/ use: a vector of bounded capacity. It is not part
-- of the repository, so its operations are parameters with the laws that its documentation states.
use mathlib.Core.List.{Perm}
use mzmq_rs.Prelude.{
  ℕ, ◌+◌, ◌≤◌, ◌<◌, ◌≡◌, List, [], ◌∷◌, ◌++◌, Option, none, some, length, get_elem?,
}

-- `Vec<A, cap>`. `none` is `Err`, which leaves the vector as it was.
pub record BoundedVec (A : Type 0) (cap : ℕ) : Type 1 where
  pub Vec : Type 0
  pub as_slice : Vec → List A
  pub new : Vec
  pub push : Vec → A → Option Vec
  pub extend_from_slice : Vec → List A → Option Vec
  pub swap_remove : Vec → ℕ → Vec
  -- A new vector is empty.
  pub as_slice-new : as_slice new ≡ []
  -- "Appends an item to the back", or returns it if the vector is full.
  pub push_room :
      (v : Vec) (x : A)
      → length (as_slice v) < cap
      → (w : Vec) × (push v x ≡ some w) × (as_slice w ≡ as_slice v ++ x ∷ [])
  pub push_full : (v : Vec) (x : A) → cap ≤ length (as_slice v) → push v x ≡ none
  -- "Clones and appends all elements in a slice", if they fit.
  pub extend_room :
      (v : Vec) (xs : List A)
      → length (as_slice v) + length xs ≤ cap
      → (w : Vec) × (extend_from_slice v xs ≡ some w) × (as_slice w ≡ as_slice v ++ xs)
  -- "Removes an element"; "does not preserve ordering".
  pub swap_remove-perm :
      (v : Vec) (i : ℕ) (x : A)
      → get_elem? (as_slice v) i ≡ some x
      → Perm (as_slice v) (x ∷ as_slice (swap_remove v i))

-- The two vectors of a table: `Vec<Vec<u8, max_len>, max_entries>`.
pub record TableVecs (max_entries max_len : ℕ) : Type 1 where
  pub bytes : BoundedVec ℕ max_len
  pub entries : BoundedVec (BoundedVec.Vec bytes) max_entries
