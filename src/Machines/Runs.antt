-- ===== src/Machines/Runs.antt =====
-- Runs of a machine whose next state is checked against a table, as `canTransition` does it.
use shop_os.Common.{◌≡◌, refl, ◌⊎◌, inl, inr, Bool, true, false, List, [], ◌∷◌, Memᴰ}

-- A run visits the states of the list, in order, each let through by the check.
pub data Run {S : Type 0} (can : S → S → Bool) : S → List S → S → Type 0 where
  stay : {s : S} → Run can s [] s
  move :
      {s t u : S} {visited : List S}
      → can s t ≡ true
      → Run can t visited u
      → Run can s (t ∷ visited) u

module _ {S : Type 0} (can : S → S → Bool) where
  -- If every way out of a region is through a milestone, a run that ends outside has visited it.
  pub Run-passes :
      (region : S → Bool) (milestone : S)
      (exits : (s t : S) → region s ≡ true → can s t ≡ true → (milestone ≡ t) ⊎ (region t ≡ true))
      {s u : S} {visited : List S}
      → Run can s visited u
      → region s ≡ true
      → region u ≡ false
      → Memᴰ milestone visited
  Run-passes region milestone exits stay inside outside = cc
  Run-passes region milestone exits (move {s = s} {t = t} step rest) inside outside =
      elim (exits s t inside step) [
        | inl here ↦ Memᴰ.head here
        | inr still ↦ Memᴰ.tail (Run-passes region milestone exits rest still outside)
      ]

  -- A run leaves no state that has no way out.
  Run-stuck :
      {s u : S} {visited : List S}
      → Run can s visited u
      → ((t : S) → can s t ≡ false)
      → (s ≡ u) × (visited ≡ [])
  Run-stuck stay closed = (refl, refl)
  Run-stuck (move {t = t} step rest) closed = let e = closed t in cc
