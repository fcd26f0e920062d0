-- ===== src/Tests/Lists.antt =====
-- Linked lists at fixed inputs.
use libfep.Base.{ℕ, ◌≡◌, refl, none, some, [], ◌∷◌, ok}
use libfep.FepList.{Heap, list_append}
use libfep.FepList.Shapes.{IsList}
use libfep.FepList.Appending.{list_append_lem}

abbrev nothing : Heap ℕ
nothing = record { cell = λ p. none; fresh = 16 }

nothing-IsList : IsList nothing none [] []
nothing-IsList = record {
  head_first = refl;
  chain = tt;
  distinct = tt;
  in_use = tt;
  last_known = tt;
}

list_append_lem_example :
    (h : ℕ) × (heap : Heap ℕ) × (list_append nothing none 7 ≡ ok (h, heap))
    × IsList heap (some h) (16 ∷ []) (7 ∷ [])
    × (◌≡◌ {A = ℕ} 16 h)
list_append_lem_example = list_append_lem nothing none [] [] 7 nothing-IsList
