-- ===== src/Terminal/Scrollback/Tests.antt =====
-- A run of the scrollback.
use kubiq.Base.{ℕ, ◌≡◌, List, [], ◌∷◌, ◌++◌}
use kubiq.Terminal.Scrollback.{new, append, snapshot}
use kubiq.Terminal.Scrollback.Suffix.{IsSound, new-IsSound, snapshot-append}

snapshot-append_example :
    IsSound (append (1 ∷ 2 ∷ []) (new 4))
    × ((p : List ℕ) × (snapshot (new 4) ++ (1 ∷ 2 ∷ [])
          ≡ p ++ snapshot (append (1 ∷ 2 ∷ []) (new 4))))
snapshot-append_example = snapshot-append (1 ∷ 2 ∷ []) (new 4) (new-IsSound 4)
