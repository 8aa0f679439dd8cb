-- ===== src/Ui/Toast/Tests.antt =====
-- Two toasts, one of them shown twice.
use kubiq.Ui.Toast.{success, error, Draft, Toast, Toasts, show, signature_of, count_after, is_error}
use kubiq.Ui.Toast.Items.{IsAbsent}
use kubiq.Ui.Toast.Show.{show-repeat, show-new}
use kubiq.Ui.Toast.Tidy.{IsTidy, Reach, start, shown, reach-IsTidy}
use kubiq.Base.{
  ℕ, ◌≡◌, ◌+◌, ◌-◌, refl, [], ◌∷◌, ◌++◌, none, some, map, length, drop, map_get, map_set,
  if◌then◌else◌,
}

abbrev saved : Draft ℕ
saved = record { type = success; message = "Saved"; description = none; action = none }

abbrev lost : Draft ℕ
lost = record { type = error; message = "Lost"; description = none; action = some 7 }

abbrev empty : Toasts ℕ
empty = record { live = []; items = []; timers = [] }

abbrev two : Toasts ℕ
two = show saved "c" (show lost "b" (show saved "a" empty))

two_counts : map (λ (t : Toast ℕ). t.count) two.items ≡ some 2 ∷ some 1 ∷ []
unfolding show map_get map_set
two_counts = refl

two_timers : two.timers ≡ ("success|Saved", "a") ∷ []
unfolding show map_get map_set
two_timers = refl

two-Reach : Reach two
unfolding show map_get map_set
two-Reach =
    shown (show lost "b" (show saved "a" empty)) saved "c"
      (shown (show saved "a" empty) lost "b" (shown empty saved "a" start (tt, tt))
        ((refl, tt), (refl, tt)))
      ((refl, (refl, tt)), (refl, (refl, tt)))

reach-IsTidy_example : IsTidy two
reach-IsTidy_example = reach-IsTidy two two-Reach

abbrev kept : Toast ℕ
kept = record { id = "a"; count = some 2; body = saved }

abbrev lost_toast : Toast ℕ
lost_toast = record { id = "b"; count = some 1; body = lost }

two_items : two.items ≡ kept ∷ lost_toast ∷ []
unfolding show map_get map_set
two_items = refl

show-repeat_example : show lost "d" two ≡ record two {
  items = kept ∷ record lost_toast { count = some (count_after lost_toast.count) } ∷ [];
}
show-repeat_example =
    show-repeat lost "d" two (kept ∷ []) [] lost_toast (reach-IsTidy two two-Reach).indexed
      two_items refl refl

abbrev other : Draft ℕ
other = record { type = success; message = "Lost"; description = none; action = none }

other-IsAbsent : IsAbsent (signature_of other) two.items
unfolding show map_get map_set
other-IsAbsent = (refl, (refl, tt))

show-new_example :
    ((show other "d" two).items
      ≡ drop
          (length two.items + 1 - 5)
          (two.items ++ record { id = "d"; count = some 1; body = other } ∷ []))
    × ((show other "d" two).timers ≡ (
        if is_error other.type then two.timers else two.timers ++ (signature_of other, "d") ∷ []))
show-new_example = show-new other "d" two (reach-IsTidy two two-Reach).indexed other-IsAbsent
