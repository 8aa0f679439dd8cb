-- ===== src/Ui/Toast.antt =====
-- frontend/src/application/services/toast/ToastService.ts with
-- frontend/src/store/modules/toast/ToastStore.ts: the notifications on screen. `live` is an association
-- list, `timers` holds the calls that `setTimeout` has not made yet, and the id that `idService.next`
-- returns is an argument of `show`. What an action runs is a value of `A`. The count of a draft is left
-- out, which `show` overwrites.
pub mod Items
pub mod Trim
pub mod Show
pub mod Added
pub mod Tidy
mod Tests
use kubiq.Base.{
  ℕ, zero, suc, ◌+◌, ◌-◌, Bool, true, false, not, List, [], ◌∷◌, ◌++◌, Option, none, some, String,
  str_eq, ltb, if◌then◌else◌, length, get_elem?, map_get, map_set, map_delete,
}
use Prim.Native.String.{◌++◌ as ◌<>◌}

pub data Kind : Type 0 where
  success error info warning : Kind

abbrev pub kind_text : Kind → String
kind_text success = "success"
kind_text error = "error"
kind_text info = "info"
kind_text warning = "warning"

abbrev pub is_error : Kind → Bool
is_error error = true
is_error _ = false

pub record Draft (A : Type 0) : Type 0 where
  pub type : Kind
  pub message : String
  pub description : Option String
  pub action : Option A

pub record Toast (A : Type 0) : Type 0 where
  pub id : String
  pub count : Option ℕ
  pub body : Draft A

pub record Toasts (A : Type 0) : Type 0 where
  pub live : List (String × String)
  pub items : List (Toast A)
  pub timers : List (String × String)

abbrev pub max_visible : ℕ
max_visible = 5

abbrev pub forget : ℕ → List (String × String) → List (String × String)
forget n [] = []
forget zero (t ∷ ts) = ts
forget (suc n) (t ∷ ts) = t ∷ forget n ts

-- `(toast.count ?? 1) + 1`
abbrev pub count_after : Option ℕ → ℕ
count_after none = 2
count_after (some n) = n + 1

module _ {A : Type 0} where
  abbrev pub signature_of : Draft A → String
  signature_of d = kind_text d.type <> "|" <> d.message

  -- ToastStore.bump, on the items: the first with the id counts one more, if there is one.
  unfoldable pub bump : String → List (Toast A) → Option (List (Toast A))
  bump id [] = none
  bump id (t ∷ ts) =
      let rest = bump id ts in
      if str_eq t.id id
      then some (record t { count = some (count_after t.count) } ∷ ts)
      else elim rest [ some ts' ↦ some (t ∷ ts') | none ↦ none ]

  -- ToastStore.remove, on the items.
  unfoldable pub remove : String → List (Toast A) → List (Toast A)
  remove id [] = []
  remove id (t ∷ ts) = if str_eq t.id id then ts else t ∷ remove id ts

  unfoldable pub dismiss : String → String → Toasts A → Toasts A
  unfolding remove
  dismiss signature id s =
      let gone = record s { items = remove id s.items } in
      elim (map_get signature s.live) [
        | some live ↦
            if str_eq live id then record gone { live = map_delete signature s.live } else gone
        | none ↦ gone
      ]

  -- The loop of `trim`, on as many rounds as there are items.
  unfoldable pub trim_from : ℕ → Toasts A → Toasts A
  unfolding dismiss
  trim_from zero s = s
  trim_from (suc rounds) s = elim s.items [
    | [] ↦ s
    | oldest ∷ newer ↦
        let s' = trim_from rounds (dismiss (signature_of oldest.body) oldest.id s) in
        if ltb max_visible (length (oldest ∷ newer)) then s' else s
  ]

  unfoldable pub trim : Toasts A → Toasts A
  unfolding trim_from
  trim s = trim_from (length s.items) s

  -- Whether the toast is up already, and then with one more to its count.
  unfoldable pub repeat : String → Toasts A → Toasts A × Bool
  unfolding bump
  repeat signature s = elim (map_get signature s.live) [
    | none ↦ (s, false)
    | some id ↦ elim (bump id s.items) [
      | some items ↦ (record s { items = items }, true)
      | none ↦ (record s { live = map_delete signature s.live }, false)
    ]
  ]

  -- What `show` does with a toast that is not up.
  unfoldable pub add : Draft A → String → Toasts A → Toasts A
  unfolding trim
  add toast id s =
      let signature = signature_of toast in
      let added = record s {
        live = map_set signature id s.live;
        items = s.items ++ record { id = id; count = some 1; body = toast } ∷ [];
      } in
      let s' = trim added in
      if is_error toast.type then s' else record s' { timers = s'.timers ++ (signature, id) ∷ [] }

  unfoldable pub show : Draft A → String → Toasts A → Toasts A
  unfolding repeat add
  show toast id s =
      let (s', up) = repeat (signature_of toast) s in if up then s' else add toast id s'

  unfoldable pub find : String → List (Toast A) → Option (Toast A)
  find id [] = none
  find id (t ∷ ts) = let rest = find id ts in if str_eq t.id id then some t else rest

  -- What a toast runs, when it has an action.
  unfoldable pub run_action : String → Toasts A → Toasts A × Option A
  unfolding find remove
  run_action id s = elim (find id s.items) [
    | none ↦ (s, none)
    | some toast ↦ elim toast.body.action [
      | none ↦ (s, none)
      | some action ↦ (record s { items = remove id s.items }, some action)
    ]
  ]

  -- The close button of AppToast.vue.
  unfoldable pub close : String → Toasts A → Toasts A
  unfolding remove
  close id s = record s { items = remove id s.items }

  -- A call that `setTimeout` makes.
  unfoldable pub fire : ℕ → Toasts A → Toasts A
  unfolding dismiss
  fire n s = elim (get_elem? s.timers n) [
    | none ↦ s
    | some (signature, id) ↦ dismiss signature id (record s { timers = forget n s.timers })
  ]
