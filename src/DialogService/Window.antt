-- ===== src/DialogService/Window.antt =====
-- The messages that `GetDealMessages` returns (backend/internal/service/dialog_analysis.go).
use dsk_agent.Base.{
  ℕ, zero, suc, ap, ◌-◌, ◌≤◌, ◌≡◌, refl, List, [], ◌∷◌, ◌++◌, Option, none, some, arith, length,
  drop, length-drop, ltb, Bool-cases, inl, inr,
}
use dsk_agent.Domain.Chat.{Message}
use dsk_agent.DialogService.{
  DealDialogMessage, Direction, last_of, dialog, direction_of, with_direction,
}

split_drop : {A : Type 0} (n : ℕ) (l : List A) → (front : List A) × (front ++ drop n l ≡ l)
split_drop zero l = ([], refl)
split_drop (suc n) [] = ([], refl)
split_drop (suc n) (x ∷ l) = let (front, e) = split_drop n l in (x ∷ front, ap (λ r. x ∷ r) e)

-- At most `limit` messages are kept, all of them where there are no more, and they are the end of the list.
pub last_of-suffix :
    (limit : ℕ) (l : List DealDialogMessage)
    → (length (last_of limit l) ≤ limit)
      × (length l ≤ limit → last_of limit l ≡ l)
      × ((front : List DealDialogMessage) × (front ++ last_of limit l ≡ l))
unfolding last_of
last_of-suffix limit l = elim (Bool-cases (ltb limit (length l))) [
  | inl e ↦ rw e (
    omega (arith, length-drop (length l - limit) l),
    (λ h. absurd (ground (arith, e, h))),
    split_drop (length l - limit) l,
  )
  | inr e ↦ rw e (ground (arith, e), (λ h. refl), ([], refl))
]

with_direction-append :
    (d : Option Direction) (x : Message) (l m : List DealDialogMessage)
    → with_direction d x (l ++ m) ≡ with_direction d x l ++ m
with_direction-append none x l m = refl
with_direction-append (some d) x l m = refl

-- The dialog of two runs of messages is the dialog of the first followed by that of the second.
pub dialog-append : (l m : List Message) → dialog (l ++ m) ≡ dialog l ++ dialog m
unfolding dialog
dialog-append [] m = refl
dialog-append (x ∷ l) m =
    rw (dialog-append l m)
      (with_direction-append (direction_of x.sender_type) x (dialog l) (dialog m))
