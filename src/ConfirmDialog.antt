-- ===== src/ConfirmDialog.antt =====
-- ui/components/confirm-dialog.tsx: the dialog that asks before something is deleted.
use edge_guardian.Base.{Bool, true, false, Option, none, Text, codes, if◌then◌else◌, get_or}

pub data Variant : Type 0 where
  default destructive : Variant

-- The properties that decide what is drawn; those that may be left out are options.
pub record ConfirmDialogProps : Type 0 where
  pub is_open : Bool
  pub title : Text
  pub description : Text
  pub confirm_label : Option Text
  pub variant : Option Variant
  pub loading : Bool

unfoldable pub action_label : ConfirmDialogProps → Text
action_label p = if p.loading then codes "Loading..." else get_or p.confirm_label (codes "Confirm")

abbrev pub is_destructive : Variant → Bool
is_destructive destructive = true
is_destructive default = false

unfoldable pub action_is_red : ConfirmDialogProps → Bool
action_is_red p = is_destructive (get_or p.variant default)

-- A click on the action, which is disabled while the mutation runs.
unfoldable pub confirm_clicked {ℓ} : {R : Type ℓ} → Bool → Option R → Option R
confirm_clicked loading on_confirm = if loading then none else on_confirm
