-- ===== src/Container/Storage/Checked.antt =====
-- An operation that checks two types first gives what stands behind the checks, if anything.
use modrun.Base.{String, Bool}
use modrun.Error.{◌>>◌, ok}
use modrun.Error.Gives.{Gives, Gives-bind, Gives-any}
use modrun.Scope.{ScopeId}
use modrun.Container.Types.{TypeId}
use modrun.Container.State.{Container}
use modrun.Container.Storage.{ensure_absent}

pub after_checks {ℓ} :
    (P : Container → Type ℓ) (c : Container) (t u : TypeId) (n m : String) (scope : ScopeId)
    (is_private : Bool) (d : Container)
    → P d
    → Gives P
        (ensure_absent c t n scope is_private >> (ensure_absent c u m scope is_private >> ok d))
after_checks P c t u n m scope is_private d h =
    Gives-bind (λ _. Unit {0}) P (ensure_absent c t n scope is_private) _ (Gives-any _)
      (λ _ _.
        Gives-bind (λ _. Unit {0}) P (ensure_absent c u m scope is_private) _ (Gives-any _)
          (λ _ _. h))
