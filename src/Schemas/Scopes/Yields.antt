-- ===== src/Schemas/Scopes/Yields.antt =====
-- The rules for chains of calls that may still be running.
use hardware_assisted_game_s.Base.{Option, none, some}
use hardware_assisted_game_s.Process.{Outcome, returned, thrown, Ensures}
use hardware_assisted_game_s.Schemas.Scopes.{Partial, after_result, ◌>>>◌}

-- What is said of the value that a call returns; nothing where it throws or is still running.
abbrev pub Yields : {W A : Type 0} → (A → Type 0) → Option (Outcome A × W) → Type 0
Yields P none = Unit
Yields P (some r) = Ensures P r.0

after_result-Yields :
    {W A B : Type 0} (P : A → Type 0) (Q : B → Type 0) (f : A → Partial W B)
    (r : Option (Outcome A × W))
    → Yields P r
    → ((a : A) (w : W) → P a → Yields Q (f a w))
    → Yields Q (after_result f r)
after_result-Yields P Q f none h k = tt
after_result-Yields P Q f (some (thrown e, w)) h k = tt
after_result-Yields P Q f (some (returned a, w)) h k = k a w h

Yields-Unit : {W A : Type 0} (r : Option (Outcome A × W)) → Yields (λ a. Unit {0}) r
Yields-Unit none = tt
Yields-Unit (some (thrown e, w)) = tt
Yields-Unit (some (returned a, w)) = tt

-- The rules for a chain of such calls.
pub >>>-Yields :
    {W A B : Type 0} (P : A → Type 0) (Q : B → Type 0) (m : Partial W A) (f : A → Partial W B)
    (w : W)
    → Yields P (m w)
    → ((a : A) (w' : W) → P a → Yields Q (f a w'))
    → Yields Q ((m >>> f) w)
>>>-Yields P Q m f w h k = after_result-Yields P Q f (m w) h k

pub >>>-Yields_any :
    {W A B : Type 0} (Q : B → Type 0) (m : Partial W A) (f : A → Partial W B) (w : W)
    → ((a : A) (w' : W) → Yields Q (f a w'))
    → Yields Q ((m >>> f) w)
>>>-Yields_any {A} Q m f w k =
    >>>-Yields (λ (a : A). Unit {0}) Q m f w (Yields-Unit (m w)) (λ a w' h. k a w')
