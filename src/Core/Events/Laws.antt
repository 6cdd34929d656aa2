-- ===== src/Core/Events/Laws.antt =====
-- Publishing an event never raises.
use edge_sentinel.Prelude.{List, Option, String, none, refl, some, ◌≡◌}
use edge_sentinel.Core.Effects.{ok}
use edge_sentinel.Core.Events.{Bus, Severity, Value, emit}

pub emit_ok :
    {W : Type 0} (bus : Option (Bus W)) (type component : String) (severity : Severity)
    (metadata : List (String × Value)) (w : W)
    → (emit bus type component severity metadata w).0 ≡ ok tt
emit_ok none type component severity metadata w = refl
emit_ok (some bus) type component severity metadata w = refl
