-- ===== src/World/Lifting.antt =====
-- An invariant of the database, as an invariant of the whole.
use async_long_request_proxy.Result.{App}
use async_long_request_proxy.Result.Preserves.{Preserves}
use async_long_request_proxy.Delivery.Schema.{Db}
use async_long_request_proxy.World.{World, on_db}

abbrev pub InDb : (Db → Type 0) → World → Type 0
InDb P w = P w.db

pub on_db_rule :
    (P : Db → Type 0) {A : Type 0} (m : App Db A) → Preserves P m → Preserves (InDb P) (on_db m)
on_db_rule P m h w p = h w.db p
