-- ===== src/Routing/Priority.antt =====
-- The order of Endpoint::cmp_priority in witchcraft-server/src/service/routing.rs, and sorting by it.
use witchcraft_rust_server.Common.{◌≡◌, true, false, arith}
use witchcraft_rust_server.Routing.{Endpoint, cmp_priority, precedes}

pub precedes_total : (e f : Endpoint) → precedes e f ≡ false → precedes f e ≡ true
unfolding precedes cmp_priority
precedes_total e f h = ground arith

pub precedes_trans :
    (e f g : Endpoint) → precedes e f ≡ true → precedes f g ≡ true → precedes e g ≡ true
unfolding precedes cmp_priority
precedes_trans e f g h k = ground arith
