-- ===== src/Service/Handler/Answered/Calls.antt =====
-- crates/odp-service/src/service.rs: what the match on the method and the path is answered with.
use odp_rust.Prelude.{nat_eq}
use odp_rust.Prelude.Text.{Text, text_eq}
use odp_rust.Service.Handler.{Service}
