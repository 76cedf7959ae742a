-- ===== src/Http/Admin/Routing.antt =====
-- What a change of the routing does.
use vkr.Prelude.Text.{Text}
