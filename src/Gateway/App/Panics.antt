-- ===== src/Gateway/App/Panics.antt =====
-- No request makes a handler panic, but a streamed one whose frames do not fit the buffer.
use vkr.Prelude.Text.{Text}
use vkr.Gateway.App.{App}
