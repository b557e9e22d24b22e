-- ===== src/Ws.antt =====
-- internal/upstreams/ws: the requests and subscriptions of a websocket connection to an upstream.
pub mod Registry
