-- ===== src/Http/Parser/Truncation.antt =====
-- What `parse` of http/http_parser.cpp makes of a request that was cut off.
use coroutine_http.Net.Connection.{Connection}
