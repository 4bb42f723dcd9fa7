-- ===== src/Status.antt =====
-- The `http::StatusCode` constants that the handlers answer with.
use http_relay.Base.{ℕ}

abbrev pub ok : ℕ
ok = 200

abbrev pub bad_request : ℕ
bad_request = 400

abbrev pub not_found : ℕ
not_found = 404

abbrev pub request_timeout : ℕ
request_timeout = 408

abbrev pub internal_server_error : ℕ
internal_server_error = 500

abbrev pub service_unavailable : ℕ
service_unavailable = 503
