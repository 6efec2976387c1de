-- ===== src/Transfer/Session.antt =====
-- Server and client together, over a network that delivers each message whole.
use linux_app_samp.Base.{Bytes, [], ◌∷◌, ◌++◌}
use linux_app_samp.Transfer.Client.{request}

abbrev request_bytes : Bytes
request_bytes = request ++ 0 ∷ []
