-- ===== src/Examples/Servers.antt =====
-- bin/client/src/bridge.rs: requests of `new_blob` in steps.
use gozara.Base.{◌≡◌, []}
use gozara.Client.Bridge.{bridge_new}
use gozara.Client.Bridge.Upload.{new_blob}
use gozara.Client.Bridge.Server.{serve_all}
use gozara.Client.Bridge.Server.Reading.{one, answered, steps_of}
use gozara.Client.Bridge.Server.Alone.{serve_all-new_blob}
use gozara.Examples.Bridges.{six, six_bytes}
use gozara.Examples.Instances.{toy_services}

serve_all-new_blob_example :
    serve_all toy_services (one bridge_new [] []) (steps_of "blob" six 9 six_bytes)
    ≡ answered [] (new_blob toy_services bridge_new "blob" six six_bytes 9)
serve_all-new_blob_example = serve_all-new_blob toy_services bridge_new "blob" six 9 six_bytes []
