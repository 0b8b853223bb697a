-- ===== src/Tests/Once.antt =====
-- Two logins with one challenge, in the scene of Tests/Scene.antt.
use smqtt.Prelude.{◌≡◌, refl, text}
use smqtt.Error.{ok}
use smqtt.Task.{done}
use smqtt.Concurrent.Schedule.{interleave}
use smqtt.Concurrent.Race.{overtaking}
use smqtt.Concurrent.Once.{one_login, two_logins}
use smqtt.Tests.Scene.{alice, server, scene}
use smqtt.Tests.Concurrent.{signed}

one_login_example :
    let end = interleave overtaking (two_logins server signed signed scene) in
    ¬ ((end.first ≡ done (ok (text "a"))) × (end.second ≡ done (ok (text "b"))))
one_login_example =
    one_login server alice signed signed refl refl scene overtaking (text "a") (text "b")
