-- ===== src/Tests/ErrorRuns.antt =====
-- The texts of errors on concrete inputs.
use modrun.Base.{◌≡◌, refl, [], ◌∷◌}
use modrun.Base.Text.{debug_duration, decimal, join}
use modrun.Error.{hook, io, start_timeout, multiple_stop_error, to_string}

seconds : debug_duration 15000000000 ≡ "15s"
unfolding debug_duration decimal
seconds = refl

fraction_of_a_second : debug_duration 1050000000 ≡ "1.05s"
unfolding debug_duration decimal
fraction_of_a_second = refl

timeout_text : to_string (start_timeout 30000000) ≡ "application start timed out after 30ms"
unfolding to_string debug_duration decimal
timeout_text = refl

two_failures :
    to_string (multiple_stop_error (hook "db" "busy" ∷ io "read" "closed" ∷ []))
    ≡ "2 OnStop hooks failed: hook 'db' failed: busy; read: closed"
unfolding multiple_stop_error to_string decimal join
two_failures = refl
