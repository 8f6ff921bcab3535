-- ===== src/Testing/Commands/Tests.antt =====
-- Commands at a concrete device.
use embedded_bridge.Prelude.{none}
use embedded_bridge.Text.Literal.{codes}
use embedded_bridge.Testing.Bench.{ascii, bench, start}
use embedded_bridge.Testing.Commands.{start_test}
use embedded_bridge.Testing.Commands.Heard.{IsStart, Heard, start_test-Heard}

start_test-Heard_example :
    Heard bench 6 (λ _. IsStart ascii (codes "a")) (start_test bench 9 6 (codes "a") 100 none start)
start_test-Heard_example = start_test-Heard bench 6 9 (codes "a") 100 none start
