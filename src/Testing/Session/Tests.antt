-- ===== src/Testing/Session/Tests.antt =====
-- Reads of lines at a concrete device.
use embedded_bridge.Testing.Session.{read_line}
use embedded_bridge.Testing.Session.Lines.{Kept, read_line-Kept}
use embedded_bridge.Testing.Bench.{bench, start}

read_line-Kept_example : Kept bench 5 start (read_line bench 9 5 start)
read_line-Kept_example = read_line-Kept bench 5 9 start
